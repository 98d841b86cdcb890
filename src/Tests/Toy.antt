-- ===== src/Tests/Toy.antt =====
-- Concrete parameters for the tests: a toy for Go's packages, a host, a rule table and a machine.
use ueg.Common.{
  ℕ, zero, suc, ◌+◌, ◌%◌, ◌<◌, refl, true, false, List, [], ◌∷◌, ◌++◌, Option, none, some, ℤ, pos,
  Text, text, text_eq, length, ok, arith,
}
use ueg.Crypto.{Crypto, CryptoLaws}
use ueg.Policy.{Class, Posture, Rule, RuleSet, Approvals, Host}
use ueg.Ledger.{Receipt, PetitionSummary}
use ueg.Gateway.{Options, LedgerOps}
use ueg.Gateway.Machine.{Machine, finished}

abbrev pub repeat : ℕ → ℕ → List ℕ
repeat zero a = []
repeat (suc n) a = a ∷ repeat n a

unfoldable pub sum : List ℕ → ℕ
sum [] = 0
sum (b ∷ bs) = b + sum bs

-- A digest of 32 bytes that keeps the sum of the bytes and their number.
abbrev pub digest : List ℕ → List ℕ
digest m = (sum m % 256) ∷ (length m % 256) ∷ repeat 30 0

abbrev pub toy : Crypto
toy = record {
  sha256 = digest;
  ed25519_sign = λ k m. repeat 64 b'a';
  ed25519_verify = λ k m s. true;
  base64_encode = λ m. m;
  base64_decode = some;
  marshal_pkix = some;
  parse_pkix = some;
  pem_encode = λ kind bytes. bytes;
  pem_decode = λ t.
      some (record { block_type = text "PUBLIC KEY"; bytes = t; has_headers = false; rest = [] });
}

mod_lem : (n : ℕ) → n % 256 < 256
mod_lem n = omega arith

pub toy_laws : CryptoLaws toy
toy_laws = record {
  sha256_size = λ m. refl;
  sha256_bytes = λ m. (mod_lem (sum m), (mod_lem (length m), ground arith));
  sign_size = λ k m. refl;
  base64_inverse = λ m. refl;
}

-- A rule for the commands of a name.
abbrev pub rule : Text → Class → List Text → Rule
rule id class cmd = record {
  id = id;
  class = class;
  surface = text "file";
  cmd = cmd;
  subcmd = [];
  flags_any = [];
  flags_all = [];
  args_regex = [];
  operand_is_root = false;
  note = text "note";
}

abbrev pub list_rule : Rule
list_rule = rule (text "R1") Class.reversible (text "ls" ∷ [])

abbrev pub format_rule : Rule
format_rule = rule (text "P1") Class.prohibited (text "mkfs" ∷ [])

abbrev pub table : RuleSet
table = record {
  version = text "1";
  unmatched_class = Class.unclassified;
  rules = list_rule ∷ format_rule ∷ [];
}

abbrev pub host : Host
host = record {
  lower_rune = λ r. r;
  fold_rune = λ r. r;
  match_regex = λ p s. false;
  root_like = text_eq (text "/");
}

abbrev pub no_approvals : Approvals
no_approvals = record { irrevocable = false; unclassified = false }

abbrev pub enforced : Options
enforced = record {
  posture = Posture.enforce;
  approvals = no_approvals;
  dry_run = false;
  stream = false;
  cwd = text "/tmp";
}

abbrev pub machine : Machine
machine = record {
  look_path = λ name. ok (text "/bin/" ++ name);
  getwd = none;
  actor = text "ueg:cli:a@b";
  host_arch = text "amd64";
  host_os = text "linux";
  engine_version = text "1";
  rules = table;
  rules_hash = text "00";
  host = host;
  start = λ path argv cwd stream. record {
    stdout = (1 ∷ 2 ∷ []) ∷ (3 ∷ []) ∷ [];
    stderr = [];
    exit = finished;
    duration_ms = pos 5;
  };
  stdout_mirror = λ p. (length p, false);
  stderr_mirror = λ p. (length p, false);
}

abbrev pub summary : PetitionSummary
summary = record { surface = text "file"; action = text "execute"; target = text "ls" }

-- A receipt at a position, with the id of the one before it.
abbrev pub receipt : ℤ → Option Text → Text → Text → Receipt
receipt sequence prev id key = record {
  receipt_id = id;
  prev_receipt_id = prev;
  sequence_no = sequence;
  timestamp_iso8601 = text "now";
  time_source = text "kernel_observed";
  actor = text "me";
  adapter_degraded = false;
  petition_hash = text "00";
  petition_summary = summary;
  admission_outcome = text "ADMITTED";
  expression_outcome = text "EXPRESSED";
  policy_hash = text "00";
  engine_version = text "1";
  clause_ids = text "R1" ∷ [];
  evaluation_hash = text "00";
  passport_ref = none;
  signing_key_id = key;
  signature_b64 = repeat 64 b'a';
}

-- A ledger that counts its entries and takes every one.
abbrev pub counter : LedgerOps Text ℕ
counter = record { append = λ n e. (ok (receipt (pos n) none (text "id") (text "key")), suc n) }
