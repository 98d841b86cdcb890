-- ===== src/Tests/Gateways.antt =====
-- internal/gateway on a toy machine and a ledger that takes every entry.
use ueg.Common.{
  ℕ, ◌≡◌, refl, ◌⊎◌, inl, inr, Bool, true, false, List, [], ◌∷◌, ◌++◌, Option, none, some, ℤ, pos,
  Text, text, take, length, ltb, is_some,
}
use ueg.Canon.{sha256_hex}
use ueg.Gateway.{Stage}
use ueg.Gateway.Capture.{max_excerpt_bytes, new_output_capture, write_all, capture_result}
use ueg.Gateway.Capture.Chunks.{capture_result-write_all}
use ueg.Gateway.Machine.{ledger}
use ueg.Gateway.Run.{run, request}
use ueg.Gateway.Run.Safety.{IsTrace, run-IsTrace, run-prohibited}
use ueg.Gateway.Run.Evidence.{IsOnPath, run-IsOnPath}
use ueg.Tests.Toy.{receipt, toy, machine, enforced, counter, repeat}

-- The policy hash of the toy table under the toy digest.
abbrev the_hash : Text
the_hash = text "5376" ++ repeat 60 b'0'

run-IsTrace_example :
    IsTrace machine toy
      (request machine (text "ls") (text "-l" ∷ []) enforced the_hash)
      enforced
      (run machine toy counter 0 (text "ls" ∷ text "-l" ∷ []) enforced).events
unfolding ueg.Policy.Decide.policy_hash ueg.Canon.hash_jcs ueg.Canon.object ueg.Tests.Toy.sum
    ueg.Common.utf8
run-IsTrace_example =
    run-IsTrace machine toy counter 0 (text "ls") (text "-l" ∷ []) enforced the_hash refl

run-prohibited_example :
    ((run machine toy counter 0 (text "mkfs" ∷ []) enforced).result.executed ≡ false)
    × ((run machine toy counter 0 (text "mkfs" ∷ []) enforced).result.path
        ≡ Stage.nascent ∷ Stage.declared ∷ Stage.canonical ∷ Stage.gated ∷ [])
    × (((run machine toy counter 0 (text "mkfs" ∷ []) enforced).result.exit_code ≡ pos 77)
        ⊎ (e : Text) × ((run machine toy counter 0 (text "mkfs" ∷ []) enforced).failure
            ≡ some (ledger e)))
unfolding ueg.Policy.Decide.policy_hash ueg.Canon.hash_jcs ueg.Canon.object ueg.Tests.Toy.sum
    ueg.Common.utf8 ueg.Policy.Classify.classify ueg.Policy.Argv.unwrap
    ueg.Policy.Argv.strip_wrappers ueg.Policy.Argv.wrappers ueg.Common.text_eq
    ueg.Policy.Argv.executable_base ueg.Common.contains_rune ueg.Policy.Argv.elevating
    ueg.Policy.Classify.find_rule ueg.Policy.Classify.rule_matches ueg.Policy.Classify.equal_fold
run-prohibited_example =
    run-prohibited machine toy counter 0 (text "mkfs") [] enforced the_hash refl refl

run-IsOnPath_example :
    IsOnPath (run machine toy counter 0 (text "ls" ∷ text "-l" ∷ []) enforced).result
run-IsOnPath_example = run-IsOnPath machine toy counter 0 (text "ls" ∷ text "-l" ∷ []) enforced

capture_result-write_all_example :
    (let r =
        capture_result toy (write_all (new_output_capture none) ((1 ∷ 2 ∷ []) ∷ (3 ∷ []) ∷ [])) in
      (r.excerpt ≡ take max_excerpt_bytes (1 ∷ 2 ∷ 3 ∷ []))
      × (r.sha256 ≡ sha256_hex toy (1 ∷ 2 ∷ 3 ∷ []))
      × (r.bytes ≡ 3)
      × (r.truncated ≡ ltb max_excerpt_bytes 3))
capture_result-write_all_example = capture_result-write_all toy ((1 ∷ 2 ∷ []) ∷ (3 ∷ []) ∷ [])
