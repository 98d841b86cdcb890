-- ===== src/Gateway/Replay/Verdicts.antt =====
-- replay.go, Replay: what a verdict says, and what a replay may start.
use ueg.Common.{
  ◌≡◌, ◌≢◌, refl, sym, ap, ◌∙◌, inl, inr, Bool, true, false, not, ◌&&◌, ◌!=◌, text_Eq, List, [],
  ◌∷◌, none, some, ok, Text, text, if◌then◌else◌, Bool-cases, Option-cases, int_eq_iff, text_eq_iff,
  arith,
}
use ueg.Crypto.{Crypto}
use ueg.Ledger.{Petition}
use ueg.Ledger.Petitions.{verify_petitions}
use ueg.Policy.Decide.{decide, policy_hash}
use ueg.Gateway.{Options, LedgerOps}
use ueg.Gateway.Machine.{Machine, RunResult, Event, appended, started, Outcomes}
use ueg.Gateway.Run.{run, request, gated, proceed, admit, admission_entry, will_execute}
use ueg.Gateway.Run.Executed.{run-executed}
use ueg.Policy.{Outcome}
use ueg.Policy.Classify.{classify}
use ueg.Gateway.Run.Safety.{IsTrace, silent, recorded, begun, complete, run-IsTrace}
use ueg.Gateway.Replay.{
  Verdict, Account, ReplayResult, Evidence, text_field, find_admission, find_outcome,
  recorded_account, recorded_outcome, observed_account, output_differences,
}
use ueg.Gateway.Replay.Again.{
  no_difference, opened, judge_check, judge_run, judged, check_options, enforce_options,
  recorded_argv, is_dry_run, replay_check, replay_run, replay_admission, replay,
}

if_not-false : {A : Type 0} (b : Bool) (x y : A) → b ≡ false → (if not b then x else y) ≡ x
if_not-false b x y e = rw e

if_not-true : {A : Type 0} (b : Bool) (x y : A) → b ≡ true → (if not b then x else y) ≡ y
if_not-true b x y e = rw e

-- Whether something was started.
abbrev pub has_start : List Event → Bool
has_start [] = false
has_start (appended e ∷ es) = has_start es
has_start (started p a d ∷ es) = true

IsTrace-dry :
    {m : Machine} {c : Crypto} {q : ueg.Gateway.Run.Request} {opts : Options} {es : List Event}
    → opts.dry_run ≡ true
    → IsTrace m c q opts es
    → has_start es ≡ false
IsTrace-dry d silent = refl
IsTrace-dry d recorded = refl
IsTrace-dry d (begun a n) = cc
IsTrace-dry d (complete a n id) = cc

no_difference_lem :
    (was now : Account)
    → no_difference (output_differences was now) ≡ true
    → (now.exit_code ≡ was.exit_code)
      × (now.stdout_sha256 ≡ was.stdout_sha256)
      × (now.stderr_sha256 ≡ was.stderr_sha256)
unfolding output_differences
no_difference_lem was now h = ground (
  arith,
  int_eq_iff now.exit_code was.exit_code,
  text_eq_iff now.stdout_sha256 was.stdout_sha256,
  text_eq_iff now.stderr_sha256 was.stderr_sha256,
)

judge_check-ne-match :
    (res : ReplayResult) (was : Account) (d : Bool) (o : RunResult)
    → (judge_check res was d o).verdict ≢ Verdict.match
unfolding judge_check
judge_check-ne-match res was d o h = ground arith

judge_run-match :
    (res : ReplayResult) (was : Account) (o : RunResult)
    → (judge_run res was o).verdict ≡ Verdict.match
    → (o.executed ≡ true)
      × ((judge_run res was o).recorded ≡ some was)
      × ((judge_run res was o).observed ≡ some (observed_account o))
      × (no_difference (output_differences was (observed_account o)) ≡ true)
unfolding judge_run
judge_run-match res was o h = ground (arith, h)

module _ {E L : Type 0} (m : Machine) (c : Crypto) (ops : LedgerOps E L) where
  run_dry :
      (l : L) (argv : List Text) (opts : Options)
      → opts.dry_run ≡ true
      → has_start (run m c ops l argv opts).events ≡ false
  unfolding run
  run_dry l [] opts d = refl
  run_dry l (name ∷ args) opts d =
      elim (Option-cases (policy_hash c m.rules m.rules_hash opts.posture opts.approvals)) [
        | inl p ↦ rw (run, p) refl
        | inr (hash, p) ↦ IsTrace-dry d (run-IsTrace m c ops l name args opts hash p)
      ]

judged-events :
    {E L : Type 0} (o : Outcomes E L) (judge : RunResult → ReplayResult)
    → (judged o judge).events ≡ o.events
judged-events o judge = elim (Option-cases o.failure) [ inl e ↦ rw e | inr (x, e) ↦ rw e ]

judged-ok :
    {E L : Type 0} (o : Outcomes E L) (judge : RunResult → ReplayResult) (r : ReplayResult)
    → (judged o judge).answer ≡ ok r
    → (o.failure ≡ none) × (judge o.result ≡ r)
judged-ok o judge r h = elim (Option-cases o.failure) [
  | inl e ↦ (e, ground (arith, h))
  | inr (x, e) ↦ absurd (ground (arith, h))
]

module _ {E L : Type 0} (m : Machine) (c : Crypto) (ops : LedgerOps E L) (view : Evidence L) where
  abbrev pub is_verified : L → Bool
  is_verified l =
      (view.verify_receipts l).is_ok
      && (verify_petitions c (view.receipts l) (view.petitions l)).is_ok

  replay_check-starts_nothing :
      (l : L) (p : Petition) (res : ReplayResult) (was : Account)
      → has_start (replay_check m c ops view l p res was).events ≡ false
  unfolding replay_check check_options
  replay_check-starts_nothing l p res was =
      elim (Bool-cases (not (is_dry_run p) && was.decision != text "REFUSED")) [
        | inl e ↦ rw e refl
        | inr e ↦
            rw
              (
                e,
                judged-events (run m c ops l (recorded_argv p) (check_options p))
                    (judge_check res was (is_dry_run p)),
              )
              (run_dry m c ops l (recorded_argv p) (check_options p) refl)
      ]

  abbrev pub on_record : L → Petition → ReplayResult
  on_record l p =
      record (opened (view.verify_receipts l)
        (verify_petitions c (view.receipts l) (view.petitions l))) {
          target = text_field (text "target") p;
          recorded = some (recorded_account p);
        }

  replay-check :
      (l : L) (selector : Text) (opts : Options) (p : Petition)
      → find_admission {E = E} (view.petitions l) selector ≡ ok p
      → (recorded_account p).executed ≡ false
      → is_verified l ≡ true
      → replay m c ops view l selector opts
        ≡ replay_check m c ops view l p (on_record l p) (recorded_account p)
  unfolding replay replay_admission
  replay-check l selector opts p found n e =
      if_not-true (is_verified l) _ _ e
      ∙ rw found (if_not-false (recorded_account p).executed _ _ n)

  replay-run :
      (l : L) (selector : Text) (opts : Options) (p : Petition)
      → find_admission {E = E} (view.petitions l) selector ≡ ok p
      → (recorded_account p).executed ≡ true
      → is_verified l ≡ true
      → replay m c ops view l selector opts
        ≡ replay_run m c ops view l p opts (on_record l p) (recorded_account p)
  unfolding replay replay_admission
  replay-run l selector opts p found y e =
      if_not-true (is_verified l) _ _ e ∙ rw found (if_not-true (recorded_account p).executed _ _ y)

  -- A record that says that nothing was executed is never executed by its replay.
  pub replay-not_executed :
      (l : L) (selector : Text) (opts : Options) (p : Petition)
      → find_admission {E = E} (view.petitions l) selector ≡ ok p
      → (recorded_account p).executed ≡ false
      → has_start (replay m c ops view l selector opts).events ≡ false
  unfolding replay
  replay-not_executed l selector opts p found n = elim (Bool-cases (is_verified l)) [
    | inr e ↦ rw e refl
    | inl e ↦
        rw (replay-check l selector opts p found n e)
          (replay_check-starts_nothing l p (on_record l p) (recorded_account p))
  ]

  replay_check-ne-match :
      (l : L) (p : Petition) (res : ReplayResult) (was : Account) (r : ReplayResult)
      → (replay_check m c ops view l p res was).answer ≡ ok r
      → r.verdict ≢ Verdict.match
  unfolding replay_check
  replay_check-ne-match l p res was r h v =
      elim (Bool-cases (not (is_dry_run p) && was.decision != text "REFUSED")) [
        | inl e ↦ absurd (ground (arith, h, v))
        | inr e ↦
            let o : Outcomes E L = run m c ops l (recorded_argv p) (check_options p) in
            let (f, same) = judged-ok o (judge_check res was (is_dry_run p)) r (rw e at h) in
            judge_check-ne-match res was (is_dry_run p) o.result
              (ap (λ (x : ReplayResult). x.verdict) same ∙ v)
      ]

  -- What stands behind the verdict MATCH of a recorded execution. `was` is what Replay reads in the
  -- recorded outcome: its exit code is 0 where it is missing or kept as a json.Number.
  pub record IsMatch (l : L) (p : Petition) (opts : Options) (r : ReplayResult) : Type 0 where
    pub outcome : Petition
    pub found : find_outcome (view.petitions l) (text_field (text "receipt_id") p) ≡ some outcome
    pub was : Account
    pub recorded : was ≡ recorded_outcome (recorded_account p) outcome
    pub shown : r.recorded ≡ some was
    pub admitted :
        (decide
          (classify m.host m.rules (recorded_argv p))
          (enforce_options p opts).posture
          (enforce_options p opts).approvals).outcome
        ≡ Outcome.admitted
    pub executed : (run m c ops l (recorded_argv p) (enforce_options p opts)).result.executed ≡ true
    pub exit_code :
        (run m c ops l (recorded_argv p) (enforce_options p opts)).result.exit_code ≡ was.exit_code
    pub stdout :
        (observed_account
          (run m c ops l (recorded_argv p) (enforce_options p opts)).result).stdout_sha256
        ≡ was.stdout_sha256
    pub stderr :
        (observed_account
          (run m c ops l (recorded_argv p) (enforce_options p opts)).result).stderr_sha256
        ≡ was.stderr_sha256

  replay_run-IsMatch :
      (l : L) (p : Petition) (opts : Options) (res r : ReplayResult)
      → (replay_run m c ops view l p opts res (recorded_account p)).answer ≡ ok r
      → r.verdict ≡ Verdict.match
      → IsMatch l p opts r
  unfolding replay_run
  replay_run-IsMatch l p opts res r h v =
      elim (Option-cases (find_outcome (view.petitions l) (text_field (text "receipt_id") p))) [
        | inl e ↦ absurd (lost e)
        | inr (out, e) ↦
            let o : Outcomes E L = run m c ops l (recorded_argv p) (enforce_options p opts) in
            let was : Account = recorded_outcome (recorded_account p) out in
            let (f, same) = judged-ok o (judge_run res was) r (rw (e, replay_run) at h) in
            let (x, sr, so, nd) =
              judge_run-match res was o.result (ap (λ (t : ReplayResult). t.verdict) same ∙ v) in
            let (ec, out_same, err_same) = no_difference_lem was (observed_account o.result) nd in
            record {
              outcome = out;
              found = e;
              was = was;
              recorded = refl;
              shown = ap (λ (t : ReplayResult). t.recorded) (sym same) ∙ sr;
              admitted = run-executed m c ops l (recorded_argv p) (enforce_options p opts) x;
              executed = x;
              exit_code = unfold observed_account in ec;
              stdout = out_same;
              stderr = err_same;
            }
      ]
    where
      lost : find_outcome (view.petitions l) (text_field (text "receipt_id") p) ≡ none → ⊥
      lost e = unfold replay_run in ground (arith, h, v)

  -- MATCH is said only of verified evidence of an execution whose command is admitted again by the
  -- present policy and was executed again, with the recorded digests of both streams and the exit code
  -- that intField reads in the recorded outcome, which is 0 where the code is kept as a json.Number.
  pub replay-IsMatch :
      (l : L) (selector : Text) (opts : Options) (p : Petition) (r : ReplayResult)
      → find_admission {E = E} (view.petitions l) selector ≡ ok p
      → (replay m c ops view l selector opts).answer ≡ ok r
      → r.verdict ≡ Verdict.match
      → (is_verified l ≡ true) × IsMatch l p opts r
  unfolding replay replay_admission
  replay-IsMatch l selector opts p r found h v = elim (Bool-cases (is_verified l)) [
    | inr e ↦ absurd (ground (arith, h, v, e))
    | inl e ↦ elim (Bool-cases (recorded_account p).executed) [
      | inr n ↦ absurd (
          replay_check-ne-match l p (on_record l p) (recorded_account p) r
            (rw (replay-check l selector opts p found n e) at h) v)
      | inl y ↦ (
        e,
        replay_run-IsMatch l p opts (on_record l p) r
            (rw (replay-run l selector opts p found y e) at h) v,
      )
    ]
  ]
