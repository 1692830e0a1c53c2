-- ===== src/Evaluator/Verdict.antt =====
-- When the capsule evaluator of src/preflight/capsule-evaluator.ts gives PASS.
use claude_powerplant.Prelude.{
  ◌≡◌, refl, ap, ◌∙◌, ◌↔◌, inl, inr, ◌⊎◌, String, Bool, true, false, not, ◌&&◌, some, List, [], ◌∷◌,
  has, length, leb, arith, Bool-cases, Option-cases,
}
use claude_powerplant.Evaluator.{value, pass}
use claude_powerplant.Evaluator.Spawn.{SpawnCapsuleResult, new_child, run_child}
use claude_powerplant.Evaluator.Capsule.{
  Inspection, inspect_failed, blank_output, bad_json, no_array, digests, get_capsule_repo_digests,
  registry_digest_verified, evaluate, CapsuleEnv, CapsuleOptions, CapsuleReceipt, capsule_receipt,
  refused, finished, run_oracle_in_capsule,
}
use claude_powerplant.Evaluator.Trust.{LastSentinel}
use claude_powerplant.Evaluator.Channels.{NoSentinel, FileSays, Approved, evaluate_pass_iff}

verified_iff :
    (inspection : Inspection) (expected : String)
    → (registry_digest_verified (get_capsule_repo_digests inspection) expected ≡ true)
      ↔ Approved inspection expected
unfolding registry_digest_verified get_capsule_repo_digests has
verified_iff inspect_failed expected =
    ((λ e. absurd (ground (arith, e))), (λ h. absurd (ground (arith, h.1))))
verified_iff blank_output expected =
    ((λ e. absurd (ground (arith, e))), (λ h. absurd (ground (arith, h.1))))
verified_iff bad_json expected =
    ((λ e. absurd (ground (arith, e))), (λ h. absurd (ground (arith, h.1))))
verified_iff no_array expected =
    ((λ e. absurd (ground (arith, e))), (λ h. absurd (ground (arith, h.1))))
verified_iff (digests ds) expected = (
  (λ e. (ds, refl, ground (arith, e))),
  (λ h.
      let (ds', same, listed) = h in
      let ds_same : ds' ≡ ds = ground (arith, same) in listed_verified ds (rw (← ds_same) listed)),
)
  where
    listed_verified :
        (xs : List String)
        → has xs expected ≡ true
        → (not (leb (length xs) 0) && has xs expected) ≡ true
    listed_verified [] e = ground (arith, e)
    listed_verified (x ∷ xs) e = ground (arith, e)

-- A run of the capsule whose child has ended, within its limits, with a verdict of PASS to be read
pub record Vouched (env : CapsuleEnv) (o : CapsuleOptions) : Type 0 where
  pub approved : Approved env.inspection o.expected_reference
  pub set_up : env.sets_up ≡ true
  pub child : SpawnCapsuleResult
  pub ran : run_child o.max_output_bytes new_child env.child_events ≡ some child
  pub timely : child.timed_out ≡ false
  pub bounded : child.output_capped ≡ false
  pub says :
      LastSentinel env.parse child.stdout (value (some "PASS"))
      ⊎ (NoSentinel env.parse child.stdout × FileSays env.parse env.output_file (some "PASS"))

-- A run of the capsule evaluator ends with a receipt of PASS exactly if the registry knows the image
-- under the expected reference, the run could be set up, and its child ended in time with no more
-- output than allowed, and the last line of the output that carries JSON says PASS, or, if no
-- line carries a value last, the file that the candidate's code can write says PASS. The hash of the
-- oracle plays no part. Without the reference the run is refused before the candidate's code starts.
pub capsule_pass_iff :
    (env : CapsuleEnv) (o : CapsuleOptions)
    → (((receipt : CapsuleReceipt) × (run_oracle_in_capsule env o ≡ finished receipt)
          × (receipt.evaluation.status ≡ pass))
        ↔ Vouched env o)
      × (¬ Approved env.inspection o.expected_reference → run_oracle_in_capsule env o ≡ refused)
unfolding run_oracle_in_capsule capsule_receipt
capsule_pass_iff env o = ((passes, vouches), refuses)
  where
    checked : Bool
    checked =
        registry_digest_verified (get_capsule_repo_digests env.inspection) o.expected_reference

    passes :
        ((receipt : CapsuleReceipt) × (run_oracle_in_capsule env o ≡ finished receipt)
          × (receipt.evaluation.status ≡ pass))
        → Vouched env o
    passes (receipt, ends, ok) = elim (Bool-cases checked) [
      | inr unknown ↦ absurd (ground (arith, ends, unknown))
      | inl known ↦ elim (Bool-cases env.sets_up) [
        | inr broken ↦ absurd (ground (arith, ends, known, broken))
        | inl set ↦ elim (Option-cases (run_child o.max_output_bytes new_child env.child_events)) [
          | inl runs ↦ absurd (ground (arith, ends, known, set, runs))
          | inr (r, ran) ↦
              let same : capsule_receipt env o r ≡ receipt =
                ground (arith, ends, known, set, ran) in
              let status : (evaluate env.parse r env.output_file).status ≡ pass =
                ap (λ c. c.evaluation.status) same ∙ ok in
              let (timely, bounded, says) =
                (evaluate_pass_iff env.parse r env.output_file).0 status in
              record {
                approved = (verified_iff env.inspection o.expected_reference).0 known;
                set_up = set;
                child = r;
                ran = ran;
                timely = timely;
                bounded = bounded;
                says = says;
              }
        ]
      ]
    ]

    vouches :
        Vouched env o
        → (receipt : CapsuleReceipt) × (run_oracle_in_capsule env o ≡ finished receipt)
          × (receipt.evaluation.status ≡ pass)
    vouches v =
        let known = (verified_iff env.inspection o.expected_reference).1 v.approved in
        let set = v.set_up in
        let ran = v.ran in
        (
          capsule_receipt env o v.child,
          ground (arith, known, set, ran),
          (evaluate_pass_iff env.parse v.child env.output_file).1 (v.timely, v.bounded, v.says),
        )

    refuses : ¬ Approved env.inspection o.expected_reference → run_oracle_in_capsule env o ≡ refused
    refuses unknown = elim (Bool-cases checked) [
      | inr unlisted ↦ ground (arith, unlisted)
      | inl known ↦ absurd (unknown ((verified_iff env.inspection o.expected_reference).0 known))
    ]
