-- ===== src/Broker/Finalize.antt =====
-- When project_finalize of src/broker/project-tool-broker.ts is accepted.
use claude_powerplant.Prelude.{
  ◌≡◌, refl, sym, ap, Option, eqb, if◌then◌else◌, ◌∙◌, inl, inr, ◌↔◌, String, eq_iff, Bool, true,
  false, not, none, some, List, [], ◌∷◌, Dict, keys, has, Distinct, length, keep, arith,
}
use claude_powerplant.Contracts.Tools.{finalize, Input, CheckEntry, parse_finalize}
use claude_powerplant.Broker.{
  Attempt, done, threw, Contract, Machine, PatchPackage, PatchRequest, Reply, finalized, error,
  ToolError, missing_checks, checks_stale, finalize_repeated, BrokerState, required_ids,
}
use claude_powerplant.Broker.Handlers.{
  missing_ids, patch_request, finalize_refusal, finalize_admitted, handle_finalize, handle,
}
use claude_powerplant.Broker.Transcript.{
  passed_since, checked_since, missing_since, expected_refusal, Reachable, quiet, Call, replies,
  Called, Called-Reachable,
}
use claude_powerplant.Broker.Gate.{Tracks, Reachable-Tracks}
use claude_powerplant.Broker.Receipts.{Called-through}
use claude_powerplant.Broker.Passive.{Attempt-cases}

keep_congr :
    (p q : String → Bool) (xs : List String)
    → ((j : String) → has xs j ≡ true → p j ≡ q j)
    → keep p xs ≡ keep q xs
unfolding has
keep_congr p q [] h = refl
keep_congr p q (x ∷ xs) h =
    let ih = keep_congr p q xs (λ j m. h j (ground arith)) in ground (arith, ih, h x, eq_iff x x)

keep-nil :
    (p : String → Bool) (xs : List String)
    → length (keep p xs) ≡ 0
    → (j : String) → has xs j ≡ true
    → p j ≡ false
unfolding has
keep-nil p [] e j m = cc
keep-nil p (x ∷ xs) e j m =
    ground (arith, keep-nil p xs, keep-nil p xs (ground arith) j, eq_iff x j)

missing_since-nil :
    (checks : Dict CheckEntry) (h : List Reply)
    → length (missing_since checks h) ≡ 0
    → (id : String) → has (required_ids checks) id ≡ true
    → passed_since id h ≡ true
unfolding missing_since
missing_since-nil checks h e id m =
    let passed = keep-nil (λ j. not (passed_since j h)) (required_ids checks) e id m in ground arith

abbrev pub is_done : {A : Type 0} → Attempt A → Bool
is_done (done _) = true
is_done (threw _) = false

module _ {D : Type 0} (machine : Machine D) (contract : Contract) where
  missing_ids-eq :
      (s : BrokerState D) (h : List Reply)
      → Tracks contract s h
      → missing_ids contract s ≡ missing_since contract.allowed_checks h
  unfolding missing_ids missing_since
  missing_ids-eq s h tr =
      keep_congr _ _ (required_ids contract.allowed_checks) (λ j m. ground (arith, tr.tracked j))

  -- The refusal, with the check gates said of the replies
  abbrev refusal_with : List Reply → Bool → Option ToolError
  refusal_with h received =
      let missing = missing_since contract.allowed_checks h in
      if not (eqb (length missing) 0)
      then some (missing_checks missing)
      else if not (checked_since h)
      then some checks_stale
      else if received
      then some finalize_repeated
      else none

  finalize_refusal-with :
      (s : BrokerState D) (h : List Reply)
      → Distinct (keys contract.allowed_checks)
      → Reachable machine contract s h
      → finalize_refusal contract s ≡ refusal_with h s.finalize_received
  unfolding finalize_refusal
  finalize_refusal-with s h d r =
      let tr = Reachable-Tracks machine contract d r in rw (missing_ids-eq s h tr, tr.fresh) refl

  refusal_with-none :
      (h : List Reply) (received : Bool)
      → refusal_with h received ≡ none
      → (length (missing_since contract.allowed_checks h) ≡ 0)
        × (checked_since h ≡ true)
        × (received ≡ false)
  refusal_with-none h received e = ground arith

  -- The flag that `handleFinalize` sets first is no gate.
  Reachable-attempted :
      {s : BrokerState D} {h : List Reply}
      → Reachable machine contract s h
      → Reachable machine contract (record s { finalize_attempted = true }) h
  Reachable-attempted r =
      quiet
        (record {
          gates = record { same_passed = refl; same_valid = refl; same_test = refl };
          same_received = refl;
          same_patch = refl;
          same_disk = refl;
        })
        r

  finalized-gate :
      (s : BrokerState D) (input : Input) (p : PatchPackage)
      → (handle_finalize machine contract s input).1 ≡ finalized p
      → finalize_refusal contract (record s { finalize_attempted = true }) ≡ none
  unfolding handle_finalize
  finalized-gate s input p e = ground arith

  finalized-patch :
      (s : BrokerState D) (input : Input) (p : PatchPackage)
      → (handle_finalize machine contract s input).1 ≡ finalized p
      → (handle_finalize machine contract s input).0.patch_package ≡ some p
  unfolding handle_finalize finalize_admitted
  finalized-patch s input p e = ground arith

  -- An accepted finalize call: since the last write every required check has run and its latest
  -- run passed, some check has run, no earlier call was let through, and the package that the
  -- agent is told of is the one that the session keeps.
  pub finalized_verified :
      (s : BrokerState D) (h : List Reply) (input : Input) (p : PatchPackage)
      → Distinct (keys contract.allowed_checks)
      → Reachable machine contract s h
      → (handle machine contract finalize s input).1 ≡ finalized p
      → ((id : String)
          → has (required_ids contract.allowed_checks) id ≡ true
          → passed_since id h ≡ true)
        × (checked_since h ≡ true)
        × (s.finalize_received ≡ false)
        × ((handle machine contract finalize s input).0.patch_package ≡ some p)
  unfolding handle
  finalized_verified s h input p d r e =
      let open_gate = finalized-gate s input p e in
      let expected =
        finalize_refusal-with (record s { finalize_attempted = true }) h d
          (Reachable-attempted r) in
      let (none_missing, ran, first) =
        refusal_with-none h s.finalize_received (sym expected ∙ open_gate) in
      (
        missing_since-nil contract.allowed_checks h none_missing,
        ran,
        first,
        finalized-patch s input p e,
      )

  finalize_admitted-done :
      (s : BrokerState D) (summary : String) (p : PatchPackage)
      → is_done (machine.verify_source s.disk) ≡ true
      → ((request : PatchRequest) → (machine.generate_patch s.disk request).1 ≡ done p)
      → (finalize_admitted machine contract s summary).1 ≡ finalized p
  unfolding finalize_admitted
  finalize_admitted-done s summary p source made =
      elim (Attempt-cases (machine.verify_source s.disk)) [
        | inl (v, ok) ↦
            ground
              (arith, ok, made (patch_request (record s { finalize_received = true }) summary v))
        | inr (e, thrown) ↦ absurd (ground arith)
      ]

  -- In every conversation, where the source can be verified and the patch can be made now, a
  -- well-formed finalize call is accepted exactly when the calls so far, with their replies, give no
  -- ground to refuse it: each required check has passed since the last write, a check has passed or an
  -- advisory one run since, and no earlier finalize call was let through, be it that it was accepted
  -- or that the source or the making of the patch failed. Otherwise the error names the first such
  -- ground, the checks that have not passed with it.
  pub finalize_accepted_iff :
      (s : BrokerState D) (calls : List Call) (input : Input) (summary : String) (p : PatchPackage)
      → Distinct (keys contract.allowed_checks)
      → Called machine contract s calls
      → parse_finalize input ≡ some summary
      → is_done (machine.verify_source s.disk) ≡ true
      → ((request : PatchRequest) → (machine.generate_patch s.disk request).1 ≡ done p)
      → (((handle machine contract finalize s input).1 ≡ finalized p)
          ↔ (expected_refusal contract.allowed_checks calls ≡ none))
        × ((e : ToolError)
            → expected_refusal contract.allowed_checks calls ≡ some e
            → (handle machine contract finalize s input).1 ≡ error e)
  unfolding handle handle_finalize expected_refusal
  finalize_accepted_iff s calls input summary p d c good source made = ((to, from), refused)
    where
      s' : BrokerState D
      s' = record s { finalize_attempted = true }

      gate : finalize_refusal contract s' ≡ expected_refusal contract.allowed_checks calls
      gate =
          finalize_refusal-with s' (replies calls) d
            (Reachable-attempted (Called-Reachable machine contract c))
          ∙ ap (refusal_with (replies calls)) (Called-through machine contract c)

      to :
          (handle machine contract finalize s input).1 ≡ finalized p
          → expected_refusal contract.allowed_checks calls ≡ none
      to e = sym gate ∙ finalized-gate s input p e

      from :
          expected_refusal contract.allowed_checks calls ≡ none
          → (handle machine contract finalize s input).1 ≡ finalized p
      from e =
          rw (good, handle_finalize)
            (rw (gate ∙ e) (finalize_admitted-done s' summary p source made))

      refused :
          (e : ToolError)
          → expected_refusal contract.allowed_checks calls ≡ some e
          → (handle machine contract finalize s input).1 ≡ error e
      refused e ground_for = rw (good, handle_finalize) (rw (gate ∙ ground_for) refl)
