-- ===== src/Broker/Sound.antt =====
-- What a passed session of src/broker/project-tool-broker.ts guarantees.
use mathlib.Core.Path.{subst}
use claude_powerplant.Prelude.{
  ◌≡◌, refl, sym, ◌∙◌, inl, inr, String, true, Option, none, List, [], ◌∷◌, keys, has, Distinct,
  Subset, length, eqb_iff, arith, is_some, length-eq_iff_all_has,
}
use claude_powerplant.Outcome.Verdicts.{IsVerified, IsVerified-iff}
use claude_powerplant.Broker.{
  Contract, Machine, PatchPackage, Reply, files, file, not_found, written, checked, finalized,
  error, BrokerState, required_ids,
}
use claude_powerplant.Broker.Session.{
  StreamEvent, stopped, initial, session, evidence, session_result,
}
use claude_powerplant.Broker.Transcript.{
  passed_since, checked_since, finalized_package, count_finalized, Reachable,
}
use claude_powerplant.Broker.Gate.{Tracks, Reachable-Tracks}
use claude_powerplant.Broker.Passive.{Distinct-required_ids}
use claude_powerplant.Broker.Receipts.{Reachable-Receipts}
use claude_powerplant.Broker.Conversation.{Ends, Conversing, session-Conversing}

passed-IsVerified :
    {D : Type 0} (s : BrokerState D) → (session_result s).passed ≡ true → IsVerified (evidence s)
unfolding session_result
passed-IsVerified s h = (IsVerified-iff (evidence s)).0 h

-- The replies that vouch for a run: since the last write each required check ran and its latest
-- run passed, some check ran, exactly one finalize call was accepted, and it returned `patch`.
pub record Vouches (contract : Contract) (h : List Reply) (patch : Option PatchPackage)
    : Type 0 where
  pub required :
      (id : String)
      → has (required_ids contract.allowed_checks) id ≡ true
      → passed_since id h ≡ true
  pub ran : checked_since h ≡ true
  pub once : count_finalized h ≡ 1
  pub kept : patch ≡ finalized_package h
  pub made : is_some patch ≡ true

finalized_package-none : (h : List Reply) → count_finalized h ≡ 0 → finalized_package h ≡ none
unfolding count_finalized finalized_package
finalized_package-none [] e = refl
finalized_package-none (finalized p ∷ h) e = absurd (ground arith)
finalized_package-none (files _ ∷ h) e = finalized_package-none h e
finalized_package-none (file _ _ ∷ h) e = finalized_package-none h e
finalized_package-none (not_found _ ∷ h) e = finalized_package-none h e
finalized_package-none (written _ ∷ h) e = finalized_package-none h e
finalized_package-none (checked _ ∷ h) e = finalized_package-none h e
finalized_package-none (error _ ∷ h) e = finalized_package-none h e

module _ {D : Type 0} (machine : Machine D) (contract : Contract) where
  all_required :
      {s : BrokerState D} {h : List Reply}
      → Distinct (keys contract.allowed_checks)
      → Tracks contract s h
      → s.test_check_passed ≡ true
      → (id : String) → has (required_ids contract.allowed_checks) id ≡ true
      → passed_since id h ≡ true
  all_required {s} {h} d tr ok id m =
      let inside : Subset s.passed_required_checks (required_ids contract.allowed_checks) =
        λ j n. ground (arith, tr.tracked j) in
      let same : length s.passed_required_checks ≡ length (required_ids contract.allowed_checks) =
        (eqb_iff _ _).0 (sym tr.counted ∙ ok) in
      let there =
        (length-eq_iff_all_has s.passed_required_checks (required_ids contract.allowed_checks)
            tr.distinct (Distinct-required_ids contract.allowed_checks d) inside).0
          same id m in
      ground (arith, tr.tracked id)

  verified-Vouches :
      (s : BrokerState D) (h : List Reply)
      → Distinct (keys contract.allowed_checks)
      → Reachable machine contract s h
      → IsVerified (evidence s)
      → Vouches contract h s.patch_package
  unfolding evidence
  verified-Vouches s h d r v =
      let tr = Reachable-Tracks machine contract d r in
      let rc = Reachable-Receipts machine contract r in
      record {
        required = all_required d tr v.checked;
        ran = sym tr.fresh ∙ v.fresh;
        once = elim rc.once [
          | inr (one, set) ↦ one
          | inl zero_yet ↦
              absurd (ground (arith, finalized_package-none h zero_yet, rc.kept, v.patched))
        ];
        kept = rc.kept;
        made = v.patched;
      }

  stopped-Conversing :
      (disk : D) (streams : List (List StreamEvent)) (s : BrokerState D)
      → session machine contract (initial machine contract disk) streams ≡ stopped s
      → Conversing machine contract s
  stopped-Conversing disk streams s e =
      subst (Ends (Conversing machine contract)) e
        (session-Conversing machine contract disk streams)

  -- A session that stops with `passed` set: the replies that it gave to the agent vouch for the
  -- run and for the patch package in its result, and no built-in tool was used.
  pub passed_sound :
      (disk : D) (streams : List (List StreamEvent)) (s : BrokerState D)
      → Distinct (keys contract.allowed_checks)
      → session machine contract (initial machine contract disk) streams ≡ stopped s
      → (session_result s).passed ≡ true
      → ((h : List Reply) × Reachable machine contract s h
          × Vouches contract h (session_result s).patch_package)
        × ((session_result s).builtin_tool_use_count ≡ 0)
  unfolding session_result
  passed_sound disk streams s d e ok =
      let v = passed-IsVerified s ok in
      let (h, r) = stopped-Conversing disk streams s e in
      ((h, r, verified-Vouches s h d r v), unfold evidence in v.confined)
