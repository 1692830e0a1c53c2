-- ===== src/Broker/Receipts.antt =====
-- The patch package that a session of src/broker/project-tool-broker.ts keeps, against the replies.
use claude_powerplant.Prelude.{
  ◌≡◌, refl, ◌∙◌, ◌⊎◌, inl, inr, Bool, true, false, ◌||◌, List, ◌∷◌, arith,
}
use claude_powerplant.Contracts.Tools.{
  PilotToolName, list_files, read_file, write_file, run_check, finalize, Input,
}
use claude_powerplant.Broker.{Contract, Machine, Reply, finalized, files, BrokerState}
use claude_powerplant.Broker.Handlers.{
  Reaction, handle_list_files, handle_read_file, invalidate_checks, write_admitted,
  handle_write_file, record_verdict, record_check, run_declared_check, handle_run_check,
  finalize_refusal, finalize_admitted, handle_finalize, handle,
}
use claude_powerplant.Broker.Session.{initial}
use claude_powerplant.Broker.Transcript.{
  finalized_package, count_finalized, Reachable, begin, call, quiet, Call, ends_finalize,
  let_through, Called, opened, called, silent,
}

abbrev is_finalized : Reply → Bool
is_finalized (finalized _) = true
is_finalized _ = false

-- A call that neither sets the finalize flag nor makes a package.
record Keeps {D : Type 0} (s : BrokerState D) (r : Reaction D) : Type 0 where
  received : r.0.finalize_received ≡ s.finalize_received
  patch : r.0.patch_package ≡ s.patch_package
  other : is_finalized r.1 ≡ false

-- At most one finalize call was accepted, and the package at hand is the one that it returned.
pub record Receipts {D : Type 0} (s : BrokerState D) (h : List Reply) : Type 0 where
  pub once : (count_finalized h ≡ 0) ⊎ ((count_finalized h ≡ 1) × (s.finalize_received ≡ true))
  pub kept : s.patch_package ≡ finalized_package h

Receipts-other :
    {D : Type 0} {s t : BrokerState D} {h : List Reply} (r : Reply)
    → is_finalized r ≡ false
    → t.finalize_received ≡ s.finalize_received
    → t.patch_package ≡ s.patch_package
    → Receipts s h
    → Receipts t (r ∷ h)
unfolding count_finalized finalized_package
Receipts-other (finalized _) o f p rc = cc
Receipts-other (files _) o f p rc = record { once = ground arith; kept = p ∙ rc.kept }
Receipts-other _ o f p rc = record { once = ground arith; kept = p ∙ rc.kept }

module _ {D : Type 0} (machine : Machine D) (contract : Contract) where
  list_files-Keeps : (s : BrokerState D) → Keeps s (handle_list_files machine contract s)
  unfolding handle_list_files
  list_files-Keeps s = ground arith

  read_file-Keeps :
      (s : BrokerState D) (i : Input) → Keeps s (handle_read_file machine contract s i)
  unfolding handle_read_file
  read_file-Keeps s i = ground arith

  write_file-Keeps :
      (s : BrokerState D) (i : Input) → Keeps s (handle_write_file machine contract s i)
  unfolding handle_write_file write_admitted invalidate_checks
  write_file-Keeps s i = ground arith

  run_check-Keeps :
      (s : BrokerState D) (i : Input) → Keeps s (handle_run_check machine contract s i)
  unfolding handle_run_check run_declared_check record_check record_verdict
  run_check-Keeps s i = ground arith

  finalize-Receipts :
      {s : BrokerState D} {h : List Reply} (i : Input)
      → Receipts s h
      → Receipts
          (handle_finalize machine contract s i).0
          ((handle_finalize machine contract s i).1 ∷ h)
  unfolding handle_finalize finalize_admitted finalize_refusal count_finalized finalized_package
  finalize-Receipts {s} {h} i rc = ground arith

  Receipts-handle :
      {s : BrokerState D} {h : List Reply} (tool : PilotToolName) (i : Input)
      → Receipts s h
      → Receipts (handle machine contract tool s i).0 ((handle machine contract tool s i).1 ∷ h)
  unfolding handle
  Receipts-handle {s} list_files i rc =
      let k = list_files-Keeps s in Receipts-other _ k.other k.received k.patch rc
  Receipts-handle {s} read_file i rc =
      let k = read_file-Keeps s i in Receipts-other _ k.other k.received k.patch rc
  Receipts-handle {s} write_file i rc =
      let k = write_file-Keeps s i in Receipts-other _ k.other k.received k.patch rc
  Receipts-handle {s} run_check i rc =
      let k = run_check-Keeps s i in Receipts-other _ k.other k.received k.patch rc
  Receipts-handle finalize i rc = finalize-Receipts i rc

  -- In every conversation at most one finalize call is accepted, one that was has set the flag that
  -- refuses the next, and the package at hand is the one that it returned.
  pub Reachable-Receipts :
      {s : BrokerState D} {h : List Reply} → Reachable machine contract s h → Receipts s h
  unfolding initial count_finalized finalized_package
  Reachable-Receipts (begin disk) = record { once = inl refl; kept = refl }
  Reachable-Receipts (call tool i r) = Receipts-handle tool i (Reachable-Receipts r)
  Reachable-Receipts (quiet q r) =
      let rc = Reachable-Receipts r in
      record {
        once = elim rc.once [
          | inl none_yet ↦ inl none_yet
          | inr (one, set) ↦ inr (one, q.same_received ∙ set)
        ];
        kept = q.same_patch ∙ rc.kept;
      }

  finalize-through :
      (s : BrokerState D) (i : Input)
      → (handle_finalize machine contract s i).0.finalize_received
        ≡ (ends_finalize (handle_finalize machine contract s i).1 || s.finalize_received)
  unfolding handle_finalize finalize_admitted finalize_refusal ends_finalize
  finalize-through s i = ground arith

  handle-through :
      (s : BrokerState D) (calls : List Call) (tool : PilotToolName) (i : Input)
      → s.finalize_received ≡ let_through calls
      → (handle machine contract tool s i).0.finalize_received
        ≡ let_through ((tool, (handle machine contract tool s i).1) ∷ calls)
  unfolding handle let_through
  handle-through s calls list_files i e = (list_files-Keeps s).received ∙ e
  handle-through s calls read_file i e = (read_file-Keeps s i).received ∙ e
  handle-through s calls write_file i e = (write_file-Keeps s i).received ∙ e
  handle-through s calls run_check i e = (run_check-Keeps s i).received ∙ e
  handle-through s calls finalize i e = finalize-through s i ∙ rw e refl

  -- The flag that refuses a further finalize call says that an earlier one was let through.
  pub Called-through :
      {s : BrokerState D} {calls : List Call}
      → Called machine contract s calls
      → s.finalize_received ≡ let_through calls
  unfolding initial let_through
  Called-through (opened disk) = refl
  Called-through (called {s} {calls} tool i c) = handle-through s calls tool i (Called-through c)
  Called-through (silent q c) = q.same_received ∙ Called-through c
