-- ===== src/Broker/Passive.antt =====
-- The tool calls of src/broker/project-tool-broker.ts that move no gate, and the required checks.
use claude_powerplant.Prelude.{
  ◌≡◌, refl, ◌⊎◌, inl, inr, String, eq_iff, Bool, true, false, some, List, [], ◌∷◌, Dict, get, keys,
  has, Distinct, arith,
}
use claude_powerplant.Contracts.Tools.{Input, CheckEntry}
use claude_powerplant.Broker.{
  Attempt, done, threw, Contract, Machine, Reply, written, checked, BrokerState, required_ids,
}
use claude_powerplant.Broker.Handlers.{
  Reaction, handle_list_files, handle_read_file, finalize_admitted, handle_finalize,
}
use claude_powerplant.Broker.Transcript.{passed_since, checked_since, SameGates}

has-required_ids_absent :
    (checks : Dict CheckEntry) (id : String)
    → has (keys checks) id ≡ false
    → has (required_ids checks) id ≡ false
unfolding has keys required_ids
has-required_ids_absent [] id h = refl
has-required_ids_absent ((j, c) ∷ m) id h = ground (arith, has-required_ids_absent m id)

-- A declared check is among the required ids exactly if its entry says so.
pub has-required_ids :
    (checks : Dict CheckEntry) (id : String) (entry : CheckEntry)
    → Distinct (keys checks)
    → get checks id ≡ some entry
    → has (required_ids checks) id ≡ entry.required
unfolding has keys required_ids get
has-required_ids [] id entry d h = cc
has-required_ids ((j, c) ∷ m) id entry d h =
    ground (arith, has-required_ids m id entry d.1, has-required_ids_absent m j, eq_iff j id)

pub Distinct-required_ids :
    (checks : Dict CheckEntry) → Distinct (keys checks) → Distinct (required_ids checks)
unfolding has keys required_ids
Distinct-required_ids [] d = tt
Distinct-required_ids ((j, c) ∷ m) d =
    ground (arith, Distinct-required_ids m d.1, has-required_ids_absent m j)

-- A reply that moves no gate.
abbrev pub is_neutral : Reply → Bool
is_neutral (written _) = false
is_neutral (checked _) = false
is_neutral _ = true

pub passed_since-neutral :
    (id : String) (r : Reply) (h : List Reply)
    → is_neutral r ≡ true
    → passed_since id (r ∷ h) ≡ passed_since id h
unfolding passed_since
passed_since-neutral id (written _) h n = cc
passed_since-neutral id (checked _) h n = cc
passed_since-neutral id _ h n = refl

pub checked_since-neutral :
    (r : Reply) (h : List Reply) → is_neutral r ≡ true → checked_since (r ∷ h) ≡ checked_since h
unfolding checked_since
checked_since-neutral (written _) h n = cc
checked_since-neutral (checked _) h n = cc
checked_since-neutral _ h n = refl

-- A call that leaves the gates alone, and a reply that says nothing of them.
abbrev pub Passive : {D : Type 0} → BrokerState D → Reaction D → Type 0
Passive s r = SameGates s r.0 × (is_neutral r.1 ≡ true)

pub SameGates-refl : {D : Type 0} (s : BrokerState D) → SameGates s s
SameGates-refl s = record { same_passed = refl; same_valid = refl; same_test = refl }

pub Attempt-cases :
    {A : Type 0} (a : Attempt A) → ((x : A) × (a ≡ done x)) ⊎ ((e : String) × (a ≡ threw e))
Attempt-cases (done x) = inl (x, refl)
Attempt-cases (threw e) = inr (e, refl)

module _ {D : Type 0} (machine : Machine D) (contract : Contract) where
  pub list_files-Passive : (s : BrokerState D) → Passive s (handle_list_files machine contract s)
  unfolding handle_list_files
  list_files-Passive s = ground arith

  pub read_file-Passive :
      (s : BrokerState D) (input : Input) → Passive s (handle_read_file machine contract s input)
  unfolding handle_read_file
  read_file-Passive s input = ground arith

  pub finalize-Passive :
      (s : BrokerState D) (input : Input) → Passive s (handle_finalize machine contract s input)
  unfolding handle_finalize finalize_admitted
  finalize-Passive s input = ground arith
