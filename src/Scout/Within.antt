-- ===== src/Scout/Within.antt =====
-- When the files and the checks of a Scout candidate are within a contract, as src/scout/scout-candidate.ts
-- tests it.
use claude_powerplant.Prelude.{
  inherited_names, ◌≡◌, refl, ap, ◌∙◌, ◌↔◌, inl, inr, ◌⊎◌, String, Bool, true, not, some, List, [],
  ◌∷◌, Dict, get, has, any, keep, arith, Bool-cases, Option-cases, All, All-weaken, In,
}
use claude_powerplant.Glob.{matches_glob}
use claude_powerplant.Scout.{
  ProposedCandidate, Check, ScoutContract, covered, files_outside_write_ceiling, declared,
  checks_not_declared,
}

-- Some pattern of the allowed write paths matches the file.
abbrev pub Covered : List String → String → Type 0
Covered globs file = (glob : String) × In glob globs × (matches_glob file glob ≡ true)

-- The contract has the check, or the name is one that every object has.
abbrev pub Declared : Dict Check → String → Type 0
Declared checks id =
    ((check : Check) × (get checks id ≡ some check)) ⊎ (has inherited_names id ≡ true)

-- The files and the checks of a candidate are within the ceiling of the contract.
abbrev pub Within : ScoutContract → ProposedCandidate → Type 0
Within contract p =
    All (Covered contract.allowed_write_paths) p.expected_files
    × All (Declared contract.allowed_checks) p.verification

any_sound :
    (globs : List String) (file : String)
    → any (λ glob. matches_glob file glob) globs ≡ true
    → Covered globs file
any_sound [] file e = absurd (ground (arith, e))
any_sound (g ∷ gs) file e = elim (Bool-cases (matches_glob file g)) [
  | inl hit ↦ (g, inl refl, hit)
  | inr miss ↦
      let later : any (λ glob. matches_glob file glob) gs ≡ true = ground (arith, e, miss) in
      let (glob, there, hit) = any_sound gs file later in (glob, inr there, hit)
]

any_complete :
    (globs : List String) (file glob : String)
    → In glob globs
    → matches_glob file glob ≡ true
    → any (λ glob. matches_glob file glob) globs ≡ true
any_complete [] file glob there hit = absurd there
any_complete (g ∷ gs) file glob (inl same) hit =
    let here : matches_glob file g ≡ true = ap (matches_glob file) same ∙ hit in
    ground (arith, here)
any_complete (g ∷ gs) file glob (inr there) hit =
    ground (arith, any_complete gs file glob there hit)

covered_iff :
    (globs : List String) (file : String) → (covered globs file ≡ true) ↔ Covered globs file
unfolding covered
covered_iff globs file = (
  any_sound globs file,
  (λ h. let (glob, there, hit) = h in any_complete globs file glob there hit),
)

declared_iff :
    (checks : Dict Check) (id : String) → (declared checks id ≡ true) ↔ Declared checks id
unfolding declared
declared_iff checks id = elim (Option-cases (get checks id)) [
  | inl gone ↦ (
    (λ e. inr (ground (arith, e, gone))),
    (λ h. elim h [
      | inl (check, found) ↦ absurd (ground (arith, gone, found))
      | inr inherited ↦ ground (arith, inherited)
    ]),
  )
  | inr (check, found) ↦ ((λ e. inl (check, found)), (λ h. ground (arith, found)))
]

-- `filter` leaves nothing exactly if the test fails on each element.
keep-none :
    {A : Type 0} (p : A → Bool) (xs : List A)
    → (keep (λ x. not (p x)) xs ≡ []) ↔ All (λ x. p x ≡ true) xs
keep-none p [] = ((λ e. tt), (λ h. refl))
keep-none p (x ∷ xs) = (
  (λ e. elim (Bool-cases (p x)) [
    | inl on ↦ (on, (keep-none p xs).0 (ground (arith, e, on)))
    | inr off ↦ absurd (ground (arith, e, off))
  ]),
  (λ h. let rest = (keep-none p xs).1 h.1 in ground (arith, h.0, rest)),
)

files_within :
    (files globs : List String)
    → (files_outside_write_ceiling files globs ≡ []) ↔ All (Covered globs) files
unfolding files_outside_write_ceiling
files_within files globs = (
  (λ e.
      All-weaken (λ f. covered globs f ≡ true) (Covered globs) files (λ f. (covered_iff globs f).0)
        ((keep-none (covered globs) files).0 e)),
  (λ h. (keep-none (covered globs) files).1 (
      All-weaken (Covered globs) (λ f. covered globs f ≡ true) files (λ f. (covered_iff globs f).1)
        h)),
)

checks_within :
    (ids : List String) (checks : Dict Check)
    → (checks_not_declared ids checks ≡ []) ↔ All (Declared checks) ids
unfolding checks_not_declared
checks_within ids checks = (
  (λ e.
      All-weaken (λ id. declared checks id ≡ true) (Declared checks) ids
        (λ id. (declared_iff checks id).0) ((keep-none (declared checks) ids).0 e)),
  (λ h. (keep-none (declared checks) ids).1 (
      All-weaken (Declared checks) (λ id. declared checks id ≡ true) ids
        (λ id. (declared_iff checks id).1) h)),
)

pub Within-iff :
    (contract : ScoutContract) (p : ProposedCandidate)
    → ((files_outside_write_ceiling p.expected_files contract.allowed_write_paths ≡ [])
        × (checks_not_declared p.verification contract.allowed_checks ≡ []))
      ↔ Within contract p
Within-iff contract p =
    let files = files_within p.expected_files contract.allowed_write_paths in
    let checks = checks_within p.verification contract.allowed_checks in
    ((λ e. (files.0 e.0, checks.0 e.1)), (λ h. (files.1 h.0, checks.1 h.1)))
