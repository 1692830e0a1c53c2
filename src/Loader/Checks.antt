-- ===== src/Loader/Checks.antt =====
-- What holds of the checks that `loadVerifyYaml` of src/projects/load-project-contract.ts returns.
use mathlib.Core.Path.{subst}
use claude_powerplant.Prelude.{
  ℕ, ◌≡◌, ◌≢◌, refl, ap, ◌∙◌, inl, inr, ◌⊎◌, String, Bool, true, Option, none, some, List, [], ◌∷◌,
  Dict, put, eqb, length, arith, Bool-cases, All, In, ◌==◌,
}
use claude_powerplant.Text.{units, trim}
use claude_powerplant.Contracts.Tools.{CheckEntry, is_check_id}
use claude_powerplant.Loader.{
  Flag, unset, no_boolean, set, Entry, no_object, object, Value, RawVerifyYaml, loaded, and_then,
  LoadedProjectContract,
}
use claude_powerplant.Loader.Verify.{
  named_profile, read_profile, read_flag, read_entry, read_checks, some_checks, checks_of,
  read_verify,
}
use claude_powerplant.Loader.Arrays.{and_then-loaded}
use claude_powerplant.Loader.Promises.{filled_some}

-- What a flag in the file means
abbrev pub Means : Flag → Bool → Type 0
Means unset b = b ≡ true
Means (set c) b = b ≡ c
Means no_boolean b = ⊥

-- The check has a proper id and a command, and stands so among the entries of the file.
abbrev pub CheckFrom : Dict Entry → String × CheckEntry → Type 0
CheckFrom m (id, c) =
    (is_check_id (units id) ≡ true)
    × (trim (units c.command) ≢ [])
    × ((flag : Flag) × In (id, object (some c.command) flag) m × Means flag c.required)

-- The profile is absent, or named by the file
abbrev pub ProfileFrom : Value → Option (List ℕ) → Type 0
ProfileFrom v none = (v ≡ Value.undefined) ⊎ (v ≡ Value.null_value)
ProfileFrom v (some name) =
    (s : String) × (v ≡ Value.text s) × (name ≡ trim (units s)) × (is_check_id name ≡ true)

-- What the checks of a contract promise, and where they stand in the file
pub record VerifyFrom (doc : RawVerifyYaml) (c : LoadedProjectContract) : Type 0 where
  pub checks :
      (m : Dict Entry) × (doc.checks ≡ Value.mapping m) × All (CheckFrom m) c.allowed_checks
  pub checks_some : c.allowed_checks ≢ []
  pub profile : ProfileFrom doc.verification_profile c.verification_profile

All-put :
    {V : Type 0} (P : String × V → Type 0) (k : String) (v : V) (m : Dict V)
    → All P m
    → P (k, v)
    → All P (put k v m)
unfolding put
All-put P k v [] all p = (p, tt)
All-put P k v ((j, w) ∷ m) all p = elim (Bool-cases (j == k)) [
  | inl same ↦
      let whole : (k, v) ∷ m ≡ put k v ((j, w) ∷ m) = ground (arith, same) in
      subst (λ l. All P l) whole (p, all.1)
  | inr other ↦
      let whole : (j, w) ∷ put k v m ≡ put k v ((j, w) ∷ m) = ground (arith, other) in
      subst (λ l. All P l) whole (all.0, All-put P k v m all.1 p)
]

read_flag-Means :
    (id : String) (flag : Flag) (b : Bool) → read_flag id flag ≡ loaded b → Means flag b
unfolding read_flag
read_flag-Means id unset b e = ground (arith, e)
read_flag-Means id (set c) b e = ground (arith, e)
read_flag-Means id no_boolean b e = absurd (ground (arith, e))

read_entry-From :
    (id : String) (entry : Entry) (c : CheckEntry)
    → read_entry id entry ≡ loaded c
    → (trim (units c.command) ≢ [])
      × ((flag : Flag) × (entry ≡ object (some c.command) flag) × Means flag c.required)
unfolding read_entry
read_entry-From id no_object c e = absurd (ground (arith, e))
read_entry-From id (object none flag) c e = absurd (ground (arith, e))
read_entry-From id (object (some command) flag) c e =
    elim (Bool-cases (eqb (length (trim (units command))) 0)) [
      | inl blank ↦ absurd (ground (arith, e, blank))
      | inr filled ↦
          let chain : and_then (read_flag id flag)
                (λ required. loaded (record { command = command; required = required }))
              ≡ loaded c =
            ground (arith, e, filled) in
          let (b, flag_e, same) =
            and_then-loaded (read_flag id flag)
              (λ required. loaded (record { command = command; required = required })) c chain in
          let whole : record { command = command; required = b } ≡ c = ground (arith, same) in
          subst
            (λ c.
              (trim (units c.command) ≢ [])
              × ((f : Flag) × (object (some command) flag ≡ object (some c.command) f)
                  × Means f c.required))
            whole
            (
              filled_some (trim (units command)) filled,
              (flag, refl, read_flag-Means id flag b flag_e),
            )
    ]

read_checks-From :
    (P : String × CheckEntry → Type 0) (m : Dict Entry) (found checks : Dict CheckEntry)
    → ((id : String) (entry : Entry) (c : CheckEntry)
        → In (id, entry) m
        → is_check_id (units id) ≡ true
        → read_entry id entry ≡ loaded c
        → P (id, c))
    → All P found
    → read_checks found m ≡ loaded checks
    → All P checks
unfolding read_checks
read_checks-From P [] found checks sound all e =
    let same : found ≡ checks = ground (arith, e) in subst (λ l. All P l) same all
read_checks-From P ((id, entry) ∷ m) found checks sound all e =
    elim (Bool-cases (is_check_id (units id))) [
      | inr bad ↦ absurd (ground (arith, e, bad))
      | inl good ↦
          let chain : and_then (read_entry id entry) (λ c. read_checks (put id c found) m)
              ≡ loaded checks =
            ground (arith, e, good) in
          let (c, entry_e, rest) =
            and_then-loaded (read_entry id entry) (λ c. read_checks (put id c found) m) checks
              chain in
          read_checks-From P m (put id c found) checks
            (λ id' entry' c' there. sound id' entry' c' (inr there))
            (All-put P id c found all (sound id entry c (inl refl) good entry_e)) rest
    ]

some_checks-From :
    (found checks : Dict CheckEntry)
    → some_checks found ≡ loaded checks
    → (found ≡ checks) × (checks ≢ [])
unfolding some_checks
some_checks-From [] checks e = absurd (ground (arith, e))
some_checks-From (c ∷ found) checks e =
    let same : c ∷ found ≡ checks = ground (arith, e) in
    (same, (λ empty. ground (arith, same, empty)))

-- The checks come from a mapping of the file, and are not none.
checks_of-From :
    (v : Value) (checks : Dict CheckEntry)
    → checks_of v ≡ loaded checks
    → ((m : Dict Entry) × (v ≡ Value.mapping m) × All (CheckFrom m) checks) × (checks ≢ [])
unfolding checks_of
checks_of-From Value.undefined checks e = absurd (ground (arith, e))
checks_of-From Value.null_value checks e = absurd (ground (arith, e))
checks_of-From Value.scalar checks e = absurd (ground (arith, e))
checks_of-From Value.date checks e = absurd (ground (arith, e))
checks_of-From (Value.text s) checks e = absurd (ground (arith, e))
checks_of-From (Value.array is) checks e = absurd (ground (arith, e))
checks_of-From (Value.mapping m) checks e =
    let (found, reads, kept) = and_then-loaded (read_checks [] m) some_checks checks e in
    let (same, filled) = some_checks-From found checks kept in
    let each =
      read_checks-From (CheckFrom m) m [] found
        (λ id entry c there good reads.
          let (command, (flag, whole, means)) = read_entry-From id entry c reads in
          let there' : In (id, object (some c.command) flag) m =
            subst (λ entry. In (id, entry) m) whole there in
          (good, command, (flag, there', means)))
        tt reads in
    ((m, refl, subst (λ l. All (CheckFrom m) l) same each), filled)

read_profile-From :
    (v : Value) (profile : Option (List ℕ))
    → read_profile v ≡ loaded profile
    → ProfileFrom v profile
unfolding read_profile named_profile
read_profile-From Value.undefined none e = inl refl
read_profile-From Value.undefined (some name) e = absurd (ground (arith, e))
read_profile-From Value.null_value none e = inr refl
read_profile-From Value.null_value (some name) e = absurd (ground (arith, e))
read_profile-From Value.scalar profile e = absurd (ground (arith, e))
read_profile-From Value.date profile e = absurd (ground (arith, e))
read_profile-From (Value.array is) profile e = absurd (ground (arith, e))
read_profile-From (Value.mapping m) profile e = absurd (ground (arith, e))
read_profile-From (Value.text s) none e = absurd (ground (arith, e))
read_profile-From (Value.text s) (some name) e =
    let same : name ≡ trim (units s) = ground (arith, e) in
    let proper : is_check_id (trim (units s)) ≡ true = ground (arith, e) in
    (s, refl, same, ap is_check_id same ∙ proper)

pub read_verify-From :
    (doc : RawVerifyYaml) (c : LoadedProjectContract)
    → read_verify doc ≡ loaded (c.allowed_checks, c.verification_profile)
    → VerifyFrom doc c
unfolding read_verify
read_verify-From doc c e =
    let (profile, profile_e, rest) =
      and_then-loaded (read_profile doc.verification_profile)
        (λ profile. and_then (checks_of doc.checks) (λ checks. loaded (checks, profile)))
        (c.allowed_checks, c.verification_profile) e in
    let (checks, checks_e, same) =
      and_then-loaded (checks_of doc.checks) (λ checks. loaded (checks, profile))
        (c.allowed_checks, c.verification_profile) rest in
    let same_checks : checks ≡ c.allowed_checks = ground (arith, same) in
    let same_profile : profile ≡ c.verification_profile = ground (arith, same) in
    let found = checks_of-From doc.checks c.allowed_checks (checks_e ∙ ap loaded same_checks) in
    record {
      checks = found.0;
      checks_some = found.1;
      profile =
          read_profile-From doc.verification_profile c.verification_profile
            (profile_e ∙ ap loaded same_profile);
    }
