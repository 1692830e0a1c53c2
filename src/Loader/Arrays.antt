-- ===== src/Loader/Arrays.antt =====
-- What holds of the lists of paths that `loadPolicyYaml` of src/projects/load-project-contract.ts accepts.
use claude_powerplant.Prelude.{
  ℕ, ◌≡◌, ◌≢◌, refl, ap, ◌∙◌, ◌↔◌, inl, inr, ◌⊎◌, String, Bool, true, false, not, none, List, [],
  ◌∷◌, map, eqb, eqb_iff, length, arith, Bool-cases, Option-cases, All,
}
use claude_powerplant.Text.{units, includes}
use claude_powerplant.Contracts.Tools.{is_safe_relative_path}
use claude_powerplant.Loader.{
  Item, Value, ContractError, empty_list, forbidden_read, Loading, failed, loaded, and_then, check,
}
use claude_powerplant.Loader.Paths.{
  is_forbidden_read, reject_forbidden_read_path, is_rooted, path_fault, assert_safe_relative_path,
  outside, replace_from, replace_globs,
}
use claude_powerplant.Loader.Policy.{
  texts_of, assert_string_array, optional_array, check_each, check_glob, check_read, listed_paths,
}
use claude_powerplant.Loader.Globs.{includes-replace}

-- What a chain that ends well went through
pub and_then-loaded :
    {A B : Type 0} (m : Loading A) (f : A → Loading B) (b : B)
    → and_then m f ≡ loaded b
    → (a : A) × (m ≡ loaded a) × (f a ≡ loaded b)
unfolding and_then
and_then-loaded (failed e) f b h = absurd (ground (arith, h))
and_then-loaded (loaded a) f b h = (a, refl, h)

-- Six steps that do not depend on each other
pub all_loaded :
    {A B C : Type 0} (m1 : Loading A) (m2 m3 m4 m5 m6 : Loading B) (f : A → B → B → B → B → B → C)
    (c : C)
    → and_then m1 (λ a. and_then m2 (λ b2. and_then m3 (λ b3.
      and_then m4 (λ b4. and_then m5 (λ b5. and_then m6 (λ b6. loaded (f a b2 b3 b4 b5 b6)))))))
      ≡ loaded c
    → (a : A) × (b2 : B) × (b3 : B) × (b4 : B) × (b5 : B) × (b6 : B) × (m1 ≡ loaded a)
      × (m2 ≡ loaded b2)
      × (m3 ≡ loaded b3)
      × (m4 ≡ loaded b4)
      × (m5 ≡ loaded b5)
      × (m6 ≡ loaded b6)
      × (f a b2 b3 b4 b5 b6 ≡ c)
unfolding and_then
all_loaded (failed e) m2 m3 m4 m5 m6 f c h = absurd (ground (arith, h))
all_loaded (loaded a) (failed e) m3 m4 m5 m6 f c h = absurd (ground (arith, h))
all_loaded (loaded a) (loaded b2) (failed e) m4 m5 m6 f c h = absurd (ground (arith, h))
all_loaded (loaded a) (loaded b2) (loaded b3) (failed e) m5 m6 f c h = absurd (ground (arith, h))
all_loaded (loaded a) (loaded b2) (loaded b3) (loaded b4) (failed e) m6 f c h =
    absurd (ground (arith, h))
all_loaded (loaded a) (loaded b2) (loaded b3) (loaded b4) (loaded b5) (failed e) f c h =
    absurd (ground (arith, h))
all_loaded (loaded a) (loaded b2) (loaded b3) (loaded b4) (loaded b5) (loaded b6) f c h =
    (a, b2, b3, b4, b5, b6, refl, refl, refl, refl, refl, refl, ground (arith, h))

pub check-loaded : (ok : Bool) (e : ContractError) (u : Unit) → check ok e ≡ loaded u → ok ≡ true
unfolding check
check-loaded ok e u h = ground (arith, h)

abbrev pub Safe : String → Type 0
Safe p = is_safe_relative_path p ≡ true

abbrev pub Readable : String → Type 0
Readable p = Safe p × (is_forbidden_read (units p) ≡ false)

-- The field is an array of these texts.
abbrev pub Texts : Value → List String → Type 0
Texts v ps = v ≡ Value.array (map Item.text ps)

-- A path without a fault is the safe relative path of the broker.
path_fault-Safe : (p : String) → path_fault (units p) ≡ none → Safe p
unfolding path_fault is_safe_relative_path
path_fault-Safe p e = elim (List-cases (units p)) [
  | inl empty ↦ absurd (ground (arith, e, empty))
  | inr (c, s, split) ↦ ground (arith, e, split)
]
  where
    List-cases : (s : List ℕ) → (s ≡ []) ⊎ ((c : ℕ) × (t : List ℕ) × (s ≡ c ∷ t))
    List-cases [] = inl refl
    List-cases (c ∷ t) = inr (c, t, refl)

faultless_iff :
    (p : List ℕ)
    → (path_fault p ≡ none) ↔ (
        (eqb (length p) 0 ≡ false)
        × (is_rooted p ≡ false)
        × (includes p (b'.' ∷ b'.' ∷ []) ≡ false)
        × (includes p (0 ∷ []) ≡ false))
unfolding path_fault
faultless_iff p = ground arith

rooted_kept :
    (c : ℕ) (s : List ℕ)
    → is_rooted (replace_from outside (c ∷ s)) ≡ false
    → is_rooted (c ∷ s) ≡ false
unfolding replace_from
rooted_kept c s e = elim (Bool-cases (eqb c b'/')) [
  | inl root ↦ absurd (ground (arith, e, root, eqb_iff c b'/', eqb_iff c b'*'))
  | inr other ↦ other
]

-- A path that has a fault has it also where its globs are replaced.
fault_kept : (s : List ℕ) → path_fault (replace_from outside s) ≡ none → path_fault s ≡ none
unfolding replace_from
fault_kept [] e = e
fault_kept (c ∷ s) e =
    let clean = (faultless_iff (replace_from outside (c ∷ s))).0 e in
    let dots = includes-replace outside (c ∷ s) (b'.' ∷ b'.' ∷ []) refl in
    let null = includes-replace outside (c ∷ s) (0 ∷ []) refl in
    (faultless_iff (c ∷ s)).1 (
      ground arith,
      rooted_kept c s clean.1,
      ground (arith, clean.2, dots),
      ground (arith, clean.3, null),
    )

pub checked-Safe :
    (p field : String) (u : Unit) → assert_safe_relative_path (units p) field ≡ loaded u → Safe p
unfolding assert_safe_relative_path
checked-Safe p field u e = elim (Option-cases (path_fault (units p))) [
  | inl well ↦ path_fault-Safe p well
  | inr (fault, bad) ↦ absurd (ground (arith, e, bad))
]

pub check_glob-Safe : (field p : String) (u : Unit) → check_glob field p ≡ loaded u → Safe p
unfolding assert_safe_relative_path replace_globs
check_glob-Safe field p u e = elim (Option-cases (path_fault (replace_from outside (units p)))) [
  | inl well ↦ path_fault-Safe p (fault_kept (units p) well)
  | inr (fault, bad) ↦ absurd (ground (arith, e, bad))
]

pub check_read-Readable : (p : String) (u : Unit) → check_read p ≡ loaded u → Readable p
unfolding reject_forbidden_read_path
check_read-Readable p u e =
    let (v, safe, rest) =
      and_then-loaded (check_glob "allowedReadPaths" p) (λ _. reject_forbidden_read_path p) u e in
    let allowed = check-loaded (not (is_forbidden_read (units p))) (forbidden_read p) u rest in
    (check_glob-Safe "allowedReadPaths" p v safe, ground (arith, allowed))

module _ (P : String → Type 0) (f : String → Loading Unit) where
  check_each-All :
      ((p : String) (u : Unit) → f p ≡ loaded u → P p)
      → (ps : List String) (u : Unit) → check_each f ps ≡ loaded u
      → All P ps
  unfolding check_each
  check_each-All sound [] u e = tt
  check_each-All sound (p ∷ ps) u e =
      let (v, one, rest) = and_then-loaded (f p) (λ _. check_each f ps) u e in
      (sound p v one, check_each-All sound ps u rest)

  checked_list :
      ((p : String) (u : Unit) → f p ≡ loaded u → P p)
      → (ps qs : List String) → and_then (check_each f ps) (λ _. loaded ps) ≡ loaded qs
      → (ps ≡ qs) × All P ps
  checked_list sound ps qs e =
      let (v, each, same) = and_then-loaded (check_each f ps) (λ _. loaded ps) qs e in
      (ground (arith, same), check_each-All sound ps v each)

  pub listed_paths-All :
      (field : String)
      → ((p : String) (u : Unit) → f p ≡ loaded u → P p)
      → (found : Loading (List String)) (qs : List String)
      → listed_paths field true f found ≡ loaded qs
      → (found ≡ loaded qs) × All P qs
  unfolding listed_paths and_then
  listed_paths-All field sound (failed why) qs e = absurd (ground (arith, e))
  listed_paths-All field sound (loaded ps) qs e =
      let (same, each) = checked_list sound ps qs e in (ap loaded same, rw (← same) each)

  pub listed_paths-some :
      (field : String)
      → ((p : String) (u : Unit) → f p ≡ loaded u → P p)
      → (found : Loading (List String)) (qs : List String)
      → listed_paths field false f found ≡ loaded qs
      → (found ≡ loaded qs) × All P qs × (qs ≢ [])
  unfolding listed_paths and_then
  listed_paths-some field sound (failed why) qs e = absurd (ground (arith, e))
  listed_paths-some field sound (loaded []) qs e =
      let (v, filled, rest) =
        and_then-loaded (check (not (eqb 0 0)) (empty_list field))
          (λ _. and_then (check_each f []) (λ _. loaded [])) qs e in
      absurd (ground (arith, check-loaded (not (eqb 0 0)) (empty_list field) v filled))
  listed_paths-some field sound (loaded (p ∷ ps)) qs e =
      let (v, filled, rest) =
        and_then-loaded (check (not (eqb (length (p ∷ ps)) 0)) (empty_list field))
          (λ _. and_then (check_each f (p ∷ ps)) (λ _. loaded (p ∷ ps))) qs e in
      let (same, each) = checked_list sound (p ∷ ps) qs rest in
      (ap loaded same, rw (← same) each, (λ empty. ground (arith, same, empty)))

texts_of-Texts :
    (field : String) (is : List Item) (ps : List String)
    → texts_of field is ≡ loaded ps
    → is ≡ map Item.text ps
unfolding texts_of and_then
texts_of-Texts field [] ps e = let same : [] ≡ ps = ground (arith, e) in ap (map Item.text) same
texts_of-Texts field (Item.no_text ∷ is) ps e = absurd (ground (arith, e))
texts_of-Texts field (Item.text s ∷ is) ps e =
    let (ss, rest, whole) = and_then-loaded (texts_of field is) (λ ss. loaded (s ∷ ss)) ps e in
    let same : s ∷ ss ≡ ps = ground (arith, whole) in
    ap (λ is. Item.text s ∷ is) (texts_of-Texts field is ss rest) ∙ ap (map Item.text) same

pub string_array-Texts :
    (v : Value) (field : String) (ps : List String)
    → assert_string_array v field ≡ loaded ps
    → Texts v ps
unfolding assert_string_array
string_array-Texts Value.undefined field ps e = absurd (ground (arith, e))
string_array-Texts Value.null_value field ps e = absurd (ground (arith, e))
string_array-Texts Value.scalar field ps e = absurd (ground (arith, e))
string_array-Texts Value.date field ps e = absurd (ground (arith, e))
string_array-Texts (Value.text s) field ps e = absurd (ground (arith, e))
string_array-Texts (Value.mapping m) field ps e = absurd (ground (arith, e))
string_array-Texts (Value.array is) field ps e = ap Value.array (texts_of-Texts field is ps e)

-- A field that may be left out, and then stands for no texts
abbrev pub OptionalTexts : Value → List String → Type 0
OptionalTexts v ps = ((v ≡ Value.undefined) × (ps ≡ [])) ⊎ Texts v ps

pub optional_array-Texts :
    (v : Value) (field : String) (ps : List String)
    → optional_array v field ≡ loaded ps
    → OptionalTexts v ps
unfolding optional_array
optional_array-Texts Value.undefined field ps e = inl (refl, ground (arith, e))
optional_array-Texts Value.null_value field ps e =
    inr (string_array-Texts Value.null_value field ps e)
optional_array-Texts Value.scalar field ps e = inr (string_array-Texts Value.scalar field ps e)
optional_array-Texts Value.date field ps e = inr (string_array-Texts Value.date field ps e)
optional_array-Texts (Value.text s) field ps e = inr (string_array-Texts (Value.text s) field ps e)
optional_array-Texts (Value.mapping m) field ps e =
    inr (string_array-Texts (Value.mapping m) field ps e)
optional_array-Texts (Value.array is) field ps e =
    inr (string_array-Texts (Value.array is) field ps e)
