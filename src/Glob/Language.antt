-- ===== src/Glob/Language.antt =====
-- What a pattern of `matchesGlob` (src/projects/build-sanitized-workspace.ts) means, as a language
-- of texts, and that the search decides it.
use mathlib.Core.List.{append_assoc}
use mathlib.Core.Path.{subst}
use claude_powerplant.Prelude.{
  ℕ, ◌≡◌, refl, sym, ap, ◌↔◌, ◌⊎◌, inl, inr, Bool, true, false, List, [], ◌∷◌, ◌++◌, arith, All,
  Bool-cases,
}
use claude_powerplant.Glob.{
  Piece, lit, optional, many_dirs, many_any, many_segment, slash, run, segments, not_slash, dot,
  one, match,
}

-- A directory name: some characters, none of them a slash.
pub record IsName (g : List ℕ) : Type 0 where
  pub first : ℕ
  pub others : List ℕ
  pub shape : g ≡ first ∷ others
  pub plain : All (λ c. not_slash c ≡ true) g

-- The names with a slash after each.
abbrev pub dir_text : List (List ℕ) → List ℕ
dir_text [] = []
dir_text (g ∷ gs) = g ++ (slash ∷ dir_text gs)

abbrev pub Denotes : Piece → List ℕ → Type 0
Denotes (lit c) u = u ≡ c ∷ []
Denotes (optional c) u = (u ≡ c ∷ []) ⊎ (u ≡ [])
Denotes many_dirs u = (gs : List (List ℕ)) × All IsName gs × (u ≡ dir_text gs)
Denotes many_any u = All (λ c. dot c ≡ true) u
Denotes many_segment u = All (λ c. not_slash c ≡ true) u

-- The texts of a sequence of pieces: their texts one after the other.
abbrev pub Language : List Piece → List ℕ → Type 0
Language [] s = s ≡ []
Language (p ∷ ps) s = (u : List ℕ) × (v : List ℕ) × (s ≡ u ++ v) × Denotes p u × Language ps v

module _ (k : List ℕ → Bool) where
  run_sound :
      (ok : ℕ → Bool) (s : List ℕ)
      → run ok k s ≡ true
      → (u : List ℕ) × (v : List ℕ) × (s ≡ u ++ v) × All (λ c. ok c ≡ true) u × (k v ≡ true)
  unfolding run
  run_sound ok [] h = ([], [], refl, tt, h)
  run_sound ok (c ∷ s) h = elim (Bool-cases (k (c ∷ s))) [
    | inl stop ↦ ([], c ∷ s, refl, tt, stop)
    | inr on ↦
        let (u, v, e, all_ok, kv) = run_sound ok s (ground arith) in
        (c ∷ u, v, ap (λ (t : List ℕ). c ∷ t) e, (ground arith, all_ok), kv)
  ]

  run_complete :
      (ok : ℕ → Bool) (u v : List ℕ)
      → All (λ c. ok c ≡ true) u
      → k v ≡ true
      → run ok k (u ++ v) ≡ true
  unfolding run
  run_complete ok [] [] a h = h
  run_complete ok [] (c ∷ v) a h = ground arith
  run_complete ok (c ∷ u) v a h = ground (arith, run_complete ok u v a.1 h)

  -- What `segments` has before it at the start of a name, and inside of one.
  abbrev Outside : List ℕ → Type 0
  Outside s =
      (gs : List (List ℕ)) × (v : List ℕ) × All IsName gs × (s ≡ dir_text gs ++ v) × (k v ≡ true)

  abbrev Inside : List ℕ → Type 0
  Inside s =
      (g : List ℕ) × (r : List ℕ) × All (λ c. not_slash c ≡ true) g
      × (s ≡ g ++ (slash ∷ r))
      × Outside r

  abbrev Reading : Bool → List ℕ → Type 0
  Reading false s = Outside s
  Reading true s = Inside s

  Inside-cons : (c : ℕ) (s : List ℕ) → not_slash c ≡ true → Inside s → Inside (c ∷ s)
  Inside-cons c s p (g, r, plain, e, out) =
      (c ∷ g, r, (p, plain), ap (λ (t : List ℕ). c ∷ t) e, out)

  Outside-Inside : (c : ℕ) (s : List ℕ) → not_slash c ≡ true → Inside s → Outside (c ∷ s)
  Outside-Inside c s p (g, r, plain, e, (gs, v, names, er, kv)) = (
    (c ∷ g) ∷ gs,
    v,
    (record { first = c; others = g; shape = refl; plain = (p, plain) }, names),
    (rw (e, er) (sym (append_assoc (c ∷ g) (slash ∷ dir_text gs) v))),
    kv,
  )

  segments_sound : (seen : Bool) (s : List ℕ) → segments seen k s ≡ true → Reading seen s
  unfolding segments
  segments_sound false [] h = ([], [], tt, refl, h)
  segments_sound true [] h = cc
  segments_sound false (c ∷ s) h = elim (Bool-cases (k (c ∷ s))) [
    | inl stop ↦ ([], c ∷ s, tt, refl, stop)
    | inr on ↦
        let p : not_slash c ≡ true = ground arith in
        let inside = segments_sound (not_slash c) s (ground arith) in
        Outside-Inside c s p (rw p at inside)
  ]
  segments_sound true (c ∷ s) h = elim (Bool-cases (not_slash c)) [
    | inl p ↦ let inside = segments_sound (not_slash c) s h in Inside-cons c s p (rw p at inside)
    | inr p ↦
        let outside = segments_sound (not_slash c) s h in
        ([], s, tt, ap (λ (d : ℕ). d ∷ s) (ground arith), rw p at outside)
  ]

  segments_name :
      (g s : List ℕ)
      → All (λ c. not_slash c ≡ true) g
      → segments false k s ≡ true
      → segments true k (g ++ (slash ∷ s)) ≡ true
  unfolding segments
  segments_name [] s a h = h
  segments_name (c ∷ g) s a h = rw a.0 (segments_name g s a.1 h)

  segments_enter :
      (c : ℕ) (s : List ℕ)
      → not_slash c ≡ true
      → segments true k s ≡ true
      → segments false k (c ∷ s) ≡ true
  unfolding segments
  segments_enter c s p h = rw p (ground arith)

  segments_complete :
      (gs : List (List ℕ)) (v : List ℕ)
      → All IsName gs
      → k v ≡ true
      → segments false k (dir_text gs ++ v) ≡ true
  unfolding segments
  segments_complete [] [] a h = h
  segments_complete [] (c ∷ v) a h = ground arith
  segments_complete ([] ∷ gs) v a h = cc (a.0.shape)
  segments_complete ((c ∷ g) ∷ gs) v a h =
      let after = segments_name g (dir_text gs ++ v) a.0.plain.1 (segments_complete gs v a.1 h) in
      subst (λ t. segments false k t ≡ true) (sym (append_assoc (c ∷ g) (slash ∷ dir_text gs) v))
        (segments_enter c (g ++ (slash ∷ (dir_text gs ++ v))) a.0.plain.0 after)

match_sound : (ps : List Piece) (s : List ℕ) → match ps s ≡ true → Language ps s
unfolding match one
match_sound [] [] h = refl
match_sound [] (_ ∷ _) h = cc
match_sound (lit c ∷ ps) [] h = cc
match_sound (lit c ∷ ps) (d ∷ s) h =
    (c ∷ [], s, ap (λ (x : ℕ). x ∷ s) (ground arith), refl, match_sound ps s (ground arith))
match_sound (optional c ∷ ps) [] h = ([], [], refl, inr refl, match_sound ps [] h)
match_sound (optional c ∷ ps) (d ∷ s) h = elim (Bool-cases (match ps (d ∷ s))) [
  | inl skip ↦ ([], d ∷ s, refl, inr refl, match_sound ps (d ∷ s) skip)
  | inr take ↦
      (c ∷ [], s, ap (λ (x : ℕ). x ∷ s) (ground arith), inl refl, match_sound ps s (ground arith))
]
match_sound (many_dirs ∷ ps) s h =
    let (gs, v, names, e, m) = segments_sound (match ps) false s h in
    (dir_text gs, v, e, (gs, names, refl), match_sound ps v m)
match_sound (many_any ∷ ps) s h =
    let (u, v, e, a, m) = run_sound (match ps) dot s h in (u, v, e, a, match_sound ps v m)
match_sound (many_segment ∷ ps) s h =
    let (u, v, e, a, m) = run_sound (match ps) not_slash s h in (u, v, e, a, match_sound ps v m)

match_piece :
    (p : Piece) (ps : List Piece) (u v : List ℕ)
    → Denotes p u
    → match ps v ≡ true
    → match (p ∷ ps) (u ++ v) ≡ true
unfolding match one
match_piece (lit c) ps u v d m = rw d (ground arith)
match_piece (optional c) ps u v (inl d) m = rw d (ground arith)
match_piece (optional c) ps u v (inr d) m = rw d (ground arith)
match_piece many_dirs ps u v (gs, names, e) m = rw e (segments_complete (match ps) gs v names m)
match_piece many_any ps u v d m = run_complete (match ps) dot u v d m
match_piece many_segment ps u v d m = run_complete (match ps) not_slash u v d m

match_complete : (ps : List Piece) (s : List ℕ) → Language ps s → match ps s ≡ true
unfolding match
match_complete [] s h = rw h
match_complete (p ∷ ps) s (u, v, e, d, l) = rw e (match_piece p ps u v d (match_complete ps v l))

-- The search of the engine accepts exactly the texts of the pattern's language.
pub match_iff : (ps : List Piece) (s : List ℕ) → (match ps s ≡ true) ↔ Language ps s
match_iff ps s = (match_sound ps s, match_complete ps s)
