-- ===== src/Glob/Meaning.antt =====
-- What a pattern of `matchesGlob` (src/projects/build-sanitized-workspace.ts) says, read off its text,
-- and that the loop and the expression that it writes decide it.
use mathlib.Core.Path.{subst}
use claude_powerplant.Prelude.{
  ℕ, ◌≡◌, refl, sym, ap, ◌∙◌, ◌↔◌, inl, inr, true, false, List, [], ◌∷◌, ◌++◌, arith, eqb, eqb_iff,
  All, Bool-cases,
}
use claude_powerplant.Glob.{
  Piece, lit, many_dirs, many_any, many_segment, slash, star, dot, not_slash, match, tokenize,
  normalize, matches_units,
}
use claude_powerplant.Glob.Language.{IsName, dir_text, Denotes, match_iff}
use claude_powerplant.Glob.Tokens.{
  starts, NoQuestion, pieces, compiled, pieces-below, pieces-across, pieces-within, pieces-itself,
}

-- The texts that a pattern accepts: `**/` stands for any directories, `**` for any text on one line,
-- `*` for any text without a slash, and every other character for itself.
pub data Accepts : List ℕ → List ℕ → Type 0 where
  whole : Accepts [] []
  below :
      {p s : List ℕ} (gs : List (List ℕ)) (v : List ℕ)
      → s ≡ dir_text gs ++ v
      → All IsName gs
      → Accepts p v
      → Accepts (star ∷ star ∷ slash ∷ p) s
  across :
      {p s : List ℕ} (u v : List ℕ)
      → s ≡ u ++ v
      → All (λ c. dot c ≡ true) u
      → starts slash p ≡ false
      → Accepts p v
      → Accepts (star ∷ star ∷ p) s
  within :
      {p s : List ℕ} (u v : List ℕ)
      → s ≡ u ++ v
      → All (λ c. not_slash c ≡ true) u
      → starts star p ≡ false
      → Accepts p v
      → Accepts (star ∷ p) s
  itself : {p v : List ℕ} (c : ℕ) → eqb c star ≡ false → Accepts p v → Accepts (c ∷ p) (c ∷ v)

-- The first piece of a match, and what is left of it
first_piece :
    (a : Piece) (ps : List Piece) (s : List ℕ)
    → match (a ∷ ps) s ≡ true
    → (u : List ℕ) × (v : List ℕ) × (s ≡ u ++ v) × Denotes a u × (match ps v ≡ true)
first_piece a ps s m =
    let (u, v, e, d, l) = (match_iff (a ∷ ps) s).0 m in (u, v, e, d, (match_iff ps v).1 l)

with_piece :
    (a : Piece) (ps : List Piece) (s u v : List ℕ)
    → s ≡ u ++ v
    → Denotes a u
    → match ps v ≡ true
    → match (a ∷ ps) s ≡ true
with_piece a ps s u v e d m = (match_iff (a ∷ ps) s).1 (u, v, e, d, (match_iff ps v).0 m)

-- What is known of the rest of a pattern
abbrev Reads : List ℕ → Type 0
Reads p = (v : List ℕ) → match (pieces p) v ≡ true → Accepts p v

read-itself :
    (c : ℕ) (p : List ℕ) → eqb c star ≡ false → eqb c b'?' ≡ false → Reads p → Reads (c ∷ p)
read-itself c p other plain rest s m =
    let (u, v, e, d, m') =
      first_piece (lit c) (pieces p) s (rw (pieces-itself c p other plain) at m) in
    subst (Accepts (c ∷ p)) (sym (e ∙ ap (λ (t : List ℕ). t ++ v) d)) (itself c other (rest v m'))

read-within : (c : ℕ) (p : List ℕ) → c ≡ star → starts star p ≡ false → Reads p → Reads (c ∷ p)
read-within c p first next rest = subst (λ x. Reads (x ∷ p)) (sym first) reads
  where
    reads : Reads (star ∷ p)
    reads s m =
        let (u, v, e, d, m') =
          first_piece many_segment (pieces p) s (rw (pieces-within p next) at m) in
        within u v e d next (rest v m')

read-across :
    (c d : ℕ) (p : List ℕ)
    → c ≡ star
    → d ≡ star
    → starts slash p ≡ false
    → Reads p
    → Reads (c ∷ d ∷ p)
read-across c d p first second next rest =
    subst (λ x. Reads (x ∷ d ∷ p)) (sym first)
      (subst (λ x. Reads (star ∷ x ∷ p)) (sym second) reads)
  where
    reads : Reads (star ∷ star ∷ p)
    reads s m =
        let (u, v, e, dots, m') =
          first_piece many_any (pieces p) s (rw (pieces-across p next) at m) in
        across u v e dots next (rest v m')

read-below :
    (c d e : ℕ) (p : List ℕ) → c ≡ star → d ≡ star → e ≡ slash → Reads p → Reads (c ∷ d ∷ e ∷ p)
read-below c d e p first second third rest =
    subst (λ x. Reads (x ∷ d ∷ e ∷ p)) (sym first)
      (subst (λ x. Reads (star ∷ x ∷ e ∷ p)) (sym second)
        (subst (λ x. Reads (star ∷ star ∷ x ∷ p)) (sym third) reads))
  where
    reads : Reads (star ∷ star ∷ slash ∷ p)
    reads s m =
        let (u, v, q, (gs, names, shape), m') =
          first_piece many_dirs (pieces p) s (rw (pieces-below p) at m) in
        below gs v (q ∙ ap (λ (t : List ℕ). t ++ v) shape) names (rest v m')

same : (c d : ℕ) → eqb c d ≡ true → c ≡ d
same c d e = ground (arith, eqb_iff c d)

match-Accepts : (p : List ℕ) → NoQuestion p → Reads p
unfolding pieces tokenize
match-Accepts [] n = λ s m. let empty = (match_iff [] s).0 m in subst (Accepts []) (sym empty) whole
match-Accepts (c ∷ []) n = elim (Bool-cases (eqb c star)) [
  | inl first ↦ read-within c [] (same c star first) refl (match-Accepts [] tt)
  | inr other ↦ read-itself c [] other n.0 (match-Accepts [] tt)
]
match-Accepts (c ∷ d ∷ []) n = elim (Bool-cases (eqb c star)) [
  | inr other ↦ read-itself c (d ∷ []) other n.0 (match-Accepts (d ∷ []) n.1)
  | inl first ↦ elim (Bool-cases (eqb d star)) [
    | inr other ↦ read-within c (d ∷ []) (same c star first) other (match-Accepts (d ∷ []) n.1)
    | inl second ↦
        read-across c d [] (same c star first) (same d star second) refl (match-Accepts [] tt)
  ]
]
match-Accepts (c ∷ d ∷ e ∷ p) n = elim (Bool-cases (eqb c star)) [
  | inr other ↦ read-itself c (d ∷ e ∷ p) other n.0 (match-Accepts (d ∷ e ∷ p) n.1)
  | inl first ↦ elim (Bool-cases (eqb d star)) [
    | inr other ↦
        read-within c (d ∷ e ∷ p) (same c star first) other (match-Accepts (d ∷ e ∷ p) n.1)
    | inl second ↦ elim (Bool-cases (eqb e slash)) [
      | inl third ↦
          read-below c d e p (same c star first) (same d star second) (same e slash third)
            (match-Accepts p n.1.1.1)
      | inr other ↦
          read-across c d (e ∷ p) (same c star first) (same d star second) other
            (match-Accepts (e ∷ p) n.1.1)
    ]
  ]
]

Accepts-match : {p s : List ℕ} → Accepts p s → NoQuestion p → match (pieces p) s ≡ true
Accepts-match whole n = unfold pieces tokenize match in refl
Accepts-match {s = s} (below {p} gs v e names a) n = rw (pieces-below p) (
    with_piece many_dirs (pieces p) s (dir_text gs) v e (gs, names, refl) (Accepts-match a n.1.1.1))
Accepts-match {s = s} (across {p} u v e dots next a) n =
    rw (pieces-across p next) (with_piece many_any (pieces p) s u v e dots (Accepts-match a n.1.1))
Accepts-match {s = s} (within {p} u v e plain next a) n =
    rw (pieces-within p next)
      (with_piece many_segment (pieces p) s u v e plain (Accepts-match a n.1))
Accepts-match (itself {p} {v} c other a) n =
    rw (pieces-itself c p other n.0)
      (with_piece (lit c) (pieces p) (c ∷ v) (c ∷ []) v refl refl (Accepts-match a n.1))

-- For a pattern without `?`, a path is accepted exactly if its text, with backslashes read as slashes,
-- is made of texts that the parts of the pattern stand for, from left to right: `**/` for any
-- directories, else `**` for any text on one line, else `*` for any text without a slash, and every
-- other character for itself.
pub matches_units_iff :
    (path pattern : List ℕ)
    → NoQuestion pattern
    → (matches_units path pattern ≡ true) ↔ Accepts pattern (normalize path)
matches_units_iff path pattern n = (
  (λ h. match-Accepts pattern n (normalize path) (sym (compiled path pattern n) ∙ h)),
  (λ a. compiled path pattern n ∙ Accepts-match a n),
)
