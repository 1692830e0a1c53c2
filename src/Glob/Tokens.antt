-- ===== src/Glob/Tokens.antt =====
-- The expression that `matchesGlob` (src/projects/build-sanitized-workspace.ts) writes for a pattern
-- without `?`, piece by piece.
use claude_powerplant.Prelude.{
  ℕ, ◌≡◌, refl, ap, inl, inr, Bool, true, false, some, List, [], ◌∷◌, map, arith, eqb, All,
  Bool-cases,
}
use claude_powerplant.Glob.{
  Token, char, dirs, anything, segment, question, Piece, lit, optional, many_dirs, many_any,
  many_segment, slash, star, match, one_token, tokenize, quantify, normalize, matches_units,
}
use claude_powerplant.Glob.Patterns.{tokenize-ordinary, matches_units_compiled}

-- Does a pattern begin with `c`?
abbrev pub starts : ℕ → List ℕ → Bool
starts c [] = false
starts c (d ∷ p) = eqb d c

abbrev pub NoQuestion : List ℕ → Type 0
NoQuestion = All (λ c. eqb c b'?' ≡ false)

unfoldable pub piece_of : Token → Piece
piece_of (char c) = lit c
piece_of dirs = many_dirs
piece_of anything = many_any
piece_of segment = many_segment
piece_of question = optional 0

unfoldable pub pieces : List ℕ → List Piece
pieces p = map piece_of (tokenize p)

is_question : Token → Bool
is_question question = true
is_question (char _) = false
is_question dirs = false
is_question anything = false
is_question segment = false

quantify-plain :
    (room : ℕ) (ts : List Token)
    → All (λ t. is_question t ≡ false) ts
    → quantify room ts ≡ some (map piece_of ts)
unfolding quantify piece_of is_question
quantify-plain room [] a = refl
quantify-plain room (question ∷ ts) a = absurd (cc (a.0))
quantify-plain room (char c ∷ []) a = refl
quantify-plain room (char c ∷ question ∷ ts) a = absurd (cc (a.1.0))
quantify-plain room (char c ∷ char d ∷ ts) a = rw (quantify-plain 0 (char d ∷ ts) a.1) refl
quantify-plain room (char c ∷ dirs ∷ ts) a = rw (quantify-plain 0 (dirs ∷ ts) a.1) refl
quantify-plain room (char c ∷ anything ∷ ts) a = rw (quantify-plain 0 (anything ∷ ts) a.1) refl
quantify-plain room (char c ∷ segment ∷ ts) a = rw (quantify-plain 0 (segment ∷ ts) a.1) refl
quantify-plain room (dirs ∷ ts) a = rw (quantify-plain 1 ts a.1) refl
quantify-plain room (anything ∷ ts) a = rw (quantify-plain 1 ts a.1) refl
quantify-plain room (segment ∷ ts) a = rw (quantify-plain 1 ts a.1) refl

one_token-plain : (c : ℕ) → eqb c b'?' ≡ false → is_question (one_token c) ≡ false
unfolding one_token is_question
one_token-plain c n = ground (arith, n)

tokenize-plain : (p : List ℕ) → NoQuestion p → All (λ t. is_question t ≡ false) (tokenize p)
unfolding tokenize is_question
tokenize-plain [] n = tt
tokenize-plain (c ∷ []) n = (one_token-plain c n.0, tt)
tokenize-plain (c ∷ d ∷ []) n = elim (Bool-cases (eqb c star)) [
  | inr other ↦ rw (other, n.0) (refl, (one_token-plain d n.1.0, tt))
  | inl first ↦ elim (Bool-cases (eqb d star)) [
    | inr other ↦ rw (first, other, n.1.0) (refl, (refl, tt))
    | inl second ↦ rw (first, second) (refl, tt)
  ]
]
tokenize-plain (c ∷ d ∷ e ∷ p) n = elim (Bool-cases (eqb c star)) [
  | inr other ↦ rw (other, n.0) (refl, tokenize-plain (d ∷ e ∷ p) n.1)
  | inl first ↦ elim (Bool-cases (eqb d star)) [
    | inr other ↦ rw (first, other) (refl, tokenize-plain (d ∷ e ∷ p) n.1)
    | inl second ↦ elim (Bool-cases (eqb e slash)) [
      | inl third ↦ rw (first, second, third) (refl, tokenize-plain p n.1.1.1)
      | inr other ↦ rw (first, second, other) (refl, tokenize-plain (e ∷ p) n.1.1)
    ]
  ]
]

pub compiled :
    (path p : List ℕ) → NoQuestion p → matches_units path p ≡ match (pieces p) (normalize path)
unfolding pieces
compiled path p n =
    matches_units_compiled path p (pieces p) (quantify-plain 0 (tokenize p) (tokenize-plain p n))

-- The four steps of the loop
pub pieces-below : (p : List ℕ) → pieces (star ∷ star ∷ slash ∷ p) ≡ many_dirs ∷ pieces p
unfolding pieces piece_of tokenize
pieces-below p = refl

pub pieces-across :
    (p : List ℕ) → starts slash p ≡ false → pieces (star ∷ star ∷ p) ≡ many_any ∷ pieces p
unfolding pieces piece_of tokenize
pieces-across [] n = refl
pieces-across (e ∷ p) n = rw n refl

pub pieces-within :
    (p : List ℕ) → starts star p ≡ false → pieces (star ∷ p) ≡ many_segment ∷ pieces p
unfolding pieces piece_of tokenize one_token
pieces-within [] n = refl
pieces-within (d ∷ []) n = rw n refl
pieces-within (d ∷ e ∷ p) n = rw n refl

pub pieces-itself :
    (c : ℕ) (p : List ℕ)
    → eqb c star ≡ false
    → eqb c b'?' ≡ false
    → pieces (c ∷ p) ≡ lit c ∷ pieces p
unfolding pieces piece_of
pieces-itself c p other plain =
    ap (map piece_of) (tokenize-ordinary c (ground (arith, other, plain)) p)
