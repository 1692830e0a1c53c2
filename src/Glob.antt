-- ===== src/Glob.antt =====
-- The glob matcher of src/projects/build-sanitized-workspace.ts. `matchesGlob` writes a regular
-- expression from the pattern and runs it; here the text of that expression is a list of tokens,
-- and the engine's reading of it (quantifiers, errors) and its search are written out.
pub mod Language
pub mod Patterns
pub mod Tokens
pub mod Meaning
mod Tests
use mathlib.Core.Option
use claude_powerplant.Prelude.{
  ℕ, String, Bool, true, false, not, ◌&&◌, ◌||◌, Option, none, some, List, [], ◌∷◌, zero, suc, any,
  eqb, if◌then◌else◌,
}
use claude_powerplant.Text.{units, same_units, is_line_end}

-- What the loop appends to `regexStr`: an escaped character, `(?:[^/]+/)*`, `.*`, `[^/]*`, or a
-- `?`, which the escaping leaves bare.
pub data Token : Type 0 where
  char : ℕ → Token
  dirs anything segment question : Token

abbrev pub slash : ℕ
slash = b'/'

abbrev pub star : ℕ
star = b'*'

-- A position where no second `*` follows.
pub one_token : ℕ → Token
one_token c = if eqb c star then segment else if eqb c b'?' then question else char c

-- The `while` loop over `pattern`.
pub tokenize : List ℕ → List Token
unfolding one_token
tokenize [] = []
tokenize (c ∷ []) = one_token c ∷ []
tokenize (c ∷ d ∷ []) =
    if eqb c star && eqb d star then anything ∷ [] else one_token c ∷ one_token d ∷ []
tokenize (c ∷ d ∷ e ∷ s) =
    let past_slash = dirs ∷ tokenize s in
    let past_stars = anything ∷ tokenize (e ∷ s) in
    let past_one = one_token c ∷ tokenize (d ∷ e ∷ s) in
    if eqb c star && eqb d star then if eqb e slash then past_slash else past_stars else past_one

-- The expression as the engine reads it.
pub data Piece : Type 0 where
  lit optional : ℕ → Piece
  many_dirs many_any many_segment : Piece

-- Reading the expression. A `?` after a character makes it optional, and one after a quantifier
-- makes that lazy, which changes no match; `room` is how many more `?` the last piece can take.
-- `none` is the error "nothing to repeat" of the constructor `RegExp`.
pub quantify : ℕ → List Token → Option (List Piece)
quantify room [] = some []
quantify zero (question ∷ ts) = none
quantify (suc room) (question ∷ ts) = quantify room ts
quantify room (char c ∷ question ∷ ts) = Option.map (λ ps. optional c ∷ ps) (quantify 1 ts)
quantify room (char c ∷ ts) = Option.map (λ ps. lit c ∷ ps) (quantify 0 ts)
quantify room (dirs ∷ ts) = Option.map (λ ps. many_dirs ∷ ps) (quantify 1 ts)
quantify room (anything ∷ ts) = Option.map (λ ps. many_any ∷ ps) (quantify 1 ts)
quantify room (segment ∷ ts) = Option.map (λ ps. many_segment ∷ ps) (quantify 1 ts)

-- The engine's search, with what is to match afterwards as the continuation `k`.
-- `.*` and `[^/]*`
pub run : (ℕ → Bool) → (List ℕ → Bool) → List ℕ → Bool
run ok k [] = k []
run ok k (c ∷ s) = k (c ∷ s) || (ok c && run ok k s)

abbrev pub not_slash : ℕ → Bool
not_slash c = not (eqb c slash)

-- `(?:[^/]+/)*`; `seen` says that the present segment has a character.
pub segments : Bool → (List ℕ → Bool) → List ℕ → Bool
segments seen k [] = not seen && k []
segments seen k (c ∷ s) =
    (not seen && k (c ∷ s)) || ((seen || not_slash c) && segments (not_slash c) k s)

abbrev pub dot : ℕ → Bool
dot c = not (is_line_end c)

-- One character `c`, then `k`.
pub one : ℕ → (List ℕ → Bool) → List ℕ → Bool
one c k [] = false
one c k (d ∷ s) = eqb c d && k s

-- `^…$`
pub match : List Piece → List ℕ → Bool
unfolding run segments one
match [] [] = true
match [] (_ ∷ _) = false
match (lit c ∷ ps) s = one c (match ps) s
match (optional c ∷ ps) s = one c (match ps) s || match ps s
match (many_dirs ∷ ps) s = segments false (match ps) s
match (many_any ∷ ps) s = run dot (match ps) s
match (many_segment ∷ ps) s = run not_slash (match ps) s

-- `replace(/\\/g, '/')`
pub normalize : List ℕ → List ℕ
normalize [] = []
normalize (c ∷ s) = (if eqb c b'\\' then slash else c) ∷ normalize s

-- The whole on code units; the `catch` branch compares the texts.
pub matches_units : List ℕ → List ℕ → Bool
unfolding tokenize quantify match normalize
matches_units path pattern = elim (quantify 0 (tokenize pattern)) [
  | some ps ↦ match ps (normalize path)
  | none ↦ same_units (normalize path) pattern
]

unfoldable pub matches_glob : String → String → Bool
unfolding units same_units matches_units is_line_end
matches_glob path pattern = matches_units (units path) (units pattern)
