-- ===== src/Loader/Paths.antt =====
-- The tests on paths of src/projects/load-project-contract.ts, on code units.
use mathlib.Core.List.{reverse}
use claude_powerplant.Prelude.{
  ℕ, String, Bool, false, not, ◌&&◌, ◌||◌, Option, none, some, List, [], ◌∷◌, ◌++◌, any, eqb,
  length, if◌then◌else◌,
}
use claude_powerplant.Text.{units, includes, is_prefix, is_line_end, lower_all}
use claude_powerplant.Ingest.Schema.{drop_prefix}
use claude_powerplant.Loader.{
  PathFault, empty_path, absolute, traversal, null_byte, unsafe, forbidden_read, Loading, failed,
  loaded, check,
}

abbrev pub ends_with : List ℕ → List ℕ → Bool
ends_with s p = is_prefix (reverse p) (reverse s)

-- `.*p`: does `p` come on the same line?
abbrev later_on_line : List ℕ → List ℕ → Bool
later_on_line p [] = is_prefix p []
later_on_line p (c ∷ s) = is_prefix p (c ∷ s) || (not (is_line_end c) && later_on_line p s)

abbrev then_on_line : List ℕ → List ℕ → List ℕ → Bool
then_on_line p q s = elim (drop_prefix p s) [ none ↦ false | some rest ↦ later_on_line q rest ]

-- `/p.*q/.test(s)`
abbrev pub one_then_other : List ℕ → List ℕ → List ℕ → Bool
one_then_other p q [] = then_on_line p q []
one_then_other p q (c ∷ s) = then_on_line p q (c ∷ s) || one_then_other p q s

-- `ALWAYS_FORBIDDEN_READ_PATTERNS.some(pattern => pattern.test(p))`
unfoldable pub is_forbidden_read : List ℕ → Bool
is_forbidden_read p =
    ends_with p (units ".env")
    || includes p (units ".env.")
    || one_then_other (units "credentials") (units ".json") p
    || any (λ x. ends_with p (units x)) (".key" ∷ ".pem" ∷ ".pfx" ∷ ".p12" ∷ [])
    || ends_with p (units ".git")
    || includes p (units ".git/")
    || includes p (units "private/")
    || includes p (units "secret/")
    || includes p (units "secrets/")
    || one_then_other (units "steam") (units "upload") (lower_all p)
    || includes (lower_all p) (units "depot_key")

unfoldable pub reject_forbidden_read_path : String → Loading (Unit {0})
reject_forbidden_read_path p = check (not (is_forbidden_read (units p))) (forbidden_read p)

abbrev pub is_rooted : List ℕ → Bool
is_rooted [] = false
is_rooted (c ∷ s) = eqb c b'/'

unfoldable pub path_fault : List ℕ → Option PathFault
path_fault p =
    if eqb (length p) 0
    then some empty_path
    else if is_rooted p
    then some absolute
    else if includes p (b'.' ∷ b'.' ∷ [])
    then some traversal
    else if includes p (0 ∷ [])
    then some null_byte
    else none

unfoldable pub assert_safe_relative_path : List ℕ → String → Loading (Unit {0})
assert_safe_relative_path p context = elim (path_fault p) [
  | none ↦ loaded tt
  | some fault ↦ failed (unsafe context fault)
]

-- How much of `\*\*?\/?\*?` has been read
pub data Star : Type 0 where
  outside one_star two_stars past_slash : Star

abbrev pub glob_mark : List ℕ
glob_mark = b'_' ∷ b'g' ∷ b'l' ∷ b'o' ∷ b'b' ∷ b'_' ∷ []

abbrev pub plain : ℕ → List ℕ → List ℕ → List ℕ
plain c marked kept = if eqb c b'*' then glob_mark ++ marked else c ∷ kept

-- `p.replace(/\*\*?\/?\*?/g, '_glob_')`
unfoldable pub replace_from : Star → List ℕ → List ℕ
replace_from st [] = []
replace_from outside (c ∷ s) = plain c (replace_from one_star s) (replace_from outside s)
replace_from one_star (c ∷ s) =
    let second = replace_from two_stars s in
    let slashed = replace_from past_slash s in
    let kept = c ∷ replace_from outside s in
    if eqb c b'*' then second else if eqb c b'/' then slashed else kept
replace_from two_stars (c ∷ s) =
    let slashed = replace_from past_slash s in
    let over = replace_from outside s in
    if eqb c b'*' then over else if eqb c b'/' then slashed else c ∷ over
replace_from past_slash (c ∷ s) =
    let over = replace_from outside s in if eqb c b'*' then over else c ∷ over

unfoldable pub replace_globs : String → List ℕ
replace_globs p = replace_from outside (units p)
