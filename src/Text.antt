-- ===== src/Text.antt =====
-- JavaScript strings as the program walks them: sequences of UTF-16 code units, with the string
-- methods and the forms of regular expression that its modules use.
use Prim.Native.Char.{code}
use mathlib.Core.List.{reverse}
use Prim.Native.Nat.{◌/◌, ◌%◌}
use claude_powerplant.Prelude.{
  ℕ, zero, suc, ◌+◌, ◌-◌, String, Bool, true, false, not, ◌&&◌, ◌||◌, List, [], ◌∷◌, ◌++◌, leb, ltb,
  eqb, if◌then◌else◌,
}

-- A code point as one or two code units.
unfoldable pub unit_pair : ℕ → List ℕ
unit_pair c =
    if ltb c 0x10000
    then c ∷ []
    else (0xd800 + (c - 0x10000) / 1024) ∷ (0xdc00 + (c - 0x10000) % 1024) ∷ []

unfoldable pub units : String → List ℕ
unfolding unit_pair
units String.[] = []
units (String.◌∷◌ c s) = unit_pair (code c) ++ units s

abbrev pub is_prefix : List ℕ → List ℕ → Bool
is_prefix [] s = true
is_prefix (c ∷ p) [] = false
is_prefix (c ∷ p) (d ∷ s) = eqb c d && is_prefix p s

-- `s.includes(p)`
unfoldable pub includes : List ℕ → List ℕ → Bool
includes [] p = is_prefix p []
includes (d ∷ s) p = is_prefix p (d ∷ s) || includes s p

-- `s === t` on code units
unfoldable pub same_units : List ℕ → List ℕ → Bool
same_units [] [] = true
same_units [] (d ∷ t) = false
same_units (c ∷ s) [] = false
same_units (c ∷ s) (d ∷ t) = eqb c d && same_units s t

-- The line terminators of a regular expression: \n, \r, U+2028, U+2029.
unfoldable pub is_line_end : ℕ → Bool
is_line_end c = eqb c 10 || eqb c 13 || eqb c 0x2028 || eqb c 0x2029

unfoldable pub is_letter : ℕ → Bool
is_letter c = (leb b'a' c && leb c b'z') || (leb b'A' c && leb c b'Z')

unfoldable pub is_digit : ℕ → Bool
is_digit c = leb b'0' c && leb c b'9'

-- `\w`
unfoldable pub is_word : ℕ → Bool
unfolding is_letter is_digit
is_word c = is_letter c || is_digit c || eqb c b'_'

-- ASCII letters without their case, as the flag `i` compares an ASCII pattern.
unfoldable pub lower : ℕ → ℕ
lower c = if leb b'A' c && leb c b'Z' then c + 32 else c

unfoldable pub lower_all : List ℕ → List ℕ
unfolding lower
lower_all [] = []
lower_all (c ∷ s) = lower c ∷ lower_all s

-- `s.split('\n')`
unfoldable pub split_lines_from : List ℕ → List ℕ → List (List ℕ)
split_lines_from line [] = line ∷ []
split_lines_from line (c ∷ s) =
    let cut = line ∷ split_lines_from [] s in
    let longer = split_lines_from (line ++ c ∷ []) s in if eqb c 10 then cut else longer

unfoldable pub split_lines : List ℕ → List (List ℕ)
unfolding split_lines_from
split_lines s = split_lines_from [] s

-- Does `p` stand at the start of a text, with no word character behind it?
abbrev pub word_prefix : List ℕ → List ℕ → Bool
word_prefix [] [] = true
word_prefix [] (d ∷ s) = not (is_word d)
word_prefix (c ∷ p) [] = false
word_prefix (c ∷ p) (d ∷ s) = eqb c d && word_prefix p s

includes_word_from : Bool → List ℕ → List ℕ → Bool
includes_word_from after_word [] p = false
includes_word_from after_word (d ∷ s) p =
    (not after_word && word_prefix p (d ∷ s)) || includes_word_from (is_word d) s p

-- `/\bp\b/.test(s)`, for a `p` that begins and ends with word characters.
unfoldable pub includes_word : List ℕ → List ℕ → Bool
unfolding includes_word_from is_word
includes_word s p = includes_word_from false s p

-- Is one text before another, by code units?
abbrev before_units : List ℕ → List ℕ → Bool
before_units [] t = true
before_units (c ∷ s) [] = false
before_units (c ∷ s) (d ∷ t) = ltb c d || (eqb c d && before_units s t)

insert_text : String → List String → List String
insert_text s [] = s ∷ []
insert_text s (t ∷ ts) =
    if before_units (units s) (units t) then s ∷ t ∷ ts else t ∷ insert_text s ts

-- `Array.prototype.sort` on texts
unfoldable pub sort_texts : List String → List String
unfolding insert_text units
sort_texts [] = []
sort_texts (s ∷ ts) = insert_text s (sort_texts ts)

-- White space and line terminators, as `trim` takes them.
unfoldable pub is_space : ℕ → Bool
is_space c =
    (leb 9 c && leb c 13)
    || eqb c 32
    || eqb c 0xa0
    || eqb c 0x1680
    || (leb 0x2000 c && leb c 0x200a)
    || eqb c 0x2028
    || eqb c 0x2029
    || eqb c 0x202f
    || eqb c 0x205f
    || eqb c 0x3000
    || eqb c 0xfeff

unfoldable pub trim_start : List ℕ → List ℕ
trim_start [] = []
trim_start (c ∷ s) = let rest = trim_start s in if is_space c then rest else c ∷ s

-- `s.trim()`
unfoldable pub trim : List ℕ → List ℕ
unfolding trim_start is_space
trim s = reverse (trim_start (reverse (trim_start s)))

-- `s.trimEnd()`
unfoldable pub trim_end : List ℕ → List ℕ
unfolding trim_start is_space
trim_end s = reverse (trim_start (reverse s))

-- The decimal digits of a number, on fuel that each division uses one of.
decimal_from : ℕ → ℕ → List ℕ → List ℕ
decimal_from zero n rest = rest
decimal_from (suc fuel) n rest =
    let digit = (b'0' + n % 10) ∷ rest in
    let higher = decimal_from fuel (n / 10) digit in if ltb n 10 then digit else higher

-- `String(n)`
unfoldable pub decimal : ℕ → List ℕ
unfolding decimal_from
decimal n = decimal_from (suc n) n []
