-- ===== src/Loader/Globs.antt =====
-- What the replacement of globs by a mark keeps of a path.
use claude_powerplant.Prelude.{
  ℕ, ◌≡◌, refl, ap, ◌∙◌, inl, inr, Bool, true, not, ◌&&◌, List, [], ◌∷◌, eqb, eqb_iff, arith,
  Bool-cases, all,
}
use claude_powerplant.Text.{includes, is_prefix}
use claude_powerplant.Loader.Paths.{Star, outside, one_star, two_stars, past_slash, replace_from}

-- Neither a star nor a slash
abbrev pub is_plain : ℕ → Bool
is_plain c = not (eqb c b'*') && not (eqb c b'/')

-- Such a unit is kept, whatever of a glob has been read.
keeps_plain :
    (st : Star) (c : ℕ) (s : List ℕ)
    → is_plain c ≡ true
    → replace_from st (c ∷ s) ≡ c ∷ replace_from outside s
unfolding replace_from
keeps_plain outside c s e = ground (arith, e)
keeps_plain one_star c s e = ground (arith, e)
keeps_plain two_stars c s e = ground (arith, e)
keeps_plain past_slash c s e = ground (arith, e)

is_prefix-replace :
    (p : List ℕ) (st : Star) (s : List ℕ)
    → all is_plain p ≡ true
    → is_prefix p s ≡ true
    → is_prefix p (replace_from st s) ≡ true
is_prefix-replace [] st s plain e = refl
is_prefix-replace (c ∷ p) st [] plain e = absurd (ground (arith, e))
is_prefix-replace (c ∷ p) st (d ∷ s) plain e =
    let same : d ≡ c = ground (arith, e, eqb_iff c d) in
    let plain_d : is_plain d ≡ true = ap is_plain same ∙ ground (arith, plain) in
    let later : is_prefix p (replace_from outside s) ≡ true =
      is_prefix-replace p outside s (ground (arith, plain)) (ground (arith, e)) in
    ap (is_prefix (c ∷ p)) (keeps_plain st d s plain_d) ∙ ground (arith, e, later)

includes-of_prefix : (p s : List ℕ) → is_prefix p s ≡ true → includes s p ≡ true
unfolding includes
includes-of_prefix p [] e = e
includes-of_prefix p (c ∷ s) e = ground (arith, e)

includes-skip : (c : ℕ) (s p : List ℕ) → includes s p ≡ true → includes (c ∷ s) p ≡ true
unfolding includes
includes-skip c s p e = ground (arith, e)

-- A first unit is dropped, kept, or gives the mark.
includes-step :
    (st : Star) (c : ℕ) (s p : List ℕ)
    → ((st' : Star) → includes (replace_from st' s) p ≡ true)
    → includes (replace_from st (c ∷ s)) p ≡ true
unfolding replace_from includes
includes-step outside c s p later = ground (arith, later outside, later one_star)
includes-step one_star c s p later =
    ground (arith, later outside, later two_stars, later past_slash)
includes-step two_stars c s p later = ground (arith, later outside, later past_slash)
includes-step past_slash c s p later = ground (arith, later outside)

-- A part of a path with no star and no slash in it is still there.
pub includes-replace :
    (st : Star) (s p : List ℕ)
    → all is_plain p ≡ true
    → includes s p ≡ true
    → includes (replace_from st s) p ≡ true
unfolding includes
includes-replace st [] p plain e =
    includes-of_prefix p (replace_from st []) (is_prefix-replace p st [] plain e)
includes-replace st (c ∷ s) p plain e = elim (Bool-cases (is_prefix p (c ∷ s))) [
  | inl here ↦
      includes-of_prefix p (replace_from st (c ∷ s)) (is_prefix-replace p st (c ∷ s) plain here)
  | inr gone ↦
      let later : includes s p ≡ true = ground (arith, e, gone) in
      includes-step st c s p (λ st'. includes-replace st' s p plain later)
]
