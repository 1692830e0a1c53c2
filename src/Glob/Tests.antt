-- ===== src/Glob/Tests.antt =====
-- The matcher of src/projects/build-sanitized-workspace.ts on patterns of policy files, and the
-- properties at inputs that meet their hypotheses.
use claude_powerplant.Prelude.{ℕ, ◌≡◌, refl, ◌↔◌, true, false, List, [], ◌∷◌, ◌++◌, All}
use claude_powerplant.Glob.{slash, star, dot, normalize, matches_units, matches_glob}
use claude_powerplant.Glob.Meaning.{Accepts, matches_units_iff}
use claude_powerplant.Glob.Patterns.{matches_units-tree}

nested_dir : matches_glob "src/a/b.ts" "src/**" ≡ true
unfolding matches_glob
nested_dir = refl

any_depth : matches_glob "b.ts" "**/*.ts" ≡ true
unfolding matches_glob
any_depth = refl

star_stays_in_segment : matches_glob "src/a/b.ts" "src/*.ts" ≡ false
unfolding matches_glob
star_stays_in_segment = refl

-- A bare `?` makes the character before it optional.
question_is_a_quantifier : matches_glob "ac.ts" "ab?c.ts" ≡ true
unfolding matches_glob
question_is_a_quantifier = refl

-- `**/*.ts` on `a/b.ts`
matches_units_iff_example :
    (matches_units
        (b'a' ∷ slash ∷ b'b' ∷ b'.' ∷ b't' ∷ b's' ∷ [])
        (star ∷ star ∷ slash ∷ star ∷ b'.' ∷ b't' ∷ b's' ∷ [])
      ≡ true)
    ↔ Accepts
        (star ∷ star ∷ slash ∷ star ∷ b'.' ∷ b't' ∷ b's' ∷ [])
        (normalize (b'a' ∷ slash ∷ b'b' ∷ b'.' ∷ b't' ∷ b's' ∷ []))
matches_units_iff_example =
    matches_units_iff (b'a' ∷ slash ∷ b'b' ∷ b'.' ∷ b't' ∷ b's' ∷ [])
      (star ∷ star ∷ slash ∷ star ∷ b'.' ∷ b't' ∷ b's' ∷ [])
      (refl, (refl, (refl, (refl, (refl, (refl, (refl, tt)))))))

matches_units-tree_example :
    (matches_units (b'a' ∷ slash ∷ b'b' ∷ []) ((b'a' ∷ []) ++ (slash ∷ star ∷ star ∷ [])) ≡ true)
    ↔ ((r : List ℕ) × (normalize (b'a' ∷ slash ∷ b'b' ∷ []) ≡ (b'a' ∷ []) ++ (slash ∷ r))
        × All (λ c. dot c ≡ true) r)
matches_units-tree_example = matches_units-tree (b'a' ∷ []) (b'a' ∷ slash ∷ b'b' ∷ []) (refl, tt)
