-- ===== src/Artifact/Tests.antt =====
-- The guard of src/projects/detect-artifact-corruption.ts at inputs that meet the hypotheses of
-- its properties.
use claude_powerplant.Prelude.{ℕ, suc, ◌≡◌, refl, true, List, [], ◌∷◌, ◌++◌, is_some, arith, zero}
use claude_powerplant.Artifact.{has_extension, count, detect_artifact_corruption}
use claude_powerplant.Artifact.Laws.{collapse, detect-collapse}

-- n lines of 60 letters
abbrev letters : ℕ → List ℕ
letters zero = []
letters (suc n) = b'x' ∷ letters n

abbrev lines : ℕ → List ℕ
lines zero = []
lines (suc n) = letters 40 ++ (10 ∷ lines n)

abbrev a_ts : List ℕ
a_ts = b'a' ∷ b'.' ∷ b't' ∷ b's' ∷ []

abbrev a_bin : List ℕ
a_bin = b'a' ∷ b'.' ∷ b'b' ∷ []

detect-collapse_example : is_some (detect_artifact_corruption a_ts (collapse (lines 6))) ≡ true
detect-collapse_example =
    detect-collapse a_ts (lines 6) (unfold has_extension in refl) (unfold count in omega arith)
      (omega arith)
