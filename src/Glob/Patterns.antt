-- ===== src/Glob/Patterns.antt =====
-- What the commonest patterns of `matchesGlob` (src/projects/build-sanitized-workspace.ts) accept:
-- a text with no `*` and no `?`, and such a directory with `/**` behind it.
use mathlib.Core.List.{append_assoc, append-nil}
use mathlib.Core.Path.{ap₂, subst}
use claude_powerplant.Prelude.{
  ℕ, ◌≡◌, refl, sym, ap, ◌∙◌, ◌↔◌, Bool, true, not, ◌&&◌, some, List, [], ◌∷◌, ◌++◌, map, arith,
  eqb, All,
}
use claude_powerplant.Glob.{
  Token, char, anything, Piece, lit, many_any, slash, star, dot, one, match, one_token, tokenize,
  quantify, normalize, matches_units,
}
use claude_powerplant.Glob.Language.{match_iff}

-- Neither `*` nor `?`.
abbrev pub ordinary : ℕ → Bool
ordinary c = not (eqb c star) && not (eqb c b'?')

module _ (c : ℕ) (p : ordinary c ≡ true) where
  one_token-ordinary : one_token c ≡ char c
  unfolding one_token
  one_token-ordinary = ground arith

  pub tokenize-ordinary : (s : List ℕ) → tokenize (c ∷ s) ≡ char c ∷ tokenize s
  unfolding tokenize one_token
  tokenize-ordinary [] = ap (λ (t : Token). t ∷ []) one_token-ordinary
  tokenize-ordinary (d ∷ []) = ground (arith, one_token-ordinary)
  tokenize-ordinary (d ∷ e ∷ s) = ground (arith, one_token-ordinary)

abbrev pub AllOrdinary : List ℕ → Type 0
AllOrdinary = All (λ c. ordinary c ≡ true)

tokenize_text :
    (d rest : List ℕ) → AllOrdinary d → tokenize (d ++ rest) ≡ map char d ++ tokenize rest
tokenize_text [] rest a = refl
tokenize_text (c ∷ d) rest a =
    tokenize-ordinary c a.0 (d ++ rest)
    ∙ ap (λ (t : List Token). char c ∷ t) (tokenize_text d rest a.1)

quantify_exact : (d : List ℕ) (room : ℕ) → quantify room (map char d) ≡ some (map lit d)
unfolding quantify
quantify_exact [] room = refl
quantify_exact (c ∷ []) room = refl
quantify_exact (c ∷ e ∷ d) room = rw (quantify_exact (e ∷ d) 0)

quantify_tree :
    (d : List ℕ) (room : ℕ)
    → quantify room (map char d ++ anything ∷ []) ≡ some (map lit d ++ many_any ∷ [])
unfolding quantify
quantify_tree [] room = refl
quantify_tree (c ∷ []) room = refl
quantify_tree (c ∷ e ∷ d) room = rw (quantify_tree (e ∷ d) 0)

module _ (ps : List Piece) where
  match_text_sound :
      (d s : List ℕ)
      → match (map lit d ++ ps) s ≡ true
      → (r : List ℕ) × (s ≡ d ++ r) × (match ps r ≡ true)
  unfolding match one
  match_text_sound [] s h = (s, refl, h)
  match_text_sound (c ∷ d) [] h = cc
  match_text_sound (c ∷ d) (e ∷ s) h =
      let (r, q, m) = match_text_sound d s (ground arith) in
      (r, ap₂ (λ (x : ℕ) (t : List ℕ). x ∷ t) (ground arith) q, m)

  match_text_complete : (d r : List ℕ) → match ps r ≡ true → match (map lit d ++ ps) (d ++ r) ≡ true
  unfolding match one
  match_text_complete [] r h = h
  match_text_complete (c ∷ d) r h = ground (arith, match_text_complete d r h)

compile_exact : (d : List ℕ) → AllOrdinary d → quantify 0 (tokenize d) ≡ some (map lit d)
unfolding tokenize
compile_exact d a =
    ap (λ (t : List ℕ). quantify 0 (tokenize t)) (sym (append-nil d))
    ∙ ap (λ (t : List Token). quantify 0 t) (tokenize_text d [] a ∙ append-nil (map char d))
    ∙ quantify_exact d 0

compile_tree :
    (d : List ℕ)
    → AllOrdinary d
    → quantify 0 (tokenize (d ++ (star ∷ star ∷ []))) ≡ some (map lit d ++ many_any ∷ [])
unfolding tokenize
compile_tree d a =
    ap (λ (t : List Token). quantify 0 t) (tokenize_text d (star ∷ star ∷ []) a) ∙ quantify_tree d 0

pub matches_units_compiled :
    (path pattern : List ℕ) (ps : List Piece)
    → quantify 0 (tokenize pattern) ≡ some ps
    → matches_units path pattern ≡ match ps (normalize path)
unfolding matches_units
matches_units_compiled path pattern ps e = rw (e, matches_units)

All-concat_ordinary :
    (d : List ℕ) (c : ℕ) → AllOrdinary d → ordinary c ≡ true → AllOrdinary (d ++ c ∷ [])
All-concat_ordinary [] c a p = (p, tt)
All-concat_ordinary (e ∷ d) c a p = (a.0, All-concat_ordinary d c a.1 p)

match_rest_iff : (r : List ℕ) → (match (many_any ∷ []) r ≡ true) ↔ All (λ c. dot c ≡ true) r
match_rest_iff r = (
  (λ m.
      let (u, v, e, dots, empty) = (match_iff (many_any ∷ []) r).0 m in
      subst (All (λ c. dot c ≡ true)) (sym (e ∙ ap (λ (t : List ℕ). u ++ t) empty ∙ append-nil u))
        dots),
  (λ dots. (match_iff (many_any ∷ []) r).1 (r, [], sym (append-nil r), dots, refl)),
)

-- A pattern without `*` and `?` accepts its own text only (with backslashes read as slashes).
matches_units-exact :
    (d path : List ℕ) → AllOrdinary d → (matches_units path d ≡ true) ↔ (normalize path ≡ d)
matches_units-exact d path a = (to, from)
  where
    compiled : matches_units path d ≡ match (map lit d ++ []) (normalize path)
    compiled =
        matches_units_compiled path d (map lit d) (compile_exact d a)
        ∙ ap (λ (ps : List Piece). match ps (normalize path)) (sym (append-nil (map lit d)))

    to : matches_units path d ≡ true → normalize path ≡ d
    to h =
        let (r, e, m) = match_text_sound [] d (normalize path) (sym compiled ∙ h) in
        e ∙ ap (λ (t : List ℕ). d ++ t) ((match_iff [] r).0 m) ∙ append-nil d

    from : normalize path ≡ d → matches_units path d ≡ true
    from e =
        compiled
        ∙ ap (match (map lit d ++ [])) (e ∙ sym (append-nil d))
        ∙ match_text_complete [] d [] ((match_iff [] []).1 refl)

-- `d/**` accepts exactly the texts under `d/`, on one line.
pub matches_units-tree :
    (d path : List ℕ)
    → AllOrdinary d
    → (matches_units path (d ++ (slash ∷ star ∷ star ∷ [])) ≡ true)
      ↔ ((r : List ℕ) × (normalize path ≡ d ++ (slash ∷ r)) × All (λ c. dot c ≡ true) r)
matches_units-tree d path a = (to, from)
  where
    dir : List ℕ
    dir = d ++ (slash ∷ [])

    dir-ordinary : AllOrdinary dir
    dir-ordinary = All-concat_ordinary d slash a refl

    split : (r : List ℕ) → dir ++ r ≡ d ++ (slash ∷ r)
    split r = append_assoc d (slash ∷ []) r

    compiled :
        matches_units path (d ++ (slash ∷ star ∷ star ∷ []))
        ≡ match (map lit dir ++ many_any ∷ []) (normalize path)
    compiled =
        ap (matches_units path) (sym (split (star ∷ star ∷ [])))
        ∙ matches_units_compiled path (dir ++ (star ∷ star ∷ [])) (map lit dir ++ many_any ∷ [])
            (compile_tree dir dir-ordinary)

    to :
        matches_units path (d ++ (slash ∷ star ∷ star ∷ [])) ≡ true
        → (r : List ℕ) × (normalize path ≡ d ++ (slash ∷ r)) × All (λ c. dot c ≡ true) r
    to h =
        let (r, e, m) = match_text_sound (many_any ∷ []) dir (normalize path) (sym compiled ∙ h) in
        (r, e ∙ split r, (match_rest_iff r).0 m)

    from :
        ((r : List ℕ) × (normalize path ≡ d ++ (slash ∷ r)) × All (λ c. dot c ≡ true) r)
        → matches_units path (d ++ (slash ∷ star ∷ star ∷ [])) ≡ true
    from (r, e, dots) =
        compiled
        ∙ ap (match (map lit dir ++ many_any ∷ [])) (e ∙ sym (split r))
        ∙ match_text_complete (many_any ∷ []) dir r ((match_rest_iff r).1 dots)
