-- ===== src/Scout/Listing.antt =====
-- How the loops of `scanProject` in src/scout/scan.ts go through the proposals of their sources.
use mathlib.Core.List.{append_assoc, append-nil}
use claude_powerplant.Prelude.{
  ℕ, zero, suc, ◌+◌, ◌<◌, ◌≡◌, refl, sym, ap, ◌∙◌, inl, inr, Bool, true, false, none, some, List,
  [], ◌∷◌, ◌++◌, length, leb, arith, Bool-cases, Option-cases, if◌then◌else◌,
}
use claude_powerplant.Scout.{Emitted, ProposedCandidate, parse_proposed, ScoutContract}
use claude_powerplant.Scout.Verdict.{ScoutCandidate, normalize_candidate}
use claude_powerplant.Scout.Task.{scout_id, max_candidates, take_candidates, scan_sources}

abbrev pub take {ℓ} : {A : Type ℓ} → ℕ → List A → List A
take zero xs = []
take (suc n) [] = []
take (suc n) (x ∷ xs) = x ∷ take n xs

-- All that the sources emit, in order
abbrev pub all_emitted : List (List Emitted) → List Emitted
all_emitted [] = []
all_emitted (es ∷ sources) = es ++ all_emitted sources

-- The proposals that fit the schema, in order
abbrev pub proposals : List Emitted → List ProposedCandidate
proposals [] = []
proposals (e ∷ es) =
    let rest = proposals es in elim (parse_proposed e) [ none ↦ rest | some p ↦ p ∷ rest ]

abbrev pub as_listed : ScoutContract → ℕ → ProposedCandidate → ScoutCandidate
as_listed contract n p = record (normalize_candidate p contract) { id = scout_id (n + 1) }

-- The verdicts on proposals, numbered from `n + 1` on
abbrev pub numbered : ScoutContract → ℕ → List ProposedCandidate → List ScoutCandidate
numbered contract n [] = []
numbered contract n (p ∷ ps) = as_listed contract n p ∷ numbered contract (n + 1) ps

length-append_one : {A : Type 0} (xs : List A) (x : A) → length (xs ++ x ∷ []) ≡ length xs + 1
length-append_one [] x = refl
length-append_one (y ∷ xs) x = ground (arith, length-append_one xs x)

if_true : {A : Type 0} (b : Bool) (x y : A) → b ≡ true → (if b then x else y) ≡ x
if_true b x y e = ground (arith, e)

if_false : {A : Type 0} (b : Bool) (x y : A) → b ≡ false → (if b then x else y) ≡ y
if_false b x y e = ground (arith, e)

module _ (contract : ScoutContract) where
  take-skip :
      (found : List ScoutCandidate) (e : Emitted) (es : List Emitted)
      → parse_proposed e ≡ none
      → take_candidates contract found (e ∷ es) ≡ take_candidates contract found es
  unfolding take_candidates
  take-skip found e es bad = ground (arith, bad)

  take-one :
      (found : List ScoutCandidate) (e : Emitted) (es : List Emitted) (p : ProposedCandidate)
      → parse_proposed e ≡ some p
      → take_candidates contract found (e ∷ es) ≡ (
          if leb max_candidates (length (found ++ as_listed contract (length found) p ∷ []))
          then found ++ as_listed contract (length found) p ∷ []
          else take_candidates contract (found ++ as_listed contract (length found) p ∷ []) es)
  unfolding take_candidates
  take-one found e es p good = ground (arith, good)

  proposals-one :
      (e : Emitted) (es : List Emitted) (p : ProposedCandidate)
      → parse_proposed e ≡ some p
      → proposals (e ∷ es) ≡ p ∷ proposals es
  proposals-one e es p good = ground (arith, good)

  -- With room for more candidates, a source gives the first of its proposals.
  pub take_candidates-numbered :
      (found : List ScoutCandidate) (room : ℕ) (es : List Emitted)
      → length found + suc room ≡ max_candidates
      → take_candidates contract found es
        ≡ found ++ numbered contract (length found) (take (suc room) (proposals es))
  unfolding take_candidates
  take_candidates-numbered found room [] free = sym (append-nil found)
  take_candidates-numbered found zero (e ∷ es) free = elim (Option-cases (parse_proposed e)) [
    | inl bad ↦
        take-skip found e es bad ∙ take_candidates-numbered found zero es free ∙ ground (arith, bad)
    | inr (p, good) ↦
        let next = found ++ as_listed contract (length found) p ∷ [] in
        let longer = length-append_one found (as_listed contract (length found) p) in
        let full : leb max_candidates (length next) ≡ true = ground (arith, free, longer) in
        take-one found e es p good
        ∙ if_true (leb max_candidates (length next)) next (take_candidates contract next es) full
        ∙ ap (λ ps. found ++ numbered contract (length found) (take 1 ps))
            (sym (proposals-one e es p good))
  ]
  take_candidates-numbered found (suc r) (e ∷ es) free = elim (Option-cases (parse_proposed e)) [
    | inl bad ↦
        take-skip found e es bad
        ∙ take_candidates-numbered found (suc r) es free
        ∙ ground (arith, bad)
    | inr (p, good) ↦
        let next = found ++ as_listed contract (length found) p ∷ [] in
        let longer = length-append_one found (as_listed contract (length found) p) in
        let vacant : leb max_candidates (length next) ≡ false = ground (arith, free, longer) in
        let later = take_candidates-numbered next r es (ground (arith, free, longer)) in
        take-one found e es p good
        ∙ if_false (leb max_candidates (length next)) next (take_candidates contract next es) vacant
        ∙ later
        ∙ append_assoc found (as_listed contract (length found) p ∷ [])
            (numbered contract (length next) (take (suc r) (proposals es)))
        ∙ ap
            (λ n.
              found
              ++ as_listed contract (length found) p
                ∷ numbered contract n (take (suc r) (proposals es)))
            longer
        ∙ ap (λ ps. found ++ numbered contract (length found) (take (suc (suc r)) ps))
            (sym (proposals-one e es p good))
  ]

  -- Two sources, one behind the other, are one source.
  take_candidates-append :
      (found : List ScoutCandidate) (es more : List Emitted)
      → length found < max_candidates
      → take_candidates contract found (es ++ more) ≡ (
          if leb max_candidates (length (take_candidates contract found es))
          then take_candidates contract found es
          else take_candidates contract (take_candidates contract found es) more)
  unfolding take_candidates
  take_candidates-append found [] more free = ground (arith, free)
  take_candidates-append found (e ∷ es) more free = elim (Option-cases (parse_proposed e)) [
    | inl bad ↦
        take-skip found e (es ++ more) bad
        ∙ take_candidates-append found es more free
        ∙ ap
            (λ next.
              if leb max_candidates (length next) then next else take_candidates contract next more)
            (sym (take-skip found e es bad))
    | inr (p, good) ↦
        let next = found ++ as_listed contract (length found) p ∷ [] in
        let one = take-one found e es p good in
        let both = take-one found e (es ++ more) p good in
        elim (Bool-cases (leb max_candidates (length next))) [
          | inl full ↦
              let ends =
                one
                ∙ if_true (leb max_candidates (length next)) next (take_candidates contract next es)
                    full in
              let top : leb max_candidates (length (take_candidates contract found (e ∷ es)))
                  ≡ true =
                ap (λ l. leb max_candidates (length l)) ends ∙ full in
              both
              ∙ if_true (leb max_candidates (length next)) next
                  (take_candidates contract next (es ++ more)) full
              ∙ sym ends
              ∙ sym (
                  if_true (leb max_candidates (length (take_candidates contract found (e ∷ es))))
                    (take_candidates contract found (e ∷ es))
                    (take_candidates contract (take_candidates contract found (e ∷ es)) more) top)
          | inr short ↦
              let goes =
                one
                ∙ if_false (leb max_candidates (length next)) next
                    (take_candidates contract next es) short in
              both
              ∙ if_false (leb max_candidates (length next)) next
                  (take_candidates contract next (es ++ more)) short
              ∙ take_candidates-append next es more (ground (arith, short))
              ∙ ap
                  (λ l.
                    if leb max_candidates (length l) then l else take_candidates contract l more)
                  (sym goes)
        ]
  ]

  pub scan_sources-all :
      (found : List ScoutCandidate) (sources : List (List Emitted))
      → length found < max_candidates
      → scan_sources contract found sources ≡ take_candidates contract found (all_emitted sources)
  unfolding scan_sources take_candidates
  scan_sources-all found [] free = refl
  scan_sources-all found (es ∷ sources) free =
      let next = take_candidates contract found es in
      elim (Bool-cases (leb max_candidates (length next))) [
        | inl full ↦
            if_true (leb max_candidates (length next)) next (scan_sources contract next sources)
              full
            ∙ sym (
                take_candidates-append found es (all_emitted sources) free
                ∙ if_true (leb max_candidates (length next)) next
                    (take_candidates contract next (all_emitted sources)) full)
        | inr short ↦
            if_false (leb max_candidates (length next)) next (scan_sources contract next sources)
              short
            ∙ scan_sources-all next sources (ground (arith, short))
            ∙ sym (
                take_candidates-append found es (all_emitted sources) free
                ∙ if_false (leb max_candidates (length next)) next
                    (take_candidates contract next (all_emitted sources)) short)
      ]
