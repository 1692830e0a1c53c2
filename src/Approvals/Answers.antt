-- ===== src/Approvals/Answers.antt =====
-- What src/approvals/confirmation-event-handler.ts confirms.
use mathlib.Core.Path.{subst}
use claude_powerplant.Prelude.{
  ◌≡◌, refl, sym, ap, ◌∙◌, inl, inr, Bool, true, false, none, some, List, [], ◌∷◌, ◌++◌, map, last?,
  Bool-cases, if◌then◌else◌,
}
use claude_powerplant.Approvals.{PendingToolUse}
use claude_powerplant.Approvals.Confirmation.{
  Decision, is_allow, SessionEvent, message, tool_use, requires_action, idle, terminated,
  other_event, Confirmation, Handling, Turn, confirmations, post, see_tool_use, read_events,
  begin_turn, end_turn, run_with_confirmation, start, add_text,
}

abbrev pub flatten : {A : Type 0} → List (List A) → List A
flatten [] = []
flatten (xs ∷ xss) = xs ++ flatten xss

append_nil : {A : Type 0} (xs : List A) → xs ++ [] ≡ xs
append_nil [] = refl
append_nil (x ∷ xs) = ap (λ t. x ∷ t) (append_nil xs)

append_assoc : {A : Type 0} (xs ys zs : List A) → (xs ++ ys) ++ zs ≡ xs ++ (ys ++ zs)
append_assoc [] ys zs = refl
append_assoc (x ∷ xs) ys zs = ap (λ t. x ∷ t) (append_assoc xs ys zs)

flatten-concat :
    {A : Type 0} (xss : List (List A)) (ys : List A) → flatten (xss ++ ys ∷ []) ≡ flatten xss ++ ys
flatten-concat [] ys = append_nil ys
flatten-concat (xs ∷ xss) ys =
    ap (λ t. xs ++ t) (flatten-concat xss ys) ∙ sym (append_assoc xs (flatten xss) ys)

map-concat :
    {A B : Type 0} (f : A → B) (xs : List A) (y : A) → map f (xs ++ y ∷ []) ≡ map f xs ++ f y ∷ []
map-concat f [] y = refl
map-concat f (x ∷ xs) y = ap (λ t. f x ∷ t) (map-concat f xs y)

last?-concat : {A : Type 0} (xs : List A) (y : A) → last? (xs ++ y ∷ []) ≡ some y
last?-concat [] y = refl
last?-concat (x ∷ []) y = refl
last?-concat (x ∷ z ∷ xs) y = last?-concat (z ∷ xs) y

module _ (decide : List PendingToolUse → Decision) where
  abbrev pub answer : List PendingToolUse → List Confirmation
  answer us = confirmations us (decide us)

  -- Whether the last batch was allowed.
  abbrev pub last_allowed : List (List PendingToolUse) → Bool
  last_allowed batches = elim (last? batches) [ none ↦ false | some us ↦ is_allow (decide us) ]

  -- The tool uses so far are the batches that were answered, in order, and then `rest`; what was
  -- posted is the decision on each batch, and the flag is the last one.
  pub record Answered (h : Handling) (rest : List PendingToolUse) : Type 0 where
    pub batches : List (List PendingToolUse)
    pub seen : h.tool_use_events ≡ flatten batches ++ rest
    pub posts : h.posted ≡ map answer batches
    pub flag : h.confirmed ≡ last_allowed batches

  Answered-post :
      (h : Handling) (us : List PendingToolUse)
      → Answered h us
      → Answered (post h us (decide us)) []
  unfolding post
  Answered-post h us a = record {
    batches = a.batches ++ us ∷ [];
    seen = a.seen ∙ sym (flatten-concat a.batches us) ∙ sym (append_nil _);
    posts = ap (λ p. p ++ answer us ∷ []) a.posts ∙ sym (map-concat answer a.batches us);
    flag = rw (last?-concat a.batches us, last_allowed) refl;
  }

  Answered-seen :
      (h : Handling) (rest : List PendingToolUse) (u : PendingToolUse)
      → Answered h rest
      → Answered (record h { tool_use_events = h.tool_use_events ++ u ∷ [] }) (rest ++ u ∷ [])
  Answered-seen h rest u a = record {
    batches = a.batches;
    seen = ap (λ t. t ++ u ∷ []) a.seen ∙ append_assoc (flatten a.batches) rest (u ∷ []);
    posts = a.posts;
    flag = a.flag;
  }

  -- What the turn still has to answer.
  abbrev pending : Bool → Turn → List PendingToolUse
  pending immediate t = if immediate then [] else t.tool_use_this_turn

  see_tool_use-Answered :
      (immediate : Bool) (t : Turn) (u : PendingToolUse)
      → Answered t.handling (pending immediate t)
      → Answered
          (see_tool_use decide immediate t u).handling
          (pending immediate (see_tool_use decide immediate t u))
  unfolding see_tool_use
  see_tool_use-Answered true t u a = Answered-post _ (u ∷ []) (Answered-seen t.handling [] u a)
  see_tool_use-Answered false t u a = Answered-seen t.handling t.tool_use_this_turn u a

  read_events-Answered :
      (immediate : Bool) (t : Turn) (events : List SessionEvent)
      → Answered t.handling (pending immediate t)
      → Answered
          (read_events decide immediate t events).handling
          (pending immediate (read_events decide immediate t events))
  unfolding read_events
  read_events-Answered immediate t [] a = a
  read_events-Answered immediate t (message bs ∷ es) a =
      let h = record t.handling { final_text = add_text t.handling.final_text bs } in
      read_events-Answered immediate (record t { handling = h }) es
        (record { batches = a.batches; seen = a.seen; posts = a.posts; flag = a.flag })
  read_events-Answered immediate t (tool_use u ∷ es) a =
      read_events-Answered immediate (see_tool_use decide immediate t u) es
        (see_tool_use-Answered immediate t u a)
  read_events-Answered immediate t (requires_action ∷ es) a = a
  read_events-Answered immediate t (idle ∷ es) a = a
  read_events-Answered immediate t (terminated ∷ es) a = a
  read_events-Answered immediate t (other_event ∷ es) a = read_events-Answered immediate t es a

  -- A result of the loop: the handling is answered up to a rest, and the rest is empty where each
  -- tool use is confirmed at once and where the loop goes on.
  abbrev Settled : Bool → Handling × Bool → Type 0
  Settled immediate r =
      (rest : List PendingToolUse) × Answered r.0 rest
      × (immediate ≡ true → rest ≡ [])
      × (r.1 ≡ true → rest ≡ [])

  end_turn-Settled :
      (immediate : Bool) (t : Turn)
      → Answered t.handling (pending immediate t)
      → Settled immediate (end_turn decide immediate t)
  unfolding end_turn
  end_turn-Settled true t a = ([], a, (λ e. refl), (λ e. refl))
  end_turn-Settled false t a = elim (Bool-cases t.requires_action) [
    | inl asked ↦
        rw asked ([], Answered-post t.handling t.tool_use_this_turn a, (λ e. refl), (λ e. refl))
    | inr ended ↦ rw ended (t.tool_use_this_turn, a, (λ e. absurd (cc e)), (λ e. absurd (cc e)))
  ]

  begin_turn-Answered :
      (immediate : Bool) (h : Handling)
      → Answered h []
      → Answered
          (begin_turn decide immediate h).handling
          (pending immediate (begin_turn decide immediate h))
  unfolding begin_turn
  begin_turn-Answered true h a = a
  begin_turn-Answered false h a = a

  next-Settled :
      (immediate : Bool) (r : Handling × Bool) (streams : List (List SessionEvent))
      → Settled immediate r
      → ((h : Handling)
          → Answered h []
          → Settled immediate (run_with_confirmation decide immediate h streams))
      → Settled immediate (if r.1 then run_with_confirmation decide immediate r.0 streams else r)
  next-Settled immediate r streams (rest, a, at_once, on) ih = elim (Bool-cases r.1) [
    | inl goes_on ↦ rw goes_on (ih r.0 (subst (Answered r.0) (on goes_on) a))
    | inr ends ↦ rw ends (rest, a, at_once, (λ e. absurd (cc e)))
  ]

  run-Settled :
      (immediate : Bool) (h : Handling) (streams : List (List SessionEvent))
      → Answered h []
      → Settled immediate (run_with_confirmation decide immediate h streams)
  unfolding run_with_confirmation
  run-Settled immediate h [] a = ([], a, (λ e. refl), (λ e. refl))
  run-Settled immediate h (events ∷ streams) a =
      next-Settled immediate
        (end_turn decide immediate
          (read_events decide immediate (begin_turn decide immediate h) events))
        streams
        (end_turn-Settled immediate
          (read_events decide immediate (begin_turn decide immediate h) events)
          (read_events-Answered immediate (begin_turn decide immediate h) events
            (begin_turn-Answered immediate h a)))
        (λ t b. run-Settled immediate t streams b)

  -- Over any streams, the tool uses that the handler has seen are the batches that it answered, in
  -- order, each once, and then a rest that was not answered; what it posted is the decision on each
  -- batch, and its flag says whether the last batch was allowed. There is no rest where it confirms
  -- each use at once, or where it waits for a further stream.
  pub run-Answered :
      (immediate : Bool) (streams : List (List SessionEvent))
      → (rest : List PendingToolUse) × Answered
          (run_with_confirmation decide immediate start streams).0
          rest
        × (immediate ≡ true → rest ≡ [])
        × ((run_with_confirmation decide immediate start streams).1 ≡ true → rest ≡ [])
  run-Answered immediate streams =
      run-Settled immediate start streams
        (record { batches = []; seen = refl; posts = refl; flag = refl })
