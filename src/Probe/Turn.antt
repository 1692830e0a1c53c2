-- ===== src/Probe/Turn.antt =====
-- Reading a stream in the session of src/broker/custom-tool-broker.ts: a pending call is the only one,
-- and comes before any launch.
use Prim.Native.String.{◌++◌ as append}
use claude_powerplant.Prelude.{
  ℕ, ◌+◌, ◌≤◌, ◌≡◌, refl, ap, inl, inr, ◌⊎◌, String, ◌==◌, none, some, List, [], ◌∷◌, leb, arith,
  Bool-cases,
}
use claude_powerplant.Broker.{Attempt, done, threw}
use claude_powerplant.Broker.Session.{Block, text, other_block}
use claude_powerplant.Probe.{
  custom_tool_name, valid_probe_input, IsolatedExecutorResult, DockerRun, run_isolated_executor,
}
use claude_powerplant.Probe.Session.{
  ProbeEvent, message, tool_use, custom_tool_use, requires_action, idle, terminated, other_event,
  Probing, ProbeTurn, add_response, count_call, read_probe, judge,
}

pub Attempt-cases {ℓ} :
    {A : Type ℓ} (r : Attempt A) → ((a : A) × (r ≡ done a)) ⊎ ((why : String) × (r ≡ threw why))
Attempt-cases (done a) = inl (a, refl)
Attempt-cases (threw why) = inr (why, refl)

-- No launch so far
pub record IsIdle (s : Probing) : Type 0 where
  pub launches : s.launches ≡ 0
  pub outcome : s.outcome ≡ none

add_response-keeps :
    (s : Probing) (bs : List Block)
    → ((add_response s bs).custom_tool_use_count ≡ s.custom_tool_use_count)
      × ((add_response s bs).launches ≡ s.launches)
      × ((add_response s bs).outcome ≡ s.outcome)
unfolding add_response
add_response-keeps s [] = (refl, refl, refl)
add_response-keeps s (text t ∷ bs) =
    add_response-keeps (record s { final_response = append s.final_response t }) bs
add_response-keeps s (other_block ∷ bs) = add_response-keeps s bs

module _ (home output_dir : String) (docker : ℕ → List String → DockerRun) where
  -- One call and one launch, whose result is kept with its verdict
  pub record HasRun (s : Probing) : Type 0 where
    pub called : s.custom_tool_use_count ≡ 1
    pub launched : s.launches ≡ 1
    pub result : IsolatedExecutorResult
    pub ran : run_isolated_executor home output_dir (docker 0) ≡ done result
    pub kept : s.outcome ≡ some (result, judge result)

  -- Between two rounds
  abbrev pub Stage : Probing → Type 0
  Stage s = (IsIdle s × (s.custom_tool_use_count ≤ 1)) ⊎ HasRun s

  -- While a stream is read: a pending call is the only one, and comes before any launch.
  abbrev pub InTurn : ProbeTurn → Type 0
  InTurn t =
      ((t.pending ≡ none) × Stage t.state)
      ⊎ ((id : String) × (t.pending ≡ some id)
          × IsIdle t.state
          × (t.state.custom_tool_use_count ≡ 1))

  Stage-same :
      (s s' : Probing)
      → s'.custom_tool_use_count ≡ s.custom_tool_use_count
      → s'.launches ≡ s.launches
      → s'.outcome ≡ s.outcome
      → Stage s
      → Stage s'
  Stage-same s s' calls launches outcome (inl (i, few)) = inl (
    record {
      launches = ground (arith, launches, i.launches);
      outcome = ground (arith, outcome, i.outcome);
    },
    ground (arith, calls, few),
  )
  Stage-same s s' calls launches outcome (inr r) = inr (record {
    called = ground (arith, calls, r.called);
    launched = ground (arith, launches, r.launched);
    result = r.result;
    ran = r.ran;
    kept = ground (arith, outcome, r.kept);
  })

  InTurn-same :
      (t t' : ProbeTurn)
      → t'.pending ≡ t.pending
      → t'.state.custom_tool_use_count ≡ t.state.custom_tool_use_count
      → t'.state.launches ≡ t.state.launches
      → t'.state.outcome ≡ t.state.outcome
      → InTurn t
      → InTurn t'
  InTurn-same t t' pending calls launches outcome (inl (p, stage)) =
      inl (ground (arith, pending, p), Stage-same t.state t'.state calls launches outcome stage)
  InTurn-same t t' pending calls launches outcome (inr (id, p, i, one)) = inr (
    id,
    ground (arith, pending, p),
    record {
      launches = ground (arith, launches, i.launches);
      outcome = ground (arith, outcome, i.outcome);
    },
    ground (arith, calls, one),
  )

  -- A first call is pending.
  InTurn-call :
      (t : ProbeTurn) (id : String)
      → t.state.custom_tool_use_count ≡ 0
      → InTurn t
      → InTurn (count_call t id)
  unfolding count_call
  InTurn-call t id zero_calls (inl (p, inl (i, few))) =
      inr
        (id, refl, record { launches = i.launches; outcome = i.outcome }, omega (arith, zero_calls))
  InTurn-call t id zero_calls (inl (p, inr r)) = absurd (omega (arith, zero_calls, r.called))
  InTurn-call t id zero_calls (inr (j, p, i, one)) = absurd (omega (arith, zero_calls, one))

  -- The end of a stream
  at_end :
      (t t' : ProbeTurn) → (t'.pending ≡ t.pending) × (t'.state ≡ t.state) → InTurn t → InTurn t'
  at_end t t' (pending, same) h =
      InTurn-same t t' pending (ap (λ s. s.custom_tool_use_count) same) (ap (λ s. s.launches) same)
        (ap (λ s. s.outcome) same) h

  pub read_probe-InTurn :
      (t : ProbeTurn) (es : List ProbeEvent) (t' : ProbeTurn)
      → read_probe t es ≡ done t'
      → InTurn t
      → InTurn t'
  unfolding read_probe
  read_probe-InTurn t [] t' e h = at_end t t' (ground (arith, e)) h
  read_probe-InTurn t (message bs ∷ es) t' e h =
      let kept = add_response-keeps t.state bs in
      read_probe-InTurn (record t { state = add_response t.state bs }) es t' e
        (InTurn-same t (record t { state = add_response t.state bs }) refl kept.0 kept.1 kept.2 h)
  read_probe-InTurn t (tool_use ∷ es) t' e h =
      let counted = record t {
        state = record t.state { builtin_tool_use_count = t.state.builtin_tool_use_count + 1 };
      } in
      read_probe-InTurn counted es t' e (InTurn-same t counted refl refl refl refl h)
  read_probe-InTurn t (custom_tool_use id name input ∷ es) t' e h =
      elim (Bool-cases (name == custom_tool_name)) [
        | inr other ↦ absurd (ground (arith, e, other))
        | inl known ↦ elim (Bool-cases (leb 1 t.state.custom_tool_use_count)) [
          | inl again ↦ absurd (ground (arith, e, known, again))
          | inr first ↦ elim (Bool-cases (valid_probe_input input)) [
            | inr bad ↦ absurd (ground (arith, e, known, first, bad))
            | inl good ↦
                read_probe-InTurn (count_call t id) es t' (rw (known, first, good, read_probe) at e)
                  (InTurn-call t id (ground (arith, first)) h)
          ]
        ]
      ]
  read_probe-InTurn t (requires_action ∷ es) t' e h = at_end t t' (ground (arith, e)) h
  read_probe-InTurn t (idle ∷ es) t' e h = at_end t t' (ground (arith, e)) h
  read_probe-InTurn t (terminated ∷ es) t' e h = at_end t t' (ground (arith, e)) h
  read_probe-InTurn t (other_event ∷ es) t' e h = read_probe-InTurn t es t' e h
