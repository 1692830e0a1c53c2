-- ===== src/Probe/Once.antt =====
-- The session of src/broker/custom-tool-broker.ts launches its executor once.
use claude_powerplant.Prelude.{
  ℕ, ◌+◌, ◌≤◌, ◌≡◌, refl, ap, ◌∙◌, inl, inr, ◌⊎◌, String, ◌==◌, some, List, [], ◌∷◌, arith,
  Bool-cases, Option-cases,
}
use claude_powerplant.Broker.{done}
use claude_powerplant.Probe.{DockerRun, run_isolated_executor}
use claude_powerplant.Probe.Session.{
  ProbeEvent, Probing, ProbeTurn, read_probe, start_probe, ProbeProgress, stopped, waiting, aborted,
  judge, BrokerSessionResult, run_probe, probe_turn, probe_round, probe_session, probe_result,
  initial_probing,
}
use claude_powerplant.Probe.Turn.{Attempt-cases, IsIdle, HasRun, Stage, InTurn, read_probe-InTurn}

initial_IsIdle : IsIdle initial_probing
unfolding initial_probing
initial_IsIdle = record { launches = refl; outcome = refl }

initial_calls : initial_probing.custom_tool_use_count ≤ 1
unfolding initial_probing
initial_calls = omega arith

module _ (home output_dir : String) (docker : ℕ → List String → DockerRun) where
  run_probe-HasRun :
      (s s' : Probing)
      → IsIdle s
      → s.custom_tool_use_count ≡ 1
      → run_probe home output_dir docker s ≡ waiting s'
      → HasRun home output_dir docker s'
  unfolding run_probe
  run_probe-HasRun s s' i one e =
      elim (Attempt-cases (run_isolated_executor home output_dir (docker s.launches))) [
        | inr (why, failed) ↦ absurd (ground (arith, e, failed))
        | inl (r, ran) ↦
            let same : record s { outcome = some (r, judge r); launches = s.launches + 1 } ≡ s' =
              ground (arith, e, ran) in
            record {
              called = ground (arith, same, one);
              launched = ground (arith, same, i.launches);
              result = r;
              ran = rw (i.launches) at ran;
              kept = ground (arith, same);
            }
      ]

  -- The loop goes on, or ends, with a state.
  abbrev Goes : ProbeProgress → Probing → Type 0
  Goes p s = (p ≡ waiting s) ⊎ (p ≡ stopped s)

  start_InTurn :
      (s : Probing) → Stage home output_dir docker s → InTurn home output_dir docker (start_probe s)
  unfolding start_probe
  start_InTurn s stage = inl (refl, stage)

  InTurn-Stage :
      (t : ProbeTurn) → InTurn home output_dir docker t → Stage home output_dir docker t.state
  InTurn-Stage t (inl (p, stage)) = stage
  InTurn-Stage t (inr (id, p, i, one)) = inl (i, omega (arith, one))

  run_probe-Goes :
      (s s' : Probing)
      → Goes (run_probe home output_dir docker s) s'
      → run_probe home output_dir docker s ≡ waiting s'
  unfolding run_probe
  run_probe-Goes s s' (inl e) = e
  run_probe-Goes s s' (inr e) =
      elim (Attempt-cases (run_isolated_executor home output_dir (docker s.launches))) [
        | inl (r, ran) ↦ absurd (ground (arith, e, ran))
        | inr (why, failed) ↦ absurd (ground (arith, e, failed))
      ]

  probe_turn-Stage :
      (t : ProbeTurn) (s' : Probing)
      → InTurn home output_dir docker t
      → Goes (probe_turn home output_dir docker t) s'
      → Stage home output_dir docker s'
  unfolding probe_turn
  probe_turn-Stage t s' h goes = elim (Bool-cases t.asked) [
    | inr quiet ↦
        let same : s' ≡ t.state = ground (arith, goes, quiet) in rw same (InTurn-Stage t h)
    | inl asked ↦ elim (Option-cases t.pending) [
      | inl nothing ↦ absurd (ground (arith, goes, asked, nothing))
      | inr (id, waits) ↦ elim (Bool-cases (id == "")) [
        | inl blank ↦ absurd (ground (arith, goes, asked, waits, blank))
        | inr named ↦
            let runs : Goes (run_probe home output_dir docker t.state) s' =
              ground (arith, goes, asked, waits, named) in
            elim h [
              | inl (p, stage) ↦ absurd (ground (arith, waits, p))
              | inr (j, p, i, one) ↦
                  inr (run_probe-HasRun t.state s' i one (run_probe-Goes t.state s' runs))
            ]
      ]
    ]
  ]

  -- A round keeps the stage; if the loop ends there, too.
  probe_round-Stage :
      (s : Probing) (es : List ProbeEvent) (s' : Probing)
      → Stage home output_dir docker s
      → Goes (probe_round home output_dir docker s es) s'
      → Stage home output_dir docker s'
  unfolding probe_round
  probe_round-Stage s es s' stage goes = elim (Attempt-cases (read_probe (start_probe s) es)) [
    | inr (why, failed) ↦ absurd (ground (arith, goes, failed))
    | inl (t, read) ↦
        probe_turn-Stage t s'
          (read_probe-InTurn home output_dir docker (start_probe s) es t read
            (start_InTurn s stage))
          (ground (arith, goes, read))
  ]

  Progress-cases :
      (p : ProbeProgress)
      → ((s : Probing) × (p ≡ stopped s))
        ⊎ (((s : Probing) × (p ≡ waiting s)) ⊎ ((why : String) × (p ≡ aborted why)))
  Progress-cases (stopped s) = inl (s, refl)
  Progress-cases (waiting s) = inr (inl (s, refl))
  Progress-cases (aborted why) = inr (inr (why, refl))

  probe_session-Stage :
      (s : Probing) (streams : List (List ProbeEvent)) (s' : Probing)
      → Stage home output_dir docker s
      → Goes (probe_session home output_dir docker s streams) s'
      → Stage home output_dir docker s'
  unfolding probe_session
  probe_session-Stage s [] s' stage goes = let same : s' ≡ s = ground (arith, goes) in rw same stage
  probe_session-Stage s (es ∷ streams) s' stage goes =
      elim (Progress-cases (probe_round home output_dir docker s es)) [
        | inl (s1, ends) ↦
            let same : s1 ≡ s' = ground (arith, goes, ends) in
            probe_round-Stage s es s' stage (inr (ends ∙ ap stopped same))
        | inr (inr (why, fails)) ↦ absurd (ground (arith, goes, fails))
        | inr (inl (s1, on)) ↦
            probe_session-Stage s1 streams s' (probe_round-Stage s es s1 stage (inl on))
              (ground (arith, goes, on))
      ]

  -- Whatever the API sends, a session that gives a result has counted one custom tool call and has
  -- launched the executor once; the result is that of this launch, with the verdict on its proof. And
  -- a session that has not ended has counted at most one call and at most one launch.
  pub session_launches_once :
      (streams : List (List ProbeEvent)) (s : Probing)
      → ((result : BrokerSessionResult)
          → probe_session home output_dir docker initial_probing streams ≡ stopped s
          → probe_result s ≡ done result
          → (s.custom_tool_use_count ≡ 1)
            × (s.launches ≡ 1)
            × (run_isolated_executor home output_dir (docker 0) ≡ done result.executor_result)
            × (result.tool_result ≡ judge result.executor_result))
        × (probe_session home output_dir docker initial_probing streams ≡ waiting s
            → (s.custom_tool_use_count ≤ 1) × (s.launches ≤ 1))
  unfolding probe_result
  session_launches_once streams s = (
    (λ result ends e. elim (probe_session-Stage initial_probing streams s begins (inr ends)) [
      | inl (i, few) ↦ absurd (ground (arith, e, i.outcome))
      | inr r ↦
          let kept = r.kept in
          (r.called, r.launched, r.ran ∙ ap done (ground (arith, e, kept)), ground (arith, e, kept))
    ]),
    (λ waits. elim (probe_session-Stage initial_probing streams s begins (inl waits)) [
      | inl (i, few) ↦ (few, omega (arith, i.launches))
      | inr r ↦ (omega (arith, r.called), omega (arith, r.launched))
    ]),
  )
    where
      begins : Stage home output_dir docker initial_probing
      begins = inl (initial_IsIdle, initial_calls)
