-- ===== src/Approve/Chain.antt =====
-- How `cmdApprove` of src/cli/commands/approve.ts extends the chain of a session.
use mathlib.Core.Path.{subst}
use claude_powerplant.Prelude.{
  ◌≡◌, ◌≢◌, refl, sym, ap, ◌∙◌, inl, inr, ◌⊎◌, String, ◌==◌, eq_iff, Bool, true, false, Option,
  none, some, List, ◌∷◌, has, get, get-put, get-put_same, arith, Bool-cases, Option-cases,
}
use claude_powerplant.Broker.{done}
use claude_powerplant.Approve.{
  SessionStatus, running, closed, SessionState, stored, Sessions, load_session, save_session,
  is_closed, with_link, extend_session,
}
use claude_powerplant.Approve.Command.{
  parse_extend_session, ApproveEnv, GitCommand, Ready, prepare, commit_patch, branch_of,
  checkout_new, has_passed, is_project, link_of, link_run, extend_run, Extension, extended,
  approved, ApproveResult, finish, approve_on, approve_ready, cmd_approve,
}
use claude_powerplant.Approve.Cleared.{Tries, Prepared-cases, Cleared, prepare-Cleared}

with_run :
    {A : Type 0} (P Q : Ready → Type 0) (r : Ready)
    → P r
    → A ⊎ Q r
    → A ⊎ ((r : Ready) × (P r × Q r))
with_run P Q r p (inl a) = inl a
with_run P Q r p (inr q) = inr (r, (p, q))

is_closed-running : (s : SessionStatus) → is_closed s ≡ false → s ≡ running
is_closed-running running e = refl
is_closed-running closed e = absurd (ground (arith, e))

has_passed-true : (p : Option Bool) → has_passed p ≡ true → p ≡ some true
has_passed-true none e = absurd (ground (arith, e))
has_passed-true (some b) e = ap some e

is_project-some : (p : Option String) (id : String) → is_project p id ≡ true → p ≡ some id
is_project-some none id e = absurd (ground (arith, e))
is_project-some (some q) id e = ap some (sym ((eq_iff id q).0 e))

module _ (env : ApproveEnv) where
  -- The session with this id is running and of the project of the run, the run has passed, and the link
  -- goes to the end of its chain.
  pub record Linked (id : String) (r : Ready) (files : Sessions) (s : SessionState) (hash : String)
      : Type 0 where
    pub loaded : load_session files id ≡ done s
    pub status : s.status ≡ running
    pub passed : r.passed ≡ some true
    pub project : r.manifest.project_id ≡ some s.project_id
    pub hashed : env.workspace_hash s ≡ done hash

  abbrev LinkedBy : String → Ready → Sessions → Extension × Sessions → Type 0
  LinkedBy id r files e =
      (s : SessionState) × ((hash : String) × (Linked id r files s hash
          × (e.0 ≡ extended (with_link s (link_of env r hash)))
          × (e.1 ≡ save_session (with_link s (link_of env r hash)) files)))

  extend_run-Linked :
      (id : String) (r : Ready) (files : Sessions)
      → ((extend_run env id r files).1 ≡ files) ⊎ LinkedBy id r files (extend_run env id r files)
  unfolding extend_run link_run extend_session
  extend_run-Linked id r files = elim (Bool-cases (has_passed r.passed)) [
    | inr not_passed ↦ inl (ground (arith, not_passed))
    | inl passed ↦ elim (Tries (load_session files id)) [
      | inl (why, fails) ↦ inl (ground (arith, passed, fails))
      | inr (s, loads) ↦ elim (Bool-cases (is_closed s.status)) [
        | inl shut ↦ inl (ground (arith, passed, loads, shut))
        | inr free ↦ elim (Bool-cases (is_project r.manifest.project_id s.project_id)) [
          | inr other ↦ inl (ground (arith, passed, loads, free, other))
          | inl same ↦ elim (Tries (env.workspace_hash s)) [
            | inl (why, fails) ↦ inl (ground (arith, passed, loads, free, same, fails))
            | inr (hash, hashed) ↦ inr (
              s,
              (
                hash,
                (
                  record {
                    loaded = loads;
                    status = is_closed-running s.status free;
                    passed = has_passed-true r.passed passed;
                    project = is_project-some r.manifest.project_id s.project_id same;
                    hashed = hashed;
                  },
                  ground (arith, passed, loads, free, same, hashed),
                  ground (arith, passed, loads, free, same, hashed),
                ),
              ),
            )
          ]
        ]
      ]
    ]
  ]

  -- A result that has extended a session, by way of the flag
  abbrev pub Extends : Option String → Ready → Sessions → ApproveResult → Type 0
  Extends extend r files res =
      (id : String) × ((s : SessionState) × ((sha : String) × ((hash : String) × ((extend ≡ some id)
              × Linked id r files s hash
              × (res.outcome ≡ approved sha (extended (with_link s (link_of env r hash))))
              × (get res.sessions s.session_id ≡ some (stored (with_link s (link_of env r hash))))
              × ((k : String) → k ≢ s.session_id → get res.sessions k ≡ get files k)))))

  saved_apart :
      (s : SessionState) (files : Sessions) (k : String)
      → k ≢ s.session_id
      → get (save_session s files) k ≡ get files k
  unfolding save_session
  saved_apart s files k apart = elim (Bool-cases (s.session_id == k)) [
    | inl same ↦ absurd (apart (sym ((eq_iff s.session_id k).0 same)))
    | inr other ↦ ground (arith, get-put s.session_id k (stored s) files, other)
  ]

  finish-Extends :
      (extend : Option String) (r : Ready) (sha : String) (files : Sessions)
      (cmds : List GitCommand)
      → ((finish env extend r sha files cmds).sessions ≡ files)
        ⊎ Extends extend r files (finish env extend r sha files cmds)
  unfolding finish save_session
  finish-Extends none r sha files cmds = inl refl
  finish-Extends (some id) r sha files cmds = elim (extend_run-Linked id r files) [
    | inl same ↦ inl same
    | inr (s, (hash, (linked, outcome, sessions))) ↦
        let s' = with_link s (link_of env r hash) in
        inr (
          id,
          (
            s,
            (
              sha,
              (
                hash,
                (
                  refl,
                  linked,
                  ap (approved sha) outcome,
                  ap (λ l. get l s.session_id) sessions
                      ∙ get-put_same s.session_id (stored s') files,
                  (λ k apart. ap (λ l. get l k) sessions ∙ saved_apart s' files k apart),
                ),
              ),
            ),
          ),
        )
  ]

-- An approval leaves the sessions as they are, or it has extended one: the flag names it, its file is
-- there, it is running and belongs to the project of the run, the run is cleared and its verification
-- has passed, and the hash of the workspace could be taken. The session then has one more link at the
-- end of its chain, for this run, and the files under all other ids are as before.
pub approve-Extends :
    (env : ApproveEnv) (args : List String) (files : Sessions)
    → ((cmd_approve env args files).sessions ≡ files)
      ⊎ ((r : Ready) × (Cleared env args r
            × Extends env (parse_extend_session args) r files (cmd_approve env args files)))
unfolding cmd_approve approve_ready approve_on
approve-Extends env args files = elim (Prepared-cases (prepare env args)) [
  | inl (why, stops) ↦ inl (ground (arith, stops))
  | inr (r, goes) ↦ elim (Bool-cases (has args "--dry-run")) [
    | inl dry ↦ inl (ground (arith, goes, dry))
    | inr wet ↦ elim (Option-cases env.git.current_branch) [
      | inl gone ↦ inl (ground (arith, goes, wet, gone))
      | inr (original, on) ↦ elim (Bool-cases env.git.branch_exists) [
        | inl there ↦ inl (ground (arith, goes, wet, on, there))
        | inr free ↦ elim (Bool-cases env.git.creates_branch) [
          | inr fails ↦ inl (ground (arith, goes, wet, on, free, fails))
          | inl creates ↦ elim (Option-cases (commit_patch env.git r).1) [
            | inl none_made ↦ inl (ground (arith, goes, wet, on, free, creates, none_made))
            | inr (sha, made) ↦
                let extend = parse_extend_session args in
                let begun = checkout_new (branch_of r) ∷ (commit_patch env.git r).0 in
                let same : finish env extend r sha files begun ≡ cmd_approve env args files =
                  ground (arith, goes, wet, on, free, creates, made) in
                subst
                  (λ res.
                    (res.sessions ≡ files)
                    ⊎ ((r : Ready) × (Cleared env args r × Extends env extend r files res)))
                  same
                  (with_run (Cleared env args)
                    (λ r'. Extends env extend r' files (finish env extend r sha files begun)) r
                    (prepare-Cleared env args r goes) (finish-Extends env extend r sha files begun))
          ]
        ]
      ]
    ]
  ]
]
