-- ===== src/Approve/Willing.antt =====
-- How `cmdApprove` of src/cli/commands/approve.ts ends where git does all that it is asked.
use mathlib.Core.Path.{subst}
use claude_powerplant.Prelude.{
  ℕ, ◌≡◌, refl, String, true, false, Option, none, some, List, [], ◌∷◌, has, arith,
}
use claude_powerplant.Approve.{Sessions}
use claude_powerplant.Approve.Command.{
  parse_extend_session, ApproveEnv, GitCommand, checkout_new, Ready, branch_of, commit_staged,
  commit_patch, patched_files, Extension, no_extension, approved, finish, approve_on, approve_ready,
  cmd_approve, extend_run, staged,
}
use claude_powerplant.Approve.Cleared.{Cleared, Cleared-prepare}

module _ (env : ApproveEnv) where
  -- Git names what HEAD is, has no branch of the run, and does what it is asked.
  pub record Willing (original sha : String) : Type 0 where
    pub head : env.git.current_branch ≡ some original
    pub free : env.git.branch_exists ≡ false
    pub creates : env.git.creates_branch ≡ true
    pub applies : env.git.applies ≡ true
    pub adds : env.git.adds ≡ true
    pub written : env.git.message_written ≡ true
    pub commits : env.git.commits ≡ true
    pub removed : env.git.message_removed ≡ true
    pub made : env.git.head_sha ≡ some sha

  staged-Willing :
      {original sha : String} (r : Ready) (fs : List (List ℕ))
      → Willing original sha
      → (staged env.git r fs).1 ≡ some sha
  unfolding commit_staged
  staged-Willing r [] w = rw (w.written, w.commits, w.removed) w.made
  staged-Willing r (f ∷ fs) w = rw (w.adds, w.written, w.commits, w.removed) w.made

  commit_patch-Willing :
      {original sha : String} (r : Ready)
      → Willing original sha
      → (commit_patch env.git r).1 ≡ some sha
  unfolding commit_patch
  commit_patch-Willing r w = ground (arith, w.applies, staged-Willing r (patched_files r.patch) w)

  finish-approved :
      (extend : Option String) (r : Ready) (sha : String) (files : Sessions)
      (cmds : List GitCommand)
      → (e : Extension) × ((finish env extend r sha files cmds).outcome ≡ approved sha e)
  unfolding finish
  finish-approved none r sha files cmds = (no_extension, refl)
  finish-approved (some id) r sha files cmds = ((extend_run env id r files).0, refl)

  pub Cleared-approved :
      (args : List String) (files : Sessions) (r : Ready) (original sha : String)
      → Cleared env args r
      → has args "--dry-run" ≡ false
      → Willing original sha
      → (e : Extension) × ((cmd_approve env args files).outcome ≡ approved sha e)
  unfolding cmd_approve approve_ready approve_on
  Cleared-approved args files r original sha c wet w =
      let made = commit_patch-Willing r w in
      let begun = checkout_new (branch_of r) ∷ (commit_patch env.git r).0 in
      let prepared = Cleared-prepare env args r c in
      let same : finish env (parse_extend_session args) r sha files begun
          ≡ cmd_approve env args files =
        ground (arith, prepared, wet, w.head, w.free, w.creates, made) in
      subst (λ res. (e : Extension) × (res.outcome ≡ approved sha e)) same
        (finish-approved (parse_extend_session args) r sha files begun)
