-- ===== src/Approve/Gate.antt =====
-- What has to hold before `cmdApprove` of src/cli/commands/approve.ts changes a repository, and how it ends.
use claude_powerplant.Prelude.{◌≡◌, ◌⊎◌, String, true, some, List, [], ◌∷◌, ◌++◌}
use claude_powerplant.Approve.{Sessions}
use claude_powerplant.Approve.Command.{
  ApproveEnv, GitCommand, checkout_new, commit, checkout, delete_branch, branch_failed, Ready,
  build_commit_message, branch_of, commit_patch, Extension, stopped, failed, approved,
  ApproveResult,
}
use claude_powerplant.Approve.Willing.{Willing}
use claude_powerplant.Approve.Cleared.{Cleared}

module _ (env : ApproveEnv) where
  -- The commands of a run that is approved, and those of one that fails behind the new branch
  abbrev pub Ending : Ready → String → Sessions → ApproveResult → Type 0
  Ending r original files res =
      ((res.outcome ≡ stopped branch_failed)
        × (res.commands ≡ checkout_new (branch_of r) ∷ [])
        × (res.sessions ≡ files))
      ⊎ ((res.outcome ≡ failed)
          × ((tried : List GitCommand) × (res.commands
                ≡ (checkout_new (branch_of r) ∷ tried)
                  ++ checkout original ∷ delete_branch (branch_of r) ∷ []))
          × (res.sessions ≡ files))
      ⊎ ((sha : String) × ((e : Extension) × ((before : List GitCommand) × (res.outcome
                ≡ approved sha e)
              × (res.commands
                  ≡ (checkout_new (branch_of r) ∷ before) ++ commit (build_commit_message r) ∷ [])
              × (env.git.applies ≡ true)
              × (env.git.commits ≡ true)
              × (env.git.head_sha ≡ some sha))))

  abbrev Committed : Ready → String → Type 0
  Committed r sha =
      ((before : List GitCommand) × ((commit_patch env.git r).0
          ≡ before ++ commit (build_commit_message r) ∷ []))
      × (env.git.applies ≡ true)
      × (env.git.commits ≡ true)
      × (env.git.head_sha ≡ some sha)
