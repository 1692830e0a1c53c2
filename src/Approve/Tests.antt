-- ===== src/Approve/Tests.antt =====
-- Approvals of a small run, and the properties at inputs that meet their hypotheses.
use claude_powerplant.Prelude.{◌≡◌, refl, ◌⊎◌, String, true, false, some, List, [], ◌∷◌, get, put}
use claude_powerplant.Text.{units, split_lines, trim}
use claude_powerplant.Ingest.Schema.{drop_prefix}
use claude_powerplant.Broker.{done, threw}
use claude_powerplant.Approve.{
  content, running, closed, SessionState, stored, Sessions, load_session, save_session,
  extend_session,
}
use claude_powerplant.Approve.Command.{
  Ready, Git, Artifacts, ApproveEnv, cmd_approve, parse_extend_session, run_id_of,
  extract_task_subject, patched_files, link_of, first_paragraph, patched_from,
}
use claude_powerplant.Approve.Cleared.{Cleared}
use claude_powerplant.Approve.Willing.{Willing}
use claude_powerplant.Approve.Chain.{Extends, approve-Extends}

abbrev git : Git
git = record {
  patch_applies = true;
  current_branch = some "main";
  branch_exists = false;
  creates_branch = true;
  applies = true;
  adds = true;
  message_written = true;
  commits = true;
  message_removed = true;
  head_sha = some "c0ffee";
}

abbrev session : SessionState
session = record {
  session_id = "s1";
  project_id = "demo";
  project_path = "/srv/demo";
  created_at = "t0";
  status = running;
  base_manifest_hash = "h0";
  chain_links = [];
}

abbrev files : Sessions
files = ("s1", stored session) ∷ []

abbrev run : Artifacts
run = record {
  patch = some (units "--- a/x.ts\n+++ b/x.ts\n");
  source_manifest = some (
      some (record {
        project_id = some "demo";
        source_path = "/srv/demo";
        files = record { relative_path = "x.ts"; sha256 = "h" } ∷ [];
      }));
  task_md = some (units "Fix x\n\nMore");
  session_summary = some (some true);
}

abbrev env : ApproveEnv
env = record {
  run_dir = λ id. some run;
  sha = λ bytes. "h";
  disk = λ path. content [];
  run_hash = done "evidence";
  git = git;
  workspace_hash = λ s. done "h1";
  now = "t1";
}

abbrev args : List String
args = "run-1" ∷ "--extend-session" ∷ "s1" ∷ []

abbrev ready_run : Ready
ready_run = record {
  run_id = "run-1";
  manifest = record { project_id = some "demo"; source_path = "/srv/demo"; files = [] };
  patch = [];
  task_subject = [];
  passed = some true;
  evidence_hash = "evidence";
}

-- The value of the flag is taken for the run if it comes first.
flag_first : run_id_of ("--extend-session" ∷ "s1" ∷ "run-1" ∷ []) ≡ some "s1"
unfolding run_id_of units
flag_first = refl

subject_is_cut : extract_task_subject (units "Fix x\n\nMore") ≡ units "Fix x"
unfolding extract_task_subject first_paragraph units trim split_lines
subject_is_cut = refl

patch_touches_one : patched_files (units "--- a/x.ts\n+++ b/x.ts\n") ≡ units "x.ts" ∷ []
unfolding patched_files patched_from units split_lines drop_prefix trim
patch_touches_one = refl

closed_is_not_extended :
    extend_session "s1"
      (link_of env ready_run "h1")
      (save_session (record session { status = closed }) files)
    ≡ threw "closed"
unfolding extend_session load_session save_session get put
closed_is_not_extended = refl

approve-Extends_example :
    ((cmd_approve env args files).sessions ≡ files)
    ⊎ ((r : Ready) × (Cleared env args r
          × Extends env (parse_extend_session args) r files (cmd_approve env args files)))
approve-Extends_example = approve-Extends env args files
