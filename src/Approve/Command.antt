-- ===== src/Approve/Command.antt =====
-- `cmdApprove` of src/cli/commands/approve.ts. What git answers is a value; the commands that change the
-- repository are logged.
use Prim.Native.String.{◌++◌ as append}
use claude_powerplant.Prelude.{
  ℕ, String, ◌==◌, Bool, true, false, not, ◌&&◌, Option, none, some, List, [], ◌∷◌, ◌++◌, any, has,
  ltb, eqb, length, if◌then◌else◌,
}
use claude_powerplant.Text.{units, trim, split_lines, same_units, is_prefix}
use claude_powerplant.Ingest.Schema.{drop_prefix}
use claude_powerplant.Evaluator.Capsule.{first_units}
use claude_powerplant.Broker.{Attempt, done, threw}
use claude_powerplant.Approve.{
  SourceManifest, OnDisk, DriftResult, is_clean, check_source_drift, ChainLink, SessionState,
  Sessions, load_session, is_closed, extend_session,
}

abbrev pub is_option : String → Bool
is_option s = is_prefix (b'-' ∷ []) (units s)

-- `args.find(a => !a.startsWith('-'))`
unfoldable pub run_id_of : List String → Option String
run_id_of [] = none
run_id_of (a ∷ args) = let later = run_id_of args in if is_option a then later else some a

abbrev pub value_of : List String → Option String
value_of [] = none
value_of (v ∷ args) = if is_option v then none else some v

unfoldable pub parse_extend_session : List String → Option String
parse_extend_session [] = none
parse_extend_session (a ∷ args) =
    let later = parse_extend_session args in
    if a == "--extend-session" then value_of args else later

-- The required files of a run directory. A manifest is `none` if it is no JSON or lacks a field, and
-- `passed` of a summary if it is no Boolean.
pub record Artifacts : Type 0 where
  pub patch : Option (List ℕ)
  pub source_manifest : Option (Option SourceManifest)
  pub task_md : Option (List ℕ)
  pub session_summary : Option (Option Bool)

-- What git and the temporary directory do when they are asked
pub record Git : Type 0 where
  pub patch_applies : Bool
  pub current_branch : Option String
  pub branch_exists : Bool
  pub creates_branch : Bool
  pub applies : Bool
  pub adds : Bool
  pub message_written : Bool
  pub commits : Bool
  pub message_removed : Bool
  pub head_sha : Option String

pub record ApproveEnv : Type 0 where
  pub run_dir : String → Option Artifacts
  pub sha : List ℕ → String
  pub disk : String → OnDisk
  pub run_hash : Attempt String
  pub git : Git
  pub workspace_hash : SessionState → Attempt String
  pub now : String

-- The commands that change the repository
pub data GitCommand : Type 0 where
  checkout_new : String → GitCommand
  apply_patch : GitCommand
  add_files : List (List ℕ) → GitCommand
  commit : List ℕ → GitCommand
  checkout delete_branch : String → GitCommand

pub data Stop : Type 0 where
  no_run_id no_run missing_artifacts invalid_manifest unreadable_source : Stop
  drifted : DriftResult → Stop
  hash_failed patch_unfit no_repository branch_taken branch_failed : Stop

-- What the steps before git have found
pub record Ready : Type 0 where
  pub run_id : String
  pub manifest : SourceManifest
  pub patch : List ℕ
  pub task_subject : List ℕ
  pub passed : Option Bool
  pub evidence_hash : String

pub data Prepared : Type 0 where
  stop : Stop → Prepared
  ready : Ready → Prepared

-- `split(/\n\n/)[0]`
unfoldable pub first_paragraph : List ℕ → List ℕ
first_paragraph [] = []
first_paragraph (c ∷ []) = c ∷ []
first_paragraph (c ∷ d ∷ s) =
    let rest = first_paragraph (d ∷ s) in if eqb c 10 && eqb d 10 then [] else c ∷ rest

abbrev pub head_of : List (List ℕ) → List ℕ
head_of [] = []
head_of (l ∷ ls) = l

unfoldable pub extract_task_subject : List ℕ → List ℕ
extract_task_subject task_md =
    let subject = trim (head_of (split_lines (trim (first_paragraph task_md)))) in
    if ltb 72 (length subject) then first_units 69 subject ++ units "..." else subject

unfoldable pub patched_from : List (List ℕ) → List (List ℕ) → List (List ℕ)
patched_from found [] = found
patched_from found (line ∷ lines) = elim (drop_prefix (units "+++ b/") line) [
  | none ↦ patched_from found lines
  | some path ↦
      let known = patched_from found lines in
      let grown = patched_from (found ++ trim path ∷ []) lines in
      if any (λ p. same_units p (trim path)) found then known else grown
]

-- `patchedFiles`
unfoldable pub patched_files : List ℕ → List (List ℕ)
patched_files patch = patched_from [] (split_lines patch)

abbrev pub status_text : Option Bool → String
status_text none = "UNKNOWN"
status_text (some true) = "PASS"
status_text (some false) = "FAIL"

unfoldable pub build_commit_message : Ready → List ℕ
build_commit_message r =
    units "feat: "
    ++ r.task_subject
    ++ units "\n\nPowerplant-Run: "
    ++ units r.run_id
    ++ units "\nEvidence-Hash: "
    ++ units r.evidence_hash
    ++ units "\nVerification: "
    ++ units (status_text r.passed)
    ++ units "\n"

module _ (env : ApproveEnv) where
  -- Steps 4 to 6
  unfoldable pub clear_run : String → SourceManifest → List ℕ → List ℕ → Option Bool → Prepared
  clear_run run_id m patch task_md passed = elim (check_source_drift env.sha env.disk m.files) [
    | threw why ↦ stop unreadable_source
    | done d ↦ if not (is_clean d) then stop (drifted d) else elim env.run_hash [
      | threw why ↦ stop hash_failed
      | done hash ↦
          if not env.git.patch_applies
          then stop patch_unfit
          else ready (record {
            run_id = run_id;
            manifest = m;
            patch = patch;
            task_subject = extract_task_subject task_md;
            passed = passed;
            evidence_hash = hash;
          })
    ]
  ]

  -- Steps 2 and 3
  unfoldable pub read_run : String → Artifacts → Prepared
  read_run run_id a = elim a.patch [
    | none ↦ stop missing_artifacts
    | some patch ↦ elim a.source_manifest [
      | none ↦ stop missing_artifacts
      | some manifest ↦ elim a.task_md [
        | none ↦ stop missing_artifacts
        | some task_md ↦ elim a.session_summary [
          | none ↦ stop missing_artifacts
          | some passed ↦ elim manifest [
            | none ↦ stop invalid_manifest
            | some m ↦
                if m.source_path == ""
                then stop invalid_manifest
                else clear_run run_id m patch task_md passed
          ]
        ]
      ]
    ]
  ]

  -- Steps 1 to 6
  unfoldable pub prepare : List String → Prepared
  prepare args = elim (run_id_of args) [
    | none ↦ stop no_run_id
    | some run_id ↦
        if eqb (length (trim (units run_id))) 0
        then stop no_run_id
        else elim (env.run_dir run_id) [ none ↦ stop no_run | some a ↦ read_run run_id a ]
  ]

abbrev pub branch_of : Ready → String
branch_of r = append "powerplant/" r.run_id

-- The commands of steps 10 and 11, and the hash of the commit, if it came to one
unfoldable pub commit_staged : Git → Ready → List GitCommand × Option String
commit_staged git r = if not git.message_written then ([], none) else (
  commit (build_commit_message r) ∷ [],
  (if git.commits && git.message_removed then git.head_sha else none),
)

abbrev pub behind :
    List GitCommand → List GitCommand × Option String → List GitCommand × Option String
behind cmds rest = (cmds ++ rest.0, rest.1)

abbrev pub staged : Git → Ready → List (List ℕ) → List GitCommand × Option String
staged git r [] = behind (apply_patch ∷ []) (commit_staged git r)
staged git r (f ∷ fs) =
    if git.adds
    then behind (apply_patch ∷ add_files (f ∷ fs) ∷ []) (commit_staged git r)
    else (apply_patch ∷ add_files (f ∷ fs) ∷ [], none)

unfoldable pub commit_patch : Git → Ready → List GitCommand × Option String
commit_patch git r =
    if not git.applies then (apply_patch ∷ [], none) else staged git r (patched_files r.patch)

pub data Extension : Type 0 where
  no_extension not_passed no_such_session session_closed other_project no_hash : Extension
  extended : SessionState → Extension

pub data Outcome : Type 0 where
  stopped : Stop → Outcome
  reported failed : Outcome
  approved : String → Extension → Outcome

pub record ApproveResult : Type 0 where
  pub outcome : Outcome
  pub commands : List GitCommand
  pub sessions : Sessions

abbrev pub is_project : Option String → String → Bool
is_project none id = false
is_project (some p) id = id == p

abbrev pub has_passed : Option Bool → Bool
has_passed none = false
has_passed (some b) = b

module _ (env : ApproveEnv) where
  abbrev pub link_of : Ready → String → ChainLink
  link_of r hash = record {
    run_id = r.run_id;
    task = r.task_subject;
    evidence_hash = r.evidence_hash;
    applied_at = env.now;
    workspace_manifest_hash = hash;
  }

  unfoldable pub link_run : String → Ready → String → Sessions → Extension × Sessions
  link_run id r hash files = elim (extend_session id (link_of r hash) files) [
    | threw why ↦ (session_closed, files)
    | done (s, files') ↦ (extended s, files')
  ]

  -- Step 15
  unfoldable pub extend_run : String → Ready → Sessions → Extension × Sessions
  extend_run id r files =
      if not (has_passed r.passed) then (not_passed, files) else elim (load_session files id) [
        | threw why ↦ (no_such_session, files)
        | done s ↦
            if is_closed s.status
            then (session_closed, files)
            else if not (is_project r.manifest.project_id s.project_id)
            then (other_project, files)
            else elim (env.workspace_hash s) [
              | threw why ↦ (no_hash, files)
              | done hash ↦ link_run id r hash files
            ]
      ]

  unfoldable pub finish :
      Option String → Ready → String → Sessions → List GitCommand → ApproveResult
  finish none r sha files cmds = record {
    outcome = approved sha no_extension;
    commands = cmds;
    sessions = files;
  }
  finish (some id) r sha files cmds =
      let e = extend_run id r files in
      record { outcome = approved sha e.0; commands = cmds; sessions = e.1 }

  -- Steps 9 to 13
  unfoldable pub approve_on : Option String → String → Ready → Sessions → ApproveResult
  approve_on extend original r files =
      let cmds = commit_patch env.git r in
      let begun = checkout_new (branch_of r) ∷ cmds.0 in
      if not env.git.creates_branch
      then record {
        outcome = stopped branch_failed;
        commands = checkout_new (branch_of r) ∷ [];
        sessions = files;
      }
      else elim cmds.1 [
        | some sha ↦ finish extend r sha files begun
        | none ↦ record {
          outcome = failed;
          commands = begun ++ checkout original ∷ delete_branch (branch_of r) ∷ [];
          sessions = files;
        }
      ]

  abbrev pub halt : Stop → Sessions → ApproveResult
  halt why files = record { outcome = stopped why; commands = []; sessions = files }

  -- Steps 7 and 8
  unfoldable pub approve_ready : Option String → Ready → Sessions → ApproveResult
  approve_ready extend r files = elim env.git.current_branch [
    | none ↦ halt no_repository files
    | some original ↦
        if env.git.branch_exists
        then halt branch_taken files
        else approve_on extend original r files
  ]

  unfoldable pub cmd_approve : List String → Sessions → ApproveResult
  cmd_approve args files = elim (prepare env args) [
    | stop why ↦ halt why files
    | ready r ↦
        if has args "--dry-run"
        then record { outcome = reported; commands = []; sessions = files }
        else approve_ready (parse_extend_session args) r files
  ]
