-- ===== src/Launch.antt =====
-- src/broker/executor-launch-policy.ts: the policy that a launch of the executor container is checked
-- against. The user's home directory, which is read from the environment, is a parameter.
pub mod Conformance
mod Tests
use Prim.Native.String.{◌++◌ as append}
use claude_powerplant.Prelude.{
  String, ◌==◌, List, [], ◌∷◌, ◌++◌, map, Dict, get, is_some, if◌then◌else◌,
}
use claude_powerplant.Text.{units, includes}

abbrev pub executor_image : String
executor_image = "powerplant-executor:sprint3v"

abbrev pub worker_canary_key : String
worker_canary_key = "POWERPLANT_WORKER_SECRET_CANARY"

-- The output directory and the user are not judged.
pub record ExecutorLaunchParams : Type 0 where
  pub image : String
  pub output_dir : String
  pub network_mode : String
  pub env_vars : Dict String
  pub mounts : List String
  pub user : String

-- The rule that is broken, with the values that its text shows
pub data PolicyViolation : Type 0 where
  approved_image network_none no_secret_env : String → PolicyViolation
  empty_env : List String → PolicyViolation
  no_forbidden_mount : String → String → PolicyViolation

abbrev pub forbidden_env_keys : List String
forbidden_env_keys = "ANTHROPIC_API_KEY" ∷ "ANTHROPIC_ENVIRONMENT_KEY" ∷ worker_canary_key ∷ []

abbrev pub forbidden_mount_patterns : String → List String
forbidden_mount_patterns home =
    "/var/run/docker.sock" ∷ home ∷ "/home" ∷ ".env" ∷ "node_modules" ∷ []

unfoldable pub check_image : String → List PolicyViolation
check_image image = if image == executor_image then [] else approved_image image ∷ []

unfoldable pub check_network : String → List PolicyViolation
check_network mode = if mode == "none" then [] else network_none mode ∷ []

unfoldable pub check_env_keys : List String → Dict String → List PolicyViolation
check_env_keys [] env = []
check_env_keys (key ∷ keys) env =
    let rest = check_env_keys keys env in
    if is_some (get env key) then no_secret_env key ∷ rest else rest

unfoldable pub check_empty_env : Dict String → List PolicyViolation
check_empty_env [] = []
check_empty_env (entry ∷ env) = empty_env (map (λ e. e.0) (entry ∷ env)) ∷ []

unfoldable pub check_mount : List String → String → List PolicyViolation
check_mount [] mount = []
check_mount (pattern_text ∷ patterns) mount =
    let rest = check_mount patterns mount in
    if includes (units mount) (units pattern_text)
    then no_forbidden_mount mount pattern_text ∷ rest
    else rest

unfoldable pub check_mounts : List String → List String → List PolicyViolation
check_mounts patterns [] = []
check_mounts patterns (mount ∷ mounts) = check_mount patterns mount ++ check_mounts patterns mounts

unfoldable pub validate_launch_policy : String → ExecutorLaunchParams → List PolicyViolation
validate_launch_policy home params =
    check_image params.image
    ++ check_network params.network_mode
    ++ check_env_keys forbidden_env_keys params.env_vars
    ++ check_empty_env params.env_vars
    ++ check_mounts (forbidden_mount_patterns home) params.mounts

-- `buildDockerArgv`
unfoldable pub build_docker_argv : String → List String
build_docker_argv output_dir =
    "run"
    ∷ "--rm"
    ∷ "--network"
    ∷ "none"
    ∷ "--read-only"
    ∷ "--cap-drop"
    ∷ "ALL"
    ∷ "--security-opt"
    ∷ "no-new-privileges"
    ∷ "--user"
    ∷ "1001:1001"
    ∷ "--tmpfs"
    ∷ "/tmp:rw,noexec,nosuid,size=16m"
    ∷ "--mount"
    ∷ append "type=bind,src=" (append output_dir ",dst=/mnt/session/outputs")
    ∷ executor_image
    ∷ []
