-- ===== src/Launch/Conformance.antt =====
-- When src/broker/executor-launch-policy.ts lets a launch of the executor through.
use claude_powerplant.Prelude.{◌≡◌, String, false, List, [], All}
use claude_powerplant.Text.{units, includes}
use claude_powerplant.Launch.{ExecutorLaunchParams}

abbrev pub Lacks : String → String → Type 0
Lacks mount part = includes (units mount) (units part) ≡ false

-- A mount source that has none of the patterns in it
abbrev Avoids : List String → String → Type 0
Avoids patterns mount = All (Lacks mount) patterns

-- A mount source that shows the container nothing of the user's
abbrev pub Harmless : String → String → Type 0
Harmless home mount =
    Lacks mount "/var/run/docker.sock"
    × Lacks mount home
    × Lacks mount "/home"
    × Lacks mount ".env"
    × Lacks mount "node_modules"

-- What the executor's container may be started with
pub record Conforming (home : String) (params : ExecutorLaunchParams) : Type 0 where
  pub image : params.image ≡ "powerplant-executor:sprint3v"
  pub network : params.network_mode ≡ "none"
  pub env : params.env_vars ≡ []
  pub mounts : All (Harmless home) params.mounts
