-- ===== src/Launch/Tests.antt =====
-- The launch policy on launches, and its property at one that conforms.
use claude_powerplant.Prelude.{◌≡◌, refl, [], ◌∷◌, get}
use claude_powerplant.Text.{units, includes}
use claude_powerplant.Launch.{
  executor_image, ExecutorLaunchParams, no_secret_env, empty_env, no_forbidden_mount, network_none,
  validate_launch_policy, check_image, check_network, check_env_keys, check_empty_env, check_mounts,
  check_mount,
}

abbrev probe : ExecutorLaunchParams
probe = record {
  image = executor_image;
  output_dir = "/tmp/out";
  network_mode = "none";
  env_vars = [];
  mounts = "/tmp/out" ∷ [];
  user = "1001:1001";
}

secret_refused :
    validate_launch_policy "/root" (record probe {
      network_mode = "host";
      env_vars = ("ANTHROPIC_API_KEY", "k") ∷ [];
      mounts = "/home/me" ∷ [];
    })
    ≡ network_none "host"
      ∷ no_secret_env "ANTHROPIC_API_KEY"
      ∷ empty_env ("ANTHROPIC_API_KEY" ∷ [])
      ∷ no_forbidden_mount "/home/me" "/home"
      ∷ []
unfolding validate_launch_policy check_image check_network check_env_keys get check_empty_env
    check_mounts check_mount includes units
secret_refused = refl
