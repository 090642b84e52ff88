-- ===== src/Config/Tests.antt =====
-- The sample configuration, loaded with and without an environment.
use chat2work_mcp.Prelude.{
  ◌≡◌, refl, true, false, Bool, Option, none, some, [], Text, codes, same, trim_space, has_prefix,
  Result, ok, err, missing_token, bad_duration,
}
use chat2work_mcp.Prelude.Int.{ℤ, pos}
use chat2work_mcp.Access.{valid_workspace_id, valid_access}
use chat2work_mcp.Config.{Config}
use chat2work_mcp.Config.Env.{apply_env}
use chat2work_mcp.Config.Load.{
  with_defaults, with_durations, check_secrets, check_workspaces, load_config,
}
use chat2work_mcp.Config.Sample.{config}
use chat2work_mcp.Config.Valid.{IsLoaded, load_config-IsLoaded}

abbrev no_env : Text → Option Text
no_env name = none

abbrev duration : Text → Option ℤ
duration text = some (pos 1)

abbrev loaded : Result Config
loaded = load_config no_env duration config

abbrev loaded_config : Config
loaded_config = record config {
  listen_addr = codes ":8090";
  log_level = codes "info";
  officecli_path = codes "officecli";
  office_timeout = codes "60s";
  audit_max_bytes = pos 52428800;
  audit_max_backups = pos 5;
  download_ttl = codes "15m";
  download_secret = codes "s";
  request_id_cache_ttl = codes "10m";
}

loads : load_config no_env duration config ≡ ok loaded_config
unfolding load_config with_durations with_defaults check_secrets check_workspaces apply_env
    valid_workspace_id valid_access same trim_space has_prefix
loads = refl

load_config-IsLoaded_example : IsLoaded duration loaded_config
load_config-IsLoaded_example = load_config-IsLoaded no_env duration config loaded_config loads

-- An environment variable that is empty replaces the value of the file.
abbrev empty_token : Text → Option Text
empty_token name = if_token (same name (codes "MCP_TOKEN"))
  where
    if_token : Bool → Option Text
    if_token true = some []
    if_token false = none

token_missing : load_config empty_token duration config ≡ err missing_token
unfolding load_config with_durations with_defaults check_secrets check_workspaces apply_env same
    trim_space
token_missing = refl

no_duration : load_config no_env (λ text. none) config ≡ err (bad_duration (codes "office_timeout"))
unfolding load_config with_durations with_defaults apply_env same
no_duration = refl
