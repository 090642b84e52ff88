-- ===== src/Config/Load.antt =====
-- `LoadConfig` of internal/app/config.go behind the reading and parsing of the YAML file.
-- `duration` is time.ParseDuration, in nanoseconds, and `none` where it returns an error.
use chat2work_mcp.Prelude.{
  ◌*◌, ◌^◌, Bool, false, not, ◌||◌, Option, none, some, List, [], ◌∷◌, ◌==◌, if◌then◌else◌, Text,
  codes, same, trim_space, Result, ok, err, ◌>>=◌, ◌>>◌, reject_if, bad_duration, missing_secret,
  missing_token, invalid_workspace_id, duplicate_workspace_id, invalid_member,
}
use chat2work_mcp.Prelude.Int.{ℤ, pos, is_pos}
use chat2work_mcp.Access.{valid_workspace_id, valid_access}
use chat2work_mcp.Config.{Config, WorkspaceConfig, WorkspaceMember}
use chat2work_mcp.Config.Env.{apply_env}

-- `if x == "" { x = d }`
abbrev pub text_or : Text → Text → Text
text_or x d = if same x [] then d else x

-- `if x <= 0 { x = d }`
abbrev pub pos_or : ℤ → ℤ → ℤ
pos_or x d = if is_pos x then x else d

unfoldable pub with_defaults : Config → Config
with_defaults c = record c {
  listen_addr = text_or c.listen_addr (codes ":8090");
  log_level = text_or c.log_level (codes "info");
  workspace_root = text_or c.workspace_root (codes "/data/workspace");
  max_file_bytes = pos_or c.max_file_bytes (pos (20 * 2 ^ 20));
  max_workspace_bytes = pos_or c.max_workspace_bytes (pos (2 ^ 30));
  max_workspace_files = pos_or c.max_workspace_files (pos 10000);
  max_list_results = pos_or c.max_list_results (pos 1000);
  max_search_results = pos_or c.max_search_results (pos 200);
  officecli_path = text_or c.officecli_path (codes "officecli");
  office_timeout = text_or c.office_timeout (codes "60s");
  max_office_concurrency = pos_or c.max_office_concurrency (pos 4);
  audit_max_bytes = pos_or c.audit_max_bytes (pos (50 * 2 ^ 20));
  audit_max_backups = pos_or c.audit_max_backups (pos 5);
  max_uncompressed_bytes = pos_or c.max_uncompressed_bytes (pos (256 * 2 ^ 20));
}

abbrev pub parsed : (Text → Option ℤ) → Text → Text → Result ℤ
parsed duration field text = elim (duration text) [
  | none ↦ err (bad_duration field)
  | some d ↦ ok d
]

-- the durations, and the fields that are set between their tests
unfoldable pub with_durations : (Text → Option ℤ) → Config → Result Config
with_durations duration c = do
  office ← parsed duration (codes "office_timeout") c.office_timeout
  let download_ttl = text_or c.download_ttl (codes "15m")
  download ← parsed duration (codes "download_ttl") download_ttl
  let cache_ttl = text_or c.request_id_cache_ttl (codes "10m")
  ttl ← parsed duration (codes "request_id_cache_ttl") cache_ttl
  ok (record c {
    download_ttl = download_ttl;
    request_id_cache_ttl = if is_pos ttl then cache_ttl else codes "10m";
    request_id_cache_entries = pos_or c.request_id_cache_entries (pos 1000);
    download_secret =
        if same (trim_space c.download_secret) []
        then c.mcp_user_context_secret
        else c.download_secret;
  })

unfoldable pub check_secrets : Config → Result (Unit {0})
check_secrets c = do
  reject_if (same (trim_space c.mcp_user_context_secret) []) missing_secret
  reject_if (same (trim_space c.mcp_token) []) missing_token

unfoldable pub check_members : Text → List WorkspaceMember → Result (Unit {0})
check_members id [] = ok tt
check_members id (m ∷ rest) =
    let more = check_members id rest in
    if m.user_id == 0 || not (valid_access m.access) then err (invalid_member id) else more

abbrev pub contains : Text → List Text → Bool
contains a [] = false
contains a (b ∷ bs) = same b a || contains a bs

unfoldable pub check_workspaces : List Text → List WorkspaceConfig → Result (Unit {0})
unfolding check_members
check_workspaces seen [] = ok tt
check_workspaces seen (w ∷ rest) =
    let more = check_workspaces (w.id ∷ seen) rest in
    if not (valid_workspace_id w.id)
    then err (invalid_workspace_id w.id)
    else if contains w.id seen
    then err (duplicate_workspace_id w.id)
    else check_members w.id w.members >> more

-- `LoadConfig` on what yaml.Unmarshal gives
unfoldable pub load_config : (Text → Option Text) → (Text → Option ℤ) → Config → Result Config
load_config env duration raw = do
  c ← with_durations duration (with_defaults (apply_env env raw))
  check_secrets c
  check_workspaces [] c.workspaces
  ok c
