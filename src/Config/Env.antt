-- ===== src/Config/Env.antt =====
-- `applyEnv` of internal/app/config.go. `env` is os.LookupEnv.
use chat2work_mcp.Prelude.{Bool, Option, none, some, Text, codes}
use chat2work_mcp.Prelude.Int.{ℤ}
use chat2work_mcp.Prelude.Parse.{parse_int, parse_bool}
use chat2work_mcp.Config.{Config}

-- `set`: a variable that is there replaces the value
unfoldable pub env_text : Option Text → Text → Text
env_text none old = old
env_text (some v) old = v

-- a variable that is there and is a number replaces the value
unfoldable pub env_int : Option Text → ℤ → ℤ
env_int none old = old
env_int (some v) old = elim (parse_int v) [ none ↦ old | some n ↦ n ]

unfoldable pub env_bool : Option Text → Bool → Bool
env_bool none old = old
env_bool (some v) old = elim (parse_bool v) [ none ↦ old | some b ↦ b ]

unfoldable pub apply_env : (Text → Option Text) → Config → Config
unfolding env_text env_int env_bool
apply_env env c = record c {
  listen_addr = env_text (env (codes "LISTEN_ADDR")) c.listen_addr;
  log_level = env_text (env (codes "LOG_LEVEL")) c.log_level;
  mcp_token = env_text (env (codes "MCP_TOKEN")) c.mcp_token;
  mcp_user_context_secret =
      env_text (env (codes "MCP_USER_CONTEXT_SECRET")) c.mcp_user_context_secret;
  workspace_root = env_text (env (codes "WORKSPACE_ROOT")) c.workspace_root;
  officecli_path = env_text (env (codes "OFFICECLI_PATH")) c.officecli_path;
  office_timeout = env_text (env (codes "OFFICE_TIMEOUT")) c.office_timeout;
  max_office_concurrency = env_int (env (codes "MAX_OFFICE_CONCURRENCY")) c.max_office_concurrency;
  stdio_tenant_id = env_text (env (codes "STDIO_TENANT_ID")) c.stdio_tenant_id;
  audit_log_path = env_text (env (codes "AUDIT_LOG_PATH")) c.audit_log_path;
  audit_max_bytes = env_int (env (codes "AUDIT_MAX_BYTES")) c.audit_max_bytes;
  audit_max_backups = env_int (env (codes "AUDIT_MAX_BACKUPS")) c.audit_max_backups;
  max_uncompressed_bytes = env_int (env (codes "MAX_UNCOMPRESSED_BYTES")) c.max_uncompressed_bytes;
  download_base_url = env_text (env (codes "DOWNLOAD_BASE_URL")) c.download_base_url;
  download_ttl = env_text (env (codes "DOWNLOAD_TTL")) c.download_ttl;
  download_secret = env_text (env (codes "DOWNLOAD_SECRET")) c.download_secret;
  request_id_cache_ttl = env_text (env (codes "REQUEST_ID_CACHE_TTL")) c.request_id_cache_ttl;
  request_id_cache_entries =
      env_int (env (codes "REQUEST_ID_CACHE_ENTRIES")) c.request_id_cache_entries;
  max_file_bytes = env_int (env (codes "MAX_FILE_BYTES")) c.max_file_bytes;
  delete_enabled = env_bool (env (codes "DELETE_ENABLED")) c.delete_enabled;
}
