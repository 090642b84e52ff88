-- ===== src/Config.antt =====
-- internal/app/config.go: the configuration as YAML gives it. `int` and `int64` fields are signed.
pub mod Env
pub mod Load
pub mod Valid
pub mod Sample
pub mod Tests
use chat2work_mcp.Prelude.{ℕ, Bool, List, Text}
use chat2work_mcp.Prelude.Int.{ℤ}

pub record WorkspaceMember : Type 0 where
  pub user_id : ℕ
  pub access : Text

pub record WorkspaceConfig : Type 0 where
  pub id : Text
  pub name : Text
  pub members : List WorkspaceMember

pub record Config : Type 0 where
  pub listen_addr : Text
  pub log_level : Text
  pub mcp_token : Text
  pub mcp_user_context_secret : Text
  pub workspace_root : Text
  pub max_file_bytes : ℤ
  pub max_workspace_bytes : ℤ
  pub max_workspace_files : ℤ
  pub max_list_results : ℤ
  pub max_search_results : ℤ
  pub officecli_path : Text
  pub office_timeout : Text
  pub max_office_concurrency : ℤ
  pub delete_enabled : Bool
  pub stdio_tenant_id : Text
  pub audit_log_path : Text
  pub audit_max_bytes : ℤ
  pub audit_max_backups : ℤ
  pub max_uncompressed_bytes : ℤ
  pub download_base_url : Text
  pub download_ttl : Text
  pub download_secret : Text
  pub request_id_cache_ttl : Text
  pub request_id_cache_entries : ℤ
  pub workspaces : List WorkspaceConfig
