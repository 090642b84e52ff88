-- ===== src/Config/Sample.antt =====
-- A configuration with one shared workspace, for the tests.
use chat2work_mcp.Prelude.{false, [], ◌∷◌, codes}
use chat2work_mcp.Prelude.Int.{pos}
use chat2work_mcp.Access.{WorkspaceGrant}
use chat2work_mcp.Config.{Config, WorkspaceConfig}

abbrev pub team : WorkspaceConfig
team = record {
  id = codes "team";
  name = codes "Team";
  members =
      record { user_id = 7; access = codes "editor" }
      ∷ record { user_id = 8; access = codes "viewer" }
      ∷ [];
}

abbrev pub team_grant : WorkspaceGrant
team_grant = record { id = codes "team"; name = codes "Team"; access = codes "editor" }

abbrev pub config : Config
config = record {
  listen_addr = [];
  log_level = [];
  mcp_token = codes "t";
  mcp_user_context_secret = codes "s";
  workspace_root = codes "/data";
  max_file_bytes = pos 10;
  max_workspace_bytes = pos 100;
  max_workspace_files = pos 3;
  max_list_results = pos 5;
  max_search_results = pos 5;
  officecli_path = [];
  office_timeout = [];
  max_office_concurrency = pos 1;
  delete_enabled = false;
  stdio_tenant_id = [];
  audit_log_path = [];
  audit_max_bytes = pos 0;
  audit_max_backups = pos 0;
  max_uncompressed_bytes = pos 50;
  download_base_url = [];
  download_ttl = [];
  download_secret = [];
  request_id_cache_ttl = [];
  request_id_cache_entries = pos 2;
  workspaces = team ∷ [];
}
