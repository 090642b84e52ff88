-- ===== src/Tools/Sample.antt =====
-- A server over stdio, its settings and a workspace, for the tests.
use chat2work_mcp.Prelude.{
  ◌≡◌, refl, true, none, some, [], ◌∷◌, if◌then◌else◌, codes, same, contains_any, contains_rune, ok,
}
use chat2work_mcp.Prelude.Int.{pos}
use chat2work_mcp.Config.Sample.{config}
use chat2work_mcp.Access.{new_access_manager}
use chat2work_mcp.Server.{App, CallToolRequest}
use chat2work_mcp.Paths.{workspace_root, clean_steps, clean_step, join}
use chat2work_mcp.Quota.{Files}

abbrev pub app : App
app = record {
  config = record config { stdio_tenant_id = codes "7" };
  access = new_access_manager (record config { stdio_tenant_id = codes "7" });
  codec = record { mac = λ secret body. secret; decode_base64 = λ s. none; unmarshal = λ s. none };
  scan = λ s. if same s (codes "7") then some 7 else none;
}

abbrev pub request : CallToolRequest
request = record { header = none }

abbrev pub f : Files
f = record {
  base = codes "d" ∷ [];
  max_bytes = pos 100;
  max_workspace_bytes = pos 1000;
  max_workspace_files = pos 5;
  delete_enabled = true;
}

pub team_root : workspace_root (codes "d" ∷ []) (codes "team") ≡ ok (codes "d" ∷ codes "team" ∷ [])
unfolding workspace_root same contains_any contains_rune join clean_steps clean_step
team_root = refl
