-- ===== src/Server/Tests.antt =====
-- The handlers' first step over stdio, for a member of one workspace with the access of an editor.
use chat2work_mcp.Prelude.{
  ◌≡◌, ◌↔◌, refl, true, false, none, some, codes, same, ok, err, needs_owner, if◌then◌else◌,
}
use chat2work_mcp.Prelude.Int.{pos}
use chat2work_mcp.Prelude.Decimal.{decimal}
use chat2work_mcp.Prelude.Map.{lookup, insert}
use chat2work_mcp.Config.Sample.{config, team_grant}
use chat2work_mcp.Access.{add_member, add_members, new_access_manager, grant, can_write, can_delete}
use chat2work_mcp.Server.{App, CallToolRequest, app_grant}
use chat2work_mcp.Server.Authorized.{IsAuthorized, app_grant_iff}

abbrev app : App
app = record {
  config = record config { stdio_tenant_id = codes "7" };
  access = new_access_manager config;
  codec = record { mac = λ secret body. secret; decode_base64 = λ s. none; unmarshal = λ s. none };
  scan = λ s. if same s (codes "7") then some 7 else none;
}

abbrev request : CallToolRequest
request = record { header = none }

writes : app_grant app (pos 0) request (codes "team") true false ≡ ok team_grant
unfolding app_grant grant new_access_manager add_members add_member lookup insert same decimal
    can_write can_delete
writes = refl

deletes : app_grant app (pos 0) request (codes "team") false true ≡ err (needs_owner (codes "team"))
unfolding app_grant grant new_access_manager add_members add_member lookup insert same decimal
    can_write can_delete
deletes = refl

app_grant_iff_example :
    (app_grant app (pos 0) request (codes "team") true false ≡ ok team_grant)
    ↔ IsAuthorized app (pos 0) request (codes "team") true false team_grant
app_grant_iff_example = app_grant_iff app (pos 0) request (codes "team") true false team_grant
