-- ===== src/Server.antt =====
-- internal/app/server.go: what every tool handler does first. The resolver of the caller's identity
-- is that of Auth, with the secret of the configuration.
pub mod Authorized
pub mod Tests
use chat2work_mcp.Prelude.{
  ℕ, Bool, not, ◌&&◌, Option, none, some, [], ◌==◌, if◌then◌else◌, Text, same, Result, ok, err,
  reject_if, ◌>>=◌, ◌>>◌, authorization_failed, context_required, stdio_not_numeric, needs_owner,
  read_only,
}
use chat2work_mcp.Prelude.Int.{ℤ}
use chat2work_mcp.Config.{Config}
use chat2work_mcp.Access.{AccessManager, WorkspaceGrant, grant, can_write, can_delete}
use chat2work_mcp.Auth.{Identity, Codec, identity_from_request}

-- `scan` is fmt.Sscan of a uint64.
pub record App : Type 0 where
  pub config : Config
  pub access : AccessManager
  pub codec : Codec
  pub scan : Text → Option ℕ

-- mcp.CallToolRequest: the value of the header with the user's context, where the call came over
-- HTTP
pub record CallToolRequest : Type 0 where
  pub header : Option Text

abbrev pub scanned_identity : Option ℕ → Result Identity
scanned_identity none = err stdio_not_numeric
scanned_identity (some id) =
    if id == 0 then err stdio_not_numeric else ok (record { user_id = id; request_id = [] })

unfoldable pub app_identity : App → ℤ → CallToolRequest → Result Identity
app_identity app now req = elim req.header [
  | some header ↦ identity_from_request app.codec app.config.mcp_user_context_secret now header
  | none ↦
      if not (same app.config.stdio_tenant_id [])
      then scanned_identity (app.scan app.config.stdio_tenant_id)
      else err (authorization_failed context_required)
]

-- what a call asks for: whether it writes, and whether it deletes
unfoldable pub app_grant : App → ℤ → CallToolRequest → Text → Bool → Bool → Result WorkspaceGrant
unfolding app_identity
app_grant app now req workspace write remove = do
  identity ← app_identity app now req
  g ← grant app.access identity.user_id workspace
  reject_if (remove && not (can_delete g.access)) (needs_owner g.id)
  reject_if (write && not (can_write g.access)) (read_only g.id)
  ok g
