-- ===== src/Tools/Tests.antt =====
-- The file tools over stdio, for a member of one workspace.
use chat2work_mcp.Prelude.{
  ◌≡◌, ◌≢◌, arith, ok, Error, refl, true, some, [], ◌∷◌, codes, same, err, needs_owner,
}
use chat2work_mcp.Prelude.Int.{pos}
use chat2work_mcp.Prelude.Decimal.{decimal}
use chat2work_mcp.Prelude.Map.{lookup, insert}
use chat2work_mcp.Access.{
  WorkspaceGrant, add_member, add_members, new_access_manager, grant, can_write, can_delete,
}
use chat2work_mcp.Server.{app_grant}
use chat2work_mcp.Server.Authorized.{app_grant_iff}
use chat2work_mcp.Disk.Memory.{Disk, memory, content}
use chat2work_mcp.Disk.Memory.Laws.{memory-IsLawful}
use chat2work_mcp.Tools.Sample.{app, request, f}
use chat2work_mcp.Tools.{FileCall, delete_call, handle}
use chat2work_mcp.Tools.Calls.{handle-unauthorized}

abbrev disk : Disk
disk = (codes "d" ∷ codes "user-8" ∷ codes "x" ∷ [], codes "secret") ∷ []

abbrev deleted : FileCall
deleted = delete_call (record { workspace = codes "team"; path = codes "b"; confirm = true })

refused_team :
    app_grant app (pos 0) request (codes "team") true true ≡ err (needs_owner (codes "team"))
unfolding app_grant grant new_access_manager add_members add_member lookup insert same decimal
    can_write can_delete
refused_team = refl

not_given : (g : WorkspaceGrant) → app_grant app (pos 0) request (codes "team") true true ≢ ok g
not_given g h = ground (arith, h, refused_team)

handle-unauthorized_example :
    (e : Error) × (handle memory 9 f app (pos 0) request deleted disk ≡ some (err e, disk))
handle-unauthorized_example =
    handle-unauthorized memory content memory-IsLawful 9 f app (pos 0) request deleted disk
      (λ g given.
        not_given g ((app_grant_iff app (pos 0) request (codes "team") true true g).1 given))
