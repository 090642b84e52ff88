-- ===== src/Access/Tests.antt =====
-- Two users, and a workspace that they share with different access.
use chat2work_mcp.Prelude.{
  ◌≡◌, refl, true, text_lt, has_prefix, [], ◌∷◌, arith, codes, same, if◌then◌else◌, ok, err,
  no_access, some, none,
}
use chat2work_mcp.Prelude.Decimal.{decimal}
use chat2work_mcp.Prelude.Map.{lookup, insert}
use chat2work_mcp.Config.Sample.{config, team_grant}
use chat2work_mcp.Access.{
  add_members, add_member, personal_id, personal_grant, new_access_manager, grant, list,
  valid_workspace_id,
}
use chat2work_mcp.Access.Grants.{assigned, wanted, grant-assigned}
use chat2work_mcp.Access.Isolation.{grant-personal_ne}

grant_team : grant (new_access_manager config) 7 (codes "team") ≡ ok team_grant
unfolding grant new_access_manager add_members add_member lookup insert same decimal
grant_team = refl

grant_stranger : grant (new_access_manager config) 9 (codes "team") ≡ err (no_access (codes "team"))
unfolding grant new_access_manager add_members add_member lookup insert same decimal
grant_stranger = refl

listed_ids :
    list (new_access_manager config) 7
    ≡ record { id = codes "team"; name = codes "Team"; access = codes "editor" }
      ∷ personal_grant 7
      ∷ []
unfolding list new_access_manager add_members add_member lookup insert same decimal text_lt
listed_ids = refl

grant-assigned_example : grant (new_access_manager config) 7 (codes "team") ≡ (
    if same (wanted 7 (codes "team")) (personal_id 7)
    then ok (personal_grant 7)
    else elim (assigned config.workspaces 7 (wanted 7 (codes "team"))) [
      | some g ↦ ok g
      | none ↦ err (no_access (wanted 7 (codes "team")))
    ])
grant-assigned_example = grant-assigned config 7 (codes "team")

ids_valid : valid_workspace_id (codes "team") ≡ true
unfolding valid_workspace_id has_prefix same
ids_valid = refl

grant-personal_ne_example :
    grant (new_access_manager config) 7 (personal_id 8) ≡ err (no_access (personal_id 8))
grant-personal_ne_example = grant-personal_ne config 7 8 (ids_valid, tt) (λ e. omega arith)
