-- ===== src/Access.antt =====
-- internal/app/access.go: who may do what in which workspace.
pub mod Grants
pub mod Listing
pub mod Isolation
pub mod Tests
use chat2work_mcp.Prelude.{
  ℕ, ◌≡◌, Bool, true, false, ◌&&◌, ◌||◌, not, Option, none, some, List, [], ◌∷◌, ◌++◌, map, leb,
  ◌==◌, if◌then◌else◌, Text, codes, same, has_prefix, text_lt, Result, ok, err, Error, no_access,
}
use chat2work_mcp.Prelude.Decimal.{decimal}
use chat2work_mcp.Prelude.Map.{Key, text_key, nat_key, lookup, insert}
use chat2work_mcp.Config.{Config, WorkspaceConfig, WorkspaceMember}

-- `type Access string`
abbrev pub Access : Type 0
Access = Text

abbrev pub access_viewer : Access
access_viewer = codes "viewer"

abbrev pub access_editor : Access
access_editor = codes "editor"

abbrev pub access_owner : Access
access_owner = codes "owner"

pub record WorkspaceGrant : Type 0 where
  pub id : Text
  pub name : Text
  pub access : Access

-- fmt.Sprintf("user-%d", userID)
abbrev pub personal_id : ℕ → Text
personal_id user = codes "user-" ++ decimal user

abbrev pub personal_grant : ℕ → WorkspaceGrant
personal_grant user = record {
  id = personal_id user;
  name = codes "Personal workspace";
  access = access_owner;
}

abbrev pub Grants : Type 0
Grants = List (Text × WorkspaceGrant)

-- without the field `locks`, which holds a lock for each workspace, made when first asked for
pub record AccessManager : Type 0 where
  pub grants : List (ℕ × Grants)

-- m.grants[user], where a missing entry is the nil map
unfoldable pub grants_of : AccessManager → ℕ → Grants
grants_of m user = elim (lookup user m.grants) [ none ↦ [] | some g ↦ g ]

unfoldable pub add_member : WorkspaceConfig → AccessManager → WorkspaceMember → AccessManager
unfolding grants_of
add_member w m member =
    let grant : WorkspaceGrant = record { id = w.id; name = w.name; access = member.access } in
    record m {
      grants = insert member.user_id (insert w.id grant (grants_of m member.user_id)) m.grants;
    }

unfoldable pub add_members : WorkspaceConfig → AccessManager → List WorkspaceMember → AccessManager
add_members w m [] = m
add_members w m (member ∷ rest) = add_members w (add_member w m member) rest

unfoldable pub add_workspaces : AccessManager → List WorkspaceConfig → AccessManager
add_workspaces m [] = m
add_workspaces m (w ∷ rest) = add_workspaces (add_members w m w.members) rest

unfoldable pub new_access_manager : Config → AccessManager
unfolding add_workspaces
new_access_manager config = add_workspaces (record { grants = [] }) config.workspaces

-- `sort.Slice` by id
unfoldable pub insert_grant : WorkspaceGrant → List WorkspaceGrant → List WorkspaceGrant
insert_grant g [] = g ∷ []
insert_grant g (h ∷ rest) = if text_lt h.id g.id then h ∷ insert_grant g rest else g ∷ h ∷ rest

unfoldable pub sort_grants : List WorkspaceGrant → List WorkspaceGrant
unfolding insert_grant
sort_grants [] = []
sort_grants (g ∷ rest) = insert_grant g (sort_grants rest)

-- (*AccessManager).List
unfoldable pub list : AccessManager → ℕ → List WorkspaceGrant
unfolding sort_grants grants_of
list m user = sort_grants (personal_grant user ∷ map (λ e. e.1) (grants_of m user))

-- (*AccessManager).Grant
unfoldable pub grant : AccessManager → ℕ → Text → Result WorkspaceGrant
unfolding grants_of
grant m user workspace =
    let wanted = if same workspace [] then personal_id user else workspace in
    if same wanted (personal_id user)
    then ok (record { id = wanted; name = codes "Personal workspace"; access = access_owner })
    else elim (lookup wanted (grants_of m user)) [ none ↦ err (no_access wanted) | some g ↦ ok g ]

valid_id_rune : ℕ → Bool
valid_id_rune r = leb b'a' r && leb r b'z' || (leb b'0' r && leb r b'9' || r == b'-')

valid_id_runes : Text → Bool
valid_id_runes [] = true
valid_id_runes (r ∷ s) = valid_id_rune r && valid_id_runes s

unfoldable pub valid_workspace_id : Text → Bool
unfolding valid_id_rune valid_id_runes
valid_workspace_id id =
    if same id [] || has_prefix (codes "user-") id then false else valid_id_runes id

unfoldable pub valid_access : Text → Bool
valid_access access =
    same access access_viewer || (same access access_editor || same access access_owner)

unfoldable pub can_write : Access → Bool
can_write access = same access access_editor || same access access_owner

unfoldable pub can_delete : Access → Bool
can_delete access = same access access_owner
