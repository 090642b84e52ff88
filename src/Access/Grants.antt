-- ===== src/Access/Grants.antt =====
-- `NewAccessManager` and `Grant` of internal/app/access.go against a reading of the configuration.
use mathlib.Core.Path.{subst}
use chat2work_mcp.Prelude.{
  ℕ, ◌≡◌, refl, ◌⊎◌, inl, inr, ◌&&◌, Option, none, some, List, [], ◌∷◌, arith, ◌==◌, ==_iff,
  if◌then◌else◌, Bool-cases, Option-cases, Text, same, same_iff, Has, ok, err, no_access,
}
use chat2work_mcp.Prelude.Map.{text_key, nat_key, lookup, insert, lookup-insert}
use chat2work_mcp.Config.{Config, WorkspaceConfig, WorkspaceMember}
use chat2work_mcp.Access.{
  WorkspaceGrant, AccessManager, personal_id, personal_grant, grants_of, add_member, add_members,
  add_workspaces, new_access_manager, grant,
}

-- The access that a list of members gives a user: the last entry counts.
unfoldable pub member_access : List WorkspaceMember → ℕ → Option Text
member_access [] user = none
member_access (m ∷ rest) user = elim (member_access rest user) [
  | some a ↦ some a
  | none ↦ if m.user_id == user then some m.access else none
]

-- The grant that a list of workspaces gives a user for an id: the last entry counts.
unfoldable pub assigned : List WorkspaceConfig → ℕ → Text → Option WorkspaceGrant
assigned [] user id = none
assigned (w ∷ rest) user id = elim (assigned rest user id) [
  | some g ↦ some g
  | none ↦
      if same w.id id
      then elim (member_access w.members user) [
        | some a ↦ some (record { id = w.id; name = w.name; access = a })
        | none ↦ none
      ]
      else none
]

abbrev pub granted : AccessManager → ℕ → Text → Option WorkspaceGrant
granted m user id = lookup id (grants_of m user)

pub grants_of-add_member :
    (w : WorkspaceConfig) (m : AccessManager) (member : WorkspaceMember) (user : ℕ)
    → grants_of (add_member w m member) user ≡ (
        if member.user_id == user
        then insert w.id
            (record { id = w.id; name = w.name; access = member.access })
            (grants_of m member.user_id)
        else grants_of m user)
unfolding grants_of add_member
grants_of-add_member w m member user = ground (
  arith,
  lookup-insert member.user_id user
      (insert w.id (record { id = w.id; name = w.name; access = member.access })
        (grants_of m member.user_id))
      m.grants,
)

granted-add_member :
    (w : WorkspaceConfig) (m : AccessManager) (member : WorkspaceMember) (user : ℕ) (id : Text)
    → granted (add_member w m member) user id ≡ (
        if member.user_id == user && same w.id id
        then some (record { id = w.id; name = w.name; access = member.access })
        else granted m user id)
granted-add_member w m member user id = ground (
  arith,
  grants_of-add_member w m member user,
  lookup-insert w.id id (record { id = w.id; name = w.name; access = member.access })
      (grants_of m member.user_id),
  ==_iff member.user_id user,
)

granted-add_members :
    (w : WorkspaceConfig) (m : AccessManager) (members : List WorkspaceMember) (user : ℕ)
    (id : Text)
    → granted (add_members w m members) user id ≡ elim (member_access members user) [
      | some a ↦
          if same w.id id
          then some (record { id = w.id; name = w.name; access = a })
          else granted m user id
      | none ↦ granted m user id
    ]
unfolding add_members member_access
granted-add_members w m [] user id = refl
granted-add_members w m (member ∷ rest) user id = ground (
  arith,
  granted-add_members w (add_member w m member) rest user id,
  granted-add_member w m member user id,
)

granted-add_workspaces :
    (m : AccessManager) (ws : List WorkspaceConfig) (user : ℕ) (id : Text)
    → granted (add_workspaces m ws) user id
      ≡ elim (assigned ws user id) [ some g ↦ some g | none ↦ granted m user id ]
unfolding add_workspaces assigned
granted-add_workspaces m [] user id = refl
granted-add_workspaces m (w ∷ rest) user id = ground (
  arith,
  granted-add_workspaces (add_members w m w.members) rest user id,
  granted-add_members w m w.members user id,
)

granted-empty : (user : ℕ) (id : Text) → granted (record { grants = [] }) user id ≡ none
unfolding grants_of lookup
granted-empty user id = refl

-- What the manager holds is what the configuration assigns.
pub granted-new :
    (config : Config) (user : ℕ) (id : Text)
    → granted (new_access_manager config) user id ≡ assigned config.workspaces user id
unfolding new_access_manager
granted-new config user id = ground (
  arith,
  granted-add_workspaces (record { grants = [] }) config.workspaces user id,
  granted-empty user id,
)

-- The workspace that an argument of a tool call stands for.
abbrev pub wanted : ℕ → Text → Text
wanted user workspace = if same workspace [] then personal_id user else workspace

-- `Grant`, as a function of the configuration: the user's own workspace is owned by the user, any
-- other is given as the last matching entry of the configuration says, and no other is given.
pub grant-assigned :
    (config : Config) (user : ℕ) (workspace : Text)
    → grant (new_access_manager config) user workspace ≡ (
        if same (wanted user workspace) (personal_id user)
        then ok (personal_grant user)
        else elim (assigned config.workspaces user (wanted user workspace)) [
          | some g ↦ ok g
          | none ↦ err (no_access (wanted user workspace))
        ])
unfolding grant
grant-assigned config user workspace = ground (
  arith,
  granted-new config user (wanted user workspace),
  same_iff (wanted user workspace) (personal_id user),
)

-- A member entry of the configuration that gives `g` to the user.
abbrev pub IsListed : List WorkspaceConfig → ℕ → WorkspaceGrant → Type 0
IsListed ws user g =
    (w : WorkspaceConfig) × (member : WorkspaceMember) × Has w ws
    × Has member w.members
    × (member.user_id ≡ user)
    × (g ≡ record { id = w.id; name = w.name; access = member.access })

member_access-Has :
    (members : List WorkspaceMember) (user : ℕ) (a : Text)
    → member_access members user ≡ some a
    → (member : WorkspaceMember) × Has member members
      × (member.user_id ≡ user)
      × (member.access ≡ a)
unfolding member_access
member_access-Has [] user a h = cc
member_access-Has (m ∷ rest) user a h = elim (Option-cases (member_access rest user)) [
  | inr (b, e) ↦
      let (member, has, u, v) = member_access-Has rest user b e in
      (member, inr has, u, ground arith)
  | inl e ↦ (m, inl refl, ground arith, ground arith)
]

assigned-IsListed :
    (ws : List WorkspaceConfig) (user : ℕ) (id : Text) (g : WorkspaceGrant)
    → assigned ws user id ≡ some g
    → IsListed ws user g × (g.id ≡ id)
unfolding assigned
assigned-IsListed [] user id g h = cc
assigned-IsListed (w ∷ rest) user id g h = elim (Option-cases (assigned rest user id)) [
  | inr (b, e) ↦
      let ((v, member, hw, hm, u, q), i) = assigned-IsListed rest user id b e in
      ((v, member, inr hw, hm, u, ground arith), ground arith)
  | inl e ↦ elim (Option-cases (member_access w.members user)) [
    | inl n ↦ absurd (ground arith)
    | inr (a, n) ↦
        let (member, has, u, v) = member_access-Has w.members user a n in
        ((w, member, inl refl, has, u, ground arith), ground (arith, same_iff w.id id))
  ]
]

-- Whatever `Grant` gives out is the user's own workspace, owned by the user, or one that a member
-- entry of the configuration gives the user, with the access of that entry.
pub grant-IsListed :
    (config : Config) (user : ℕ) (workspace : Text) (g : WorkspaceGrant)
    → grant (new_access_manager config) user workspace ≡ ok g
    → (g ≡ personal_grant user) ⊎ (IsListed config.workspaces user g × (g.id ≡ workspace))
grant-IsListed config user workspace g h =
    elim (Bool-cases (same (wanted user workspace) (personal_id user))) [
      | inl own ↦ inl (ground (arith, grant-assigned config user workspace))
      | inr other ↦ elim (Option-cases (assigned config.workspaces user (wanted user workspace))) [
        | inl e ↦ absurd (ground (arith, grant-assigned config user workspace))
        | inr (b, e) ↦
            let (at, i) = assigned-IsListed config.workspaces user (wanted user workspace) b e in
            let same_grant : b ≡ g = ground (arith, grant-assigned config user workspace) in
            inr (
              subst (λ x. IsListed config.workspaces user x) same_grant at,
              ground (arith, same_iff (personal_id user) (personal_id user)),
            )
      ]
    ]
