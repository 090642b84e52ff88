-- ===== src/Access/Listing.antt =====
-- `List` of internal/app/access.go shows exactly what `Grant` gives.
use chat2work_mcp.Prelude.{
  ℕ, ◌≡◌, refl, ap, ◌∙◌, ◌≢◌, ◌↔◌, ◌⊎◌, inl, inr, true, false, none, some, List, [], ◌∷◌, map,
  arith, ◌==◌, Bool-cases, Text, same, same_iff, text_lt, Has, ok,
}
use chat2work_mcp.Prelude.Map.{text_key, nat_key, lookup, insert, lookup-insert}
use chat2work_mcp.Config.{Config, WorkspaceConfig, WorkspaceMember}
use chat2work_mcp.Access.{
  WorkspaceGrant, AccessManager, Grants, personal_id, personal_grant, grants_of, add_member,
  add_members, add_workspaces, new_access_manager, grant, insert_grant, sort_grants, list,
  valid_workspace_id,
}
use chat2work_mcp.Access.Grants.{granted-new, grants_of-add_member}
use chat2work_mcp.Access.Isolation.{ValidIds, personal_id-not-valid, assigned-not-valid}

-- Every entry stands under its own id, and no id stands twice.
abbrev pub IsKeyed : Grants → Type 0
IsKeyed [] = Unit
IsKeyed ((k, g) ∷ rest) = (g.id ≡ k) × (lookup k rest ≡ none) × IsKeyed rest

insert-IsKeyed :
    (k : Text) (g : WorkspaceGrant) (m : Grants) → g.id ≡ k → IsKeyed m → IsKeyed (insert k g m)
unfolding insert lookup
insert-IsKeyed k g [] e h = (e, refl, tt)
insert-IsKeyed k g ((j, v) ∷ m) e (a, b, h) =
    ground (arith, insert-IsKeyed k g m e h, lookup-insert k j g m, same_iff j k, same_iff k j)

add_member-IsKeyed :
    (w : WorkspaceConfig) (m : AccessManager) (member : WorkspaceMember)
    → ((user : ℕ) → IsKeyed (grants_of m user))
    → (user : ℕ) → IsKeyed (grants_of (add_member w m member) user)
add_member-IsKeyed w m member h user =
    rw grants_of-add_member (elim (Bool-cases (member.user_id == user)) [
      | inl e ↦ rw e (insert-IsKeyed w.id _ (grants_of m member.user_id) refl (h member.user_id))
      | inr e ↦ rw e (h user)
    ])

add_members-IsKeyed :
    (w : WorkspaceConfig) (m : AccessManager) (members : List WorkspaceMember)
    → ((user : ℕ) → IsKeyed (grants_of m user))
    → (user : ℕ) → IsKeyed (grants_of (add_members w m members) user)
unfolding add_members
add_members-IsKeyed w m [] h = h
add_members-IsKeyed w m (member ∷ rest) h =
    add_members-IsKeyed w (add_member w m member) rest (add_member-IsKeyed w m member h)

add_workspaces-IsKeyed :
    (m : AccessManager) (ws : List WorkspaceConfig)
    → ((user : ℕ) → IsKeyed (grants_of m user))
    → (user : ℕ) → IsKeyed (grants_of (add_workspaces m ws) user)
unfolding add_workspaces
add_workspaces-IsKeyed m [] h = h
add_workspaces-IsKeyed m (w ∷ rest) h =
    add_workspaces-IsKeyed (add_members w m w.members) rest (add_members-IsKeyed w m w.members h)

new-IsKeyed : (config : Config) (user : ℕ) → IsKeyed (grants_of (new_access_manager config) user)
unfolding new_access_manager grants_of lookup
new-IsKeyed config = add_workspaces-IsKeyed (record { grants = [] }) config.workspaces (λ user. tt)

-- A grant stands in the values of a keyed map exactly if it stands under its id.
values-lookup :
    (m : Grants) (g : WorkspaceGrant)
    → IsKeyed m
    → Has g (map (λ e. e.1) m)
    → lookup g.id m ≡ some g
unfolding lookup
values-lookup [] g h p = elim p [ ]
values-lookup ((k, v) ∷ m) g (a, b, h) (inl e) =
    ground (arith, same_iff k g.id, ap (λ (x : WorkspaceGrant). x.id) e)
values-lookup ((k, v) ∷ m) g (a, b, h) (inr e) =
    ground (arith, same_iff k g.id, values-lookup m g h e)

lookup-values :
    (m : Grants) (g : WorkspaceGrant) (k : Text) → lookup k m ≡ some g → Has g (map (λ e. e.1) m)
unfolding lookup
lookup-values [] g k h = cc
lookup-values ((j, v) ∷ m) g k h = elim (Bool-cases (same j k)) [
  | inl e ↦ inl (ground arith)
  | inr e ↦ inr (lookup-values m g k (ground arith))
]

Has-insert_grant :
    (g h : WorkspaceGrant) (l : List WorkspaceGrant) → Has h (insert_grant g l) → (g ≡ h) ⊎ Has h l
unfolding insert_grant
Has-insert_grant g h [] p = p
Has-insert_grant g h (x ∷ l) p = ground (arith, Has-insert_grant g h l)

insert_grant-Has :
    (g h : WorkspaceGrant) (l : List WorkspaceGrant) → (g ≡ h) ⊎ Has h l → Has h (insert_grant g l)
unfolding insert_grant
insert_grant-Has g h [] p = p
insert_grant-Has g h (x ∷ l) p = ground (arith, insert_grant-Has g h l)

sort_grants-Has : (h : WorkspaceGrant) (l : List WorkspaceGrant) → Has h (sort_grants l) ↔ Has h l
unfolding sort_grants
sort_grants-Has h [] = (λ p. p, λ p. p)
sort_grants-Has h (x ∷ l) = (
  λ p. ground (arith, Has-insert_grant x h (sort_grants l) p, (sort_grants-Has h l).0),
  λ p. insert_grant-Has x h (sort_grants l) (ground (arith, (sort_grants-Has h l).1)),
)

text_lt_asymm : (s t : Text) → text_lt s t ≡ true → text_lt t s ≡ false
unfolding text_lt
text_lt_asymm [] (b ∷ t) h = refl
text_lt_asymm (a ∷ s) [] h = cc
text_lt_asymm [] [] h = refl
text_lt_asymm (a ∷ s) (b ∷ t) h = ground (arith, text_lt_asymm s t)

-- No entry has a greater id than the next one.
abbrev pub IsSorted : List WorkspaceGrant → Type 0
IsSorted [] = Unit
IsSorted (x ∷ []) = Unit
IsSorted (x ∷ y ∷ l) = (text_lt y.id x.id ≡ false) × IsSorted (y ∷ l)

insert_grant-IsSorted :
    (g : WorkspaceGrant) (l : List WorkspaceGrant) → IsSorted l → IsSorted (insert_grant g l)
unfolding insert_grant
insert_grant-IsSorted g [] h = tt
insert_grant-IsSorted g (x ∷ []) h = ground (arith, text_lt_asymm x.id g.id)
insert_grant-IsSorted g (x ∷ y ∷ l) (a, h) =
    ground (arith, text_lt_asymm x.id g.id, insert_grant-IsSorted g (y ∷ l) h)

sort_grants-IsSorted : (l : List WorkspaceGrant) → IsSorted (sort_grants l)
unfolding sort_grants
sort_grants-IsSorted [] = tt
sort_grants-IsSorted (g ∷ l) = insert_grant-IsSorted g (sort_grants l) (sort_grants-IsSorted l)

-- The list that a user is shown is in the order of the ids.
pub list-IsSorted : (m : AccessManager) (user : ℕ) → IsSorted (list m user)
unfolding list
list-IsSorted m user =
    sort_grants-IsSorted (personal_grant user ∷ map (λ e. e.1) (grants_of m user))

module _ (config : Config) (user : ℕ) (ids : ValidIds config.workspaces) where
  abbrev held : Grants
  held = grants_of (new_access_manager config) user

  lookup-not-valid : (id : Text) → valid_workspace_id id ≡ false → lookup id held ≡ none
  lookup-not-valid id bad =
      granted-new config user id ∙ assigned-not-valid config.workspaces user id bad ids

  shown-granted :
      (g : WorkspaceGrant)
      → (personal_grant user ≡ g) ⊎ Has g (map (λ e. e.1) held)
      → (grant (new_access_manager config) user g.id ≡ ok g) × (g.id ≢ [])
  unfolding grant
  shown-granted g (inl e) = rw (← e) (
      ground
        (arith, same_iff (personal_id user) [], same_iff (personal_id user) (personal_id user)))
  shown-granted g (inr p) =
      let at = values-lookup held g (new-IsKeyed config user) p in
      ground (
        arith,
        at,
        same_iff g.id [],
        same_iff g.id (personal_id user),
        lookup-not-valid (personal_id user) (personal_id-not-valid user),
        lookup-not-valid [] (unfold valid_workspace_id same in refl),
      )

  granted-shown :
      (g : WorkspaceGrant)
      → (grant (new_access_manager config) user g.id ≡ ok g) × (g.id ≢ [])
      → (personal_grant user ≡ g) ⊎ Has g (map (λ e. e.1) held)
  unfolding grant
  granted-shown g (given, named) = elim (Bool-cases (same g.id (personal_id user))) [
    | inl own ↦ inl (ground (arith, same_iff g.id [], same_iff g.id (personal_id user)))
    | inr other ↦ inr (lookup-values held g g.id (ground (arith, same_iff g.id [])))
  ]

-- With the ids that `LoadConfig` accepts, a grant is shown to a user exactly if its id is not empty
-- and a call that names this id is given that grant.
pub Has-list-grant :
    (config : Config) (user : ℕ) (g : WorkspaceGrant)
    → ValidIds config.workspaces
    → Has g (list (new_access_manager config) user)
      ↔ ((grant (new_access_manager config) user g.id ≡ ok g) × (g.id ≢ []))
unfolding list
Has-list-grant config user g ids = (
  λ p. shown-granted config user ids g (
      (sort_grants-Has g
          (personal_grant user ∷ map (λ e. e.1) (grants_of (new_access_manager config) user))).0
        p),
  λ p.
      (sort_grants-Has g
          (personal_grant user ∷ map (λ e. e.1) (grants_of (new_access_manager config) user))).1
        (granted-shown config user ids g p),
)
