-- ===== src/Access/Isolation.antt =====
-- No user reaches the private workspace of another.
use chat2work_mcp.Prelude.{
  ℕ, ◌≡◌, ◌≢◌, refl, ap, inl, inr, true, false, none, List, [], ◌∷◌, arith, Text, codes, same,
  same_iff, has_prefix-append, Bool-cases, All, err, no_access,
}
use chat2work_mcp.Prelude.Decimal.{decimal, decimal-injective}
use chat2work_mcp.Config.{Config, WorkspaceConfig}
use chat2work_mcp.Access.{personal_id, new_access_manager, grant, valid_workspace_id}
use chat2work_mcp.Access.Grants.{assigned, grant-assigned}

abbrev pub ValidIds : List WorkspaceConfig → Type 0
ValidIds = All (λ w. valid_workspace_id w.id ≡ true)

-- Two users have two private workspaces.
pub personal_id-injective : (u v : ℕ) → personal_id u ≡ personal_id v → u ≡ v
personal_id-injective u v e = decimal-injective u v (cc)

pub personal_id-not-valid : (v : ℕ) → valid_workspace_id (personal_id v) ≡ false
unfolding valid_workspace_id
personal_id-not-valid v =
    ground (arith, has_prefix-append (codes "user-") (decimal v), same_iff (personal_id v) [])

pub assigned-not-valid :
    (ws : List WorkspaceConfig) (user : ℕ) (id : Text)
    → valid_workspace_id id ≡ false
    → ValidIds ws
    → assigned ws user id ≡ none
unfolding assigned
assigned-not-valid [] user id bad h = refl
assigned-not-valid (w ∷ rest) user id bad (hw, h) = elim (Bool-cases (same w.id id)) [
  | inl e ↦ absurd (ground (arith, ap valid_workspace_id ((same_iff w.id id).0 e)))
  | inr e ↦ rw (assigned-not-valid rest user id bad h, e)
]

-- With the ids that `LoadConfig` accepts, a user who asks for another user's private workspace is
-- refused, whatever the member entries of the configuration are.
pub grant-personal_ne :
    (config : Config) (user v : ℕ)
    → ValidIds config.workspaces
    → user ≢ v
    → grant (new_access_manager config) user (personal_id v) ≡ err (no_access (personal_id v))
grant-personal_ne config user v h ne = elim (Bool-cases (same (personal_id v) (personal_id user))) [
  | inl e ↦ absurd (
      ground
        (arith, personal_id-injective v user ((same_iff (personal_id v) (personal_id user)).0 e)))
  | inr e ↦ ground (
    arith,
    grant-assigned config user (personal_id v),
    same_iff (personal_id v) [],
    assigned-not-valid config.workspaces user (personal_id v) (personal_id-not-valid v) h,
  )
]
