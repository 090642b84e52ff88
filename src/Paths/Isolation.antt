-- ===== src/Paths/Isolation.antt =====
-- Two workspaces have no path in common.
use chat2work_mcp.Prelude.{
  ℕ, ◌≡◌, ◌≢◌, sym, ap, ◌∙◌, inl, inr, Bool, true, some, List, [], ◌∷◌, ◌++◌, arith, Text, same,
  has_prefix, Has, ok,
}
use mathlib.Core.List.{append_assoc}
use chat2work_mcp.Config.{Config, WorkspaceConfig}
use chat2work_mcp.Access.{WorkspaceGrant, new_access_manager, grant, valid_workspace_id}
use chat2work_mcp.Access.Grants.{grant-IsListed}
use chat2work_mcp.Access.Isolation.{ValidIds}
use chat2work_mcp.Paths.{AbsPath, View, workspace_root, resolve}
use chat2work_mcp.Paths.Cleaning.{IsName, join-names}
use chat2work_mcp.Paths.Within.{resolve-IsWithin}

ValidIds-Has :
    (ws : List WorkspaceConfig) (w : WorkspaceConfig)
    → ValidIds ws
    → Has w ws
    → valid_workspace_id w.id ≡ true
ValidIds-Has [] w h p = elim p [ ]
ValidIds-Has (x ∷ ws) w (hx, h) (inl e) = rw (← e) hx
ValidIds-Has (x ∷ ws) w (hx, h) (inr p) = ValidIds-Has ws w h p

valid-IsName : (id : Text) → valid_workspace_id id ≡ true → IsName id
unfolding valid_workspace_id same has_prefix
valid-IsName id h = (λ e. cc, λ e. cc, λ e. cc)

-- The id of a grant is the name of one directory.
pub granted-IsName :
    (config : Config) (user : ℕ) (workspace : Text) (g : WorkspaceGrant)
    → ValidIds config.workspaces
    → grant (new_access_manager config) user workspace ≡ ok g
    → IsName g.id
granted-IsName config user workspace g ids h = elim (grant-IsListed config user workspace g h) [
  | inl own ↦ rw own (λ e. cc, λ e. cc, λ e. cc)
  | inr ((w, member, at, _, _, e), _) ↦
      rw e (valid-IsName w.id (ValidIds-Has config.workspaces w ids at))
]

pub workspace_root-eq :
    (base : AbsPath) (id : Text) (root : AbsPath)
    → IsName id
    → workspace_root base id ≡ ok root
    → root ≡ base ++ id ∷ []
unfolding workspace_root
workspace_root-eq base id root name h = ground (arith, join-names base (id ∷ []) (name, tt))

-- A path that lies below two directories of one parent shows that they are the same.
pub within_one :
    (base : AbsPath) (a b : Text) (p q : List Text) → (base ++ a ∷ p) ≡ (base ++ b ∷ q) → a ≡ b
within_one [] a b p q e = cc
within_one (x ∷ base) a b p q e = within_one base a b p q (cc)

-- Two calls that are granted workspaces with different ids never resolve to one path, whoever makes
-- them, whatever they supply and whatever the file system answers, if the configuration has the ids
-- that `LoadConfig` accepts.
pub resolve_apart :
    (config : Config) (u v : ℕ) (w w' : Text) (g g' : WorkspaceGrant) (base root root' : AbsPath)
    (view view' : View) (fuel fuel' : ℕ) (supplied supplied' : Text) (missing missing' : Bool)
    (p p' : AbsPath)
    → ValidIds config.workspaces
    → grant (new_access_manager config) u w ≡ ok g
    → grant (new_access_manager config) v w' ≡ ok g'
    → workspace_root base g.id ≡ ok root
    → workspace_root base g'.id ≡ ok root'
    → resolve view fuel root supplied missing ≡ some (ok p)
    → resolve view' fuel' root' supplied' missing' ≡ some (ok p')
    → g.id ≢ g'.id
    → p ≢ p'
resolve_apart config u v w w' g g' base root root' view view' fuel fuel' supplied supplied' missing
      missing' p p' ids h h' at at' found found' apart same_p =
    let (rest, e) = resolve-IsWithin view fuel root supplied missing p found in
    let (rest', e') = resolve-IsWithin view' fuel' root' supplied' missing' p' found' in
    let r = workspace_root-eq base g.id root (granted-IsName config u w g ids h) at in
    let r' = workspace_root-eq base g'.id root' (granted-IsName config v w' g' ids h') at' in
    apart (
      within_one base g.id g'.id rest rest' (
        sym (append_assoc base (g.id ∷ []) rest)
        ∙ ap (λ (x : AbsPath). x ++ rest) (sym r)
        ∙ sym e
        ∙ same_p
        ∙ e'
        ∙ ap (λ (x : AbsPath). x ++ rest') r'
        ∙ append_assoc base (g'.id ∷ []) rest'))
