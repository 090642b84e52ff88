-- ===== src/Config/Valid.antt =====
-- What internal/app/config.go guarantees of a configuration that it loads.
use mathlib.Core.Path.{subst}
use chat2work_mcp.Prelude.{
  ◌≡◌, ◌≢◌, ◌↔◌, Option-cases, refl, ap, ◌∙◌, inl, inr, true, false, Option, none, List, [], ◌∷◌,
  arith, Text, codes, same_iff, trim_space, All, ok, Result-cases,
}
use chat2work_mcp.Prelude.Int.{ℤ, is_pos}
use chat2work_mcp.Access.{valid_workspace_id, valid_access}
use chat2work_mcp.Access.Isolation.{ValidIds}
use chat2work_mcp.Config.{Config, WorkspaceConfig, WorkspaceMember}
use chat2work_mcp.Config.Env.{apply_env}
use chat2work_mcp.Config.Load.{
  with_defaults, with_durations, check_secrets, check_members, check_workspaces, contains,
  load_config, text_or,
}

abbrev pub ValidMembers : List WorkspaceMember → Type 0
ValidMembers = All (λ m. (m.user_id ≢ 0) × (valid_access m.access ≡ true))

-- Every workspace has a valid id, which is none of those seen and of no later workspace, and valid
-- members.
abbrev pub ValidFrom : List Text → List WorkspaceConfig → Type 0
ValidFrom seen [] = Unit
ValidFrom seen (w ∷ rest) =
    (valid_workspace_id w.id ≡ true)
    × (contains w.id seen ≡ false)
    × ValidMembers w.members
    × ValidFrom (w.id ∷ seen) rest

check_members-ok :
    (id : Text) (members : List WorkspaceMember)
    → check_members id members ≡ ok tt
    → ValidMembers members
unfolding check_members
check_members-ok id [] h = tt
check_members-ok id (m ∷ rest) h =
    ((λ e. ground arith, ground arith), check_members-ok id rest (ground arith))

check_members_complete :
    (id : Text) (members : List WorkspaceMember)
    → ValidMembers members
    → check_members id members ≡ ok tt
unfolding check_members
check_members_complete id [] h = refl
check_members_complete id (m ∷ rest) ((user, access), h) =
    ground (arith, check_members_complete id rest h)

check_workspaces-ok :
    (seen : List Text) (ws : List WorkspaceConfig)
    → check_workspaces seen ws ≡ ok tt
    → ValidFrom seen ws
unfolding check_workspaces
check_workspaces-ok seen [] h = tt
check_workspaces-ok seen (w ∷ rest) h = elim (Result-cases (check_members w.id w.members)) [
  | inr (e, bad) ↦ absurd (ground (arith, bad))
  | inl (u, good) ↦ (
    ground arith,
    ground arith,
    check_members-ok w.id w.members (good ∙ ap ok refl),
    check_workspaces-ok (w.id ∷ seen) rest (ground (arith, good)),
  )
]

check_workspaces_complete :
    (seen : List Text) (ws : List WorkspaceConfig)
    → ValidFrom seen ws
    → check_workspaces seen ws ≡ ok tt
unfolding check_workspaces
check_workspaces_complete seen [] h = refl
check_workspaces_complete seen (w ∷ rest) (id, new, members, h) = ground (
  arith,
  check_members_complete w.id w.members members,
  check_workspaces_complete (w.id ∷ seen) rest h,
)

-- The members entry of a configuration passes exactly if every workspace has a valid id of its own,
-- and every member a user id other than 0 and one of the three accesses.
pub check_workspaces_iff :
    (ws : List WorkspaceConfig) → (check_workspaces [] ws ≡ ok tt) ↔ ValidFrom [] ws
check_workspaces_iff ws = (check_workspaces-ok [] ws, check_workspaces_complete [] ws)

-- What the rest of the program relies on.
pub record IsLoaded (duration : Text → Option ℤ) (c : Config) : Type 0 where
  pub file_bytes : is_pos c.max_file_bytes ≡ true
  pub workspace_bytes : is_pos c.max_workspace_bytes ≡ true
  pub workspace_files : is_pos c.max_workspace_files ≡ true
  pub list_results : is_pos c.max_list_results ≡ true
  pub search_results : is_pos c.max_search_results ≡ true
  pub concurrency : is_pos c.max_office_concurrency ≡ true
  pub audit_bytes : is_pos c.audit_max_bytes ≡ true
  pub audit_backups : is_pos c.audit_max_backups ≡ true
  pub uncompressed : is_pos c.max_uncompressed_bytes ≡ true
  pub cache_entries : is_pos c.request_id_cache_entries ≡ true
  pub office_timeout : duration c.office_timeout ≢ none
  pub download_ttl : duration c.download_ttl ≢ none
  pub user_context_secret : trim_space c.mcp_user_context_secret ≢ []
  pub token : trim_space c.mcp_token ≢ []
  pub download_secret : trim_space c.download_secret ≢ []
  pub workspaces : ValidFrom [] c.workspaces

module _ (duration : Text → Option ℤ) where
  check_secrets-ok :
      (c : Config)
      → check_secrets c ≡ ok tt
      → (trim_space c.mcp_user_context_secret ≢ []) × (trim_space c.mcp_token ≢ [])
  unfolding check_secrets
  check_secrets-ok c h = (
    λ e. ground (arith, same_iff (trim_space c.mcp_user_context_secret) []),
    λ e. ground (arith, same_iff (trim_space c.mcp_token) []),
  )

  -- What the defaults and the durations settle.
  with_durations-ok :
      (raw c : Config)
      → with_durations duration (with_defaults raw) ≡ ok c
      → trim_space c.mcp_user_context_secret ≢ []
      → trim_space c.mcp_token ≢ []
      → ValidFrom [] c.workspaces
      → IsLoaded duration c
  unfolding with_durations with_defaults
  with_durations-ok raw c h secret token ws = elim (Option-cases (duration o)) [
    | inl e ↦ absurd (ground (arith, e))
    | inr (d, e) ↦ elim (Option-cases (duration t)) [
      | inl e' ↦ absurd (ground (arith, e, e'))
      | inr (d', e') ↦ elim (Option-cases (duration r)) [
        | inl e'' ↦ absurd (ground (arith, e, e', e''))
        | inr (d'', e'') ↦ record {
          file_bytes = ground (arith, e, e', e'');
          workspace_bytes = ground (arith, e, e', e'');
          workspace_files = ground (arith, e, e', e'');
          list_results = ground (arith, e, e', e'');
          search_results = ground (arith, e, e', e'');
          concurrency = ground (arith, e, e', e'');
          audit_bytes = ground (arith, e, e', e'');
          audit_backups = ground (arith, e, e', e'');
          uncompressed = ground (arith, e, e', e'');
          cache_entries = ground (arith, e, e', e'');
          office_timeout = λ n. ground (arith, e, e', e'');
          download_ttl = λ n. ground (arith, e, e', e'');
          user_context_secret = secret;
          token = token;
          download_secret =
              λ n. ground (arith, e, e', e'', same_iff (trim_space raw.download_secret) []);
          workspaces = ws;
        }
      ]
    ]
  ]
    where
      o : Text
      o = text_or raw.office_timeout (codes "60s")

      t : Text
      t = text_or raw.download_ttl (codes "15m")

      r : Text
      r = text_or raw.request_id_cache_ttl (codes "10m")

-- A configuration that `LoadConfig` returns, whatever the file and the environment hold: every limit
-- is positive, the timeouts can be parsed, the token and the secrets are not blank, and the workspaces
-- have distinct valid ids and valid members.
pub load_config-IsLoaded :
    (env : Text → Option Text) (duration : Text → Option ℤ) (raw c : Config)
    → load_config env duration raw ≡ ok c
    → IsLoaded duration c
unfolding load_config
load_config-IsLoaded env duration raw c h =
    elim (Result-cases (with_durations duration (with_defaults (apply_env env raw)))) [
      | inr (e, bad) ↦ absurd (ground (arith, bad))
      | inl (d, good) ↦ elim (Result-cases (check_secrets d)) [
        | inr (e, bad) ↦ absurd (ground (arith, good, bad))
        | inl (u, fine) ↦ elim (Result-cases (check_workspaces [] d.workspaces)) [
          | inr (e, bad) ↦ absurd (ground (arith, good, fine, bad))
          | inl (u', valid) ↦
              let (secret, token) = check_secrets-ok duration d fine in
              subst (IsLoaded duration) (ground (arith, good, fine, valid)) (
                with_durations-ok duration (apply_env env raw) d good secret token
                  (check_workspaces-ok [] d.workspaces valid))
        ]
      ]
    ]

ValidFrom-ValidIds :
    (seen : List Text) (ws : List WorkspaceConfig) → ValidFrom seen ws → ValidIds ws
ValidFrom-ValidIds seen [] h = tt
ValidFrom-ValidIds seen (w ∷ rest) (id, _, _, h) = (id, ValidFrom-ValidIds (w.id ∷ seen) rest h)

-- A loaded configuration has only ids that no private workspace has.
pub load_config-ValidIds :
    (env : Text → Option Text) (duration : Text → Option ℤ) (raw c : Config)
    → load_config env duration raw ≡ ok c
    → ValidIds c.workspaces
load_config-ValidIds env duration raw c h =
    ValidFrom-ValidIds [] c.workspaces (load_config-IsLoaded env duration raw c h).workspaces
