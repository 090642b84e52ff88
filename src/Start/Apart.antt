-- ===== src/Start/Apart.antt =====
-- A server that runs on a loaded configuration keeps workspaces apart.
use chat2work_mcp.Prelude.{
  ℕ, ◌<◌, ◌^◌, ◌-◌, ◌≡◌, ◌≢◌, refl, Option, ◌∷◌, ◌++◌, Text, Result, Result-cases, ok, err, Error,
  inl, inr,
}
use chat2work_mcp.Prelude.Int.{ℤ, pos_part}
use chat2work_mcp.Paths.{AbsPath, workspace_root}
use chat2work_mcp.Config.{Config}
use chat2work_mcp.Config.Load.{load_config}
use chat2work_mcp.Config.Valid.{load_config-ValidIds}
use chat2work_mcp.Access.{WorkspaceGrant}
use chat2work_mcp.Auth.{Codec}
use chat2work_mcp.Disk.{Os, Bytes}
use chat2work_mcp.Disk.Steps.{After}
use chat2work_mcp.Disk.Lawful.{IsDirect, IsLawful}
use chat2work_mcp.Server.{CallToolRequest}
use chat2work_mcp.Tools.{FileCall, handle}
use chat2work_mcp.Tools.Calls.{grant_for, TargetsFile, handle-apart}
use chat2work_mcp.Audit.Log.{LogOs, Auditor, new_auditor}
use chat2work_mcp.Start.{Service, service_of, with_audit, new_service}

module _ (parse : Text → Option ℤ) (codec : Codec) (scan : Text → Option ℕ) {L : Type 0}
    (logs : LogOs L) (abs : Text → Result AbsPath) where
  with_audit-ok :
      (c : Config) (base : AbsPath) (r : Result Auditor × L) (s : Service)
      → (with_audit parse codec scan logs abs c base r).0 ≡ ok s
      → (auditor : Auditor) × (service_of parse codec scan c base auditor ≡ s)
  with_audit-ok c base (ok auditor, l) s h = (auditor, cc)
  with_audit-ok c base (err e, l) s h = cc

  new_service-ok :
      (c : Config) (l : L) (s : Service)
      → (new_service parse codec scan logs abs c l).0 ≡ ok s
      → (base : AbsPath) × (auditor : Auditor) × (service_of parse codec scan c base auditor ≡ s)
  unfolding new_service
  new_service-ok c l s h = elim (Result-cases (abs c.workspace_root)) [
    | inr (e, bad) ↦ absurd (not_ok e s (rw (bad, new_service) at h))
    | inl (base, at) ↦
        let (auditor, built) =
          with_audit-ok c base
            (new_auditor logs c.audit_log_path c.audit_max_bytes c.audit_max_backups l) s
            (rw (at, new_service) at h) in
        (base, auditor, built)
  ]
    where
      not_ok : (e : Error) (s : Service) → err e ≡ ok s → ⊥
      not_ok e s h = cc

  module _ {D : Type 0} (os : Os D) (content : D → AbsPath → Option Bytes)
      (lawful : IsLawful os content) (fuel : ℕ) where
    -- A server that `New` puts together from a configuration that `LoadConfig` returns, whatever the file
    -- and the environment hold. The operating system obeys IsLawful, a call of fs_write, fs_edit, fs_move
    -- or fs_delete is granted a workspace, no link leads to its directory, the path that the call creates
    -- or replaces is below it with enough fuel and does not begin with ".chat2work-", and the size limit
    -- is below 2^63 - 1. Then the call returns, and no file in the directory of another workspace has
    -- changed.
    pub served-apart :
        (env : Text → Option Text) (raw c : Config) (l : L) (s : Service) (now : ℤ)
        (req : CallToolRequest) (call : FileCall) (g : WorkspaceGrant) (root : AbsPath) (d : D)
        (other : Text) (rest : AbsPath)
        → load_config env parse raw ≡ ok c
        → (new_service parse codec scan logs abs c l).0 ≡ ok s
        → grant_for s.app now req call ≡ ok g
        → workspace_root s.files.base g.id ≡ ok root
        → IsDirect (os.view d) root
        → TargetsFile fuel call
        → pos_part c.max_file_bytes < 2 ^ 63 - 1
        → other ≢ g.id
        → After (handle os fuel s.files s.app now req call d) (λ _ d'.
          content d' (s.files.base ++ other ∷ rest) ≡ content d (s.files.base ++ other ∷ rest))
    unfolding service_of
    served-apart env raw c l s now req call g root d other rest loaded new h at direct t small
          apart =
        let (base, auditor, built) = new_service-ok c l s new in
        handle-apart os content lawful fuel s.files s.app now req call g root d other rest
          (rw (← built) refl) (rw (← built) (load_config-ValidIds env parse raw c loaded)) h at
          direct t (rw (← built) small) apart
