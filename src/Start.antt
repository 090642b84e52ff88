-- ===== src/Start.antt =====
-- `New` of internal/app/server.go: the parts of the server from a configuration.
pub mod Apart
pub mod Tests
use chat2work_mcp.Prelude.{ℕ, Option, none, some, Text, Result, ok, err}
use chat2work_mcp.Prelude.Int.{ℤ, pos}
use chat2work_mcp.Paths.{AbsPath}
use chat2work_mcp.Config.{Config}
use chat2work_mcp.Access.{new_access_manager}
use chat2work_mcp.Auth.{Codec}
use chat2work_mcp.Quota.{Files}
use chat2work_mcp.Download.{DownloadSigner, new_download_signer}
use chat2work_mcp.Idempotency.{Limits, new_request_id_cache}
use chat2work_mcp.Server.{App}
use chat2work_mcp.Audit.Log.{LogOs, Auditor, new_auditor}

-- the parts that `New` puts together; OfficeCLI and the logger are outside the model
pub record Service : Type 0 where
  pub app : App
  pub files : Files
  pub downloads : DownloadSigner
  pub audit : Auditor
  pub request_ids : Limits

-- `d, _ := time.ParseDuration(text)`
abbrev pub or_zero : Option ℤ → ℤ
or_zero none = pos 0
or_zero (some d) = d

-- `DownloadDuration` and `RequestIDCacheDuration`; `parse` is time.ParseDuration
unfoldable pub download_duration : (Text → Option ℤ) → Config → ℤ
download_duration parse c = or_zero (parse c.download_ttl)

unfoldable pub request_id_cache_duration : (Text → Option ℤ) → Config → ℤ
request_id_cache_duration parse c = or_zero (parse c.request_id_cache_ttl)

module _ (parse : Text → Option ℤ) (codec : Codec) (scan : Text → Option ℕ) where
  -- the value that `New` returns, with the workspace's absolute path
  unfoldable pub service_of : Config → AbsPath → Auditor → Service
  unfolding download_duration request_id_cache_duration
  service_of c base auditor = record {
    app = record { config = c; access = new_access_manager c; codec = codec; scan = scan };
    files = record {
      base = base;
      max_bytes = c.max_file_bytes;
      max_workspace_bytes = c.max_workspace_bytes;
      max_workspace_files = c.max_workspace_files;
      delete_enabled = c.delete_enabled;
    };
    downloads =
        new_download_signer c.download_secret c.download_base_url (download_duration parse c);
    audit = auditor;
    request_ids =
        new_request_id_cache (request_id_cache_duration parse c) c.request_id_cache_entries;
  }

  module _ {D : Type 0} (os : LogOs D) (abs : Text → Result AbsPath) where
    abbrev with_audit : Config → AbsPath → Result Auditor × D → Result Service × D
    with_audit c base (ok auditor, d) = (ok (service_of c base auditor), d)
    with_audit c base (err e, d) = (err e, d)

    -- `New`; `abs` is filepath.Abs
    unfoldable pub new_service : Config → D → Result Service × D
    unfolding service_of
    new_service c d = elim (abs c.workspace_root) [
      | err e ↦ (err e, d)
      | ok base ↦
          with_audit c base
            (new_auditor os c.audit_log_path c.audit_max_bytes c.audit_max_backups d)
    ]
