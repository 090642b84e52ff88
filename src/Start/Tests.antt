-- ===== src/Start/Tests.antt =====
-- The sample configuration, served over stdio on a disk in memory.
use chat2work_mcp.Prelude.{
  ◌≡◌, refl, arith, false, Option, none, some, [], ◌∷◌, ◌++◌, Text, codes, same, trim_space,
  has_prefix, split, Result, ok,
}
use chat2work_mcp.Prelude.Int.{ℤ, pos}
use chat2work_mcp.Prelude.Decimal.{decimal}
use chat2work_mcp.Prelude.Map.{lookup, insert}
use chat2work_mcp.Config.{Config}
use chat2work_mcp.Config.Env.{apply_env}
use chat2work_mcp.Config.Load.{
  with_defaults, with_durations, check_secrets, check_workspaces, load_config,
}
use chat2work_mcp.Config.Sample.{config, team_grant}
use chat2work_mcp.Access.{
  add_member, add_members, new_access_manager, grant, can_write, can_delete, valid_workspace_id,
  valid_access,
}
use chat2work_mcp.Paths.{AbsPath, workspace_root, clean, clean_steps, clean_step}
use chat2work_mcp.Server.{app_grant}
use chat2work_mcp.Disk.Steps.{After}
use chat2work_mcp.Disk.Memory.{Disk, memory, content}
use chat2work_mcp.Disk.Memory.Laws.{memory-IsLawful, all-IsDirect}
use chat2work_mcp.Tools.{FileCall, write_call, handle}
use chat2work_mcp.Tools.Sample.{app, request, team_root}
use chat2work_mcp.Tools.Calls.{IsBelow, grant_for}
use chat2work_mcp.Audit.Log.{LogOs, Auditor, new_auditor}
use chat2work_mcp.Start.{Service, service_of, new_service}
use chat2work_mcp.Start.Apart.{served-apart}

abbrev no_env : Text → Option Text
no_env name = none

abbrev parse : Text → Option ℤ
parse text = some (pos 1)

abbrev raw : Config
raw = record config { stdio_tenant_id = codes "7" }

abbrev loaded : Config
loaded = record raw {
  listen_addr = codes ":8090";
  log_level = codes "info";
  officecli_path = codes "officecli";
  office_timeout = codes "60s";
  audit_max_bytes = pos 52428800;
  audit_max_backups = pos 5;
  download_ttl = codes "15m";
  download_secret = codes "s";
  request_id_cache_ttl = codes "10m";
}

loads : load_config no_env parse raw ≡ ok loaded
unfolding load_config with_durations with_defaults check_secrets check_workspaces apply_env
    valid_workspace_id valid_access same trim_space has_prefix
loads = refl

abbrev no_logs : LogOs (Unit {0})
no_logs = record {
  open_log = λ p d. (ok 0, d);
  close_log = λ p d. d;
  append = λ p line d. (0, d);
  remove_log = λ p d. d;
  rename_log = λ a b d. d;
}

abbrev absolute : Text → Result AbsPath
absolute path = ok (codes "d" ∷ [])

abbrev silent : Auditor
silent = record {
  log_path = [];
  enabled = false;
  is_open = false;
  size = 0;
  max_bytes = pos 52428800;
  max_backups = pos 5;
}

abbrev service : Service
service = service_of parse app.codec app.scan loaded (codes "d" ∷ []) silent

starts : (new_service parse app.codec app.scan no_logs absolute loaded tt).0 ≡ ok service
unfolding new_service new_auditor same
starts = refl

abbrev disk : Disk
disk = (codes "d" ∷ codes "user-8" ∷ codes "x" ∷ [], codes "secret") ∷ []

abbrev written : FileCall
written =
    write_call (record {
      workspace = codes "team";
      path = codes "b";
      content = codes "y";
      overwrite = false;
    })

granted_team : grant_for service.app (pos 0) request written ≡ ok team_grant
unfolding service_of app_grant grant new_access_manager add_members add_member lookup insert same
    decimal can_write can_delete
granted_team = refl

below : IsBelow 9 (codes "b")
unfolding clean clean_steps clean_step split same has_prefix
below = record { pre = []; name = codes "b"; parts = refl; visible = refl; enough = omega arith }

base_root : workspace_root service.files.base team_grant.id ≡ ok (codes "d" ∷ codes "team" ∷ [])
unfolding service_of
base_root = team_root

served-apart_example :
    After (handle memory 9 service.files service.app (pos 0) request written disk) (λ _ d'.
      content d' (service.files.base ++ codes "user-8" ∷ codes "x" ∷ [])
      ≡ content disk (service.files.base ++ codes "user-8" ∷ codes "x" ∷ []))
served-apart_example =
    served-apart parse app.codec app.scan no_logs absolute memory content memory-IsLawful 9 no_env
      raw loaded tt service (pos 0) request written team_grant (codes "d" ∷ codes "team" ∷ []) disk
      (codes "user-8") (codes "x" ∷ []) loads starts granted_team base_root
      (all-IsDirect disk (codes "d" ∷ codes "team" ∷ [])) below (omega arith) (λ e. cc)
