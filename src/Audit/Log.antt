-- ===== src/Audit/Log.antt =====
-- The log file of internal/app/audit.go with its backups. A text is its bytes.
use chat2work_mcp.Prelude.{
  ℕ, zero, suc, ◌+◌, ◌-◌, Bool, true, false, not, ◌&&◌, ◌||◌, Option, none, some, [], ◌∷◌, ◌++◌,
  if◌then◌else◌, Text, codes, same, length, Result, ok, err,
}
use chat2work_mcp.Prelude.Int.{ℤ, pos, is_pos, pos_part, ltb_ℤ}
use chat2work_mcp.Prelude.Decimal.{decimal}
use chat2work_mcp.Audit.{AuditEvent}

-- Package os for the log file. `open_log` is os.OpenFile with O_APPEND and O_CREATE and Stat: the size.
-- `append` returns how much it has written; the errors of the others are dropped.
pub record LogOs (D : Type 0) : Type 0 where
  pub open_log : Text → D → Result ℕ × D
  pub close_log : Text → D → D
  pub append : Text → Text → D → ℕ × D
  pub remove_log : Text → D → D
  pub rename_log : Text → Text → D → D

pub record Auditor : Type 0 where
  pub log_path : Text
  pub enabled : Bool
  pub is_open : Bool
  pub size : ℕ
  pub max_bytes : ℤ
  pub max_backups : ℤ

-- the log's path, and those of its backups from 1 on
unfoldable pub slot : Text → ℕ → Text
slot path zero = path
slot path (suc i) = path ++ (codes "." ++ decimal (suc i))

module _ {D : Type 0} (os : LogOs D) where
  abbrev opened : Auditor → Result ℕ × D → Result (Unit {0}) × Auditor × D
  opened a (ok size, d) = (ok tt, record a { is_open = true; size = size }, d)
  opened a (err e, d) = (err e, a, d)

  -- `open`
  unfoldable pub open_auditor : Auditor → D → Result (Unit {0}) × Auditor × D
  open_auditor a d = opened a (os.open_log a.log_path d)

  -- the loop of `rotate`, from backup `i` down to backup 1
  unfoldable pub shift : Text → ℕ → D → D
  unfolding slot
  shift path zero d = d
  shift path (suc i) d =
      shift path i (os.rename_log (slot path (suc i)) (slot path (suc (suc i))) d)

  -- the files of `rotate` before it opens the log again
  unfoldable pub backed_up : Text → ℤ → D → D
  unfolding shift
  backed_up path max_backups d =
      if is_pos max_backups
      then os.rename_log path (slot path 1) (
          shift path (pos_part max_backups - 1)
            (os.remove_log (slot path (pos_part max_backups)) d))
      else os.remove_log path d

  abbrev reopened : Result (Unit {0}) × Auditor × D → Auditor × D
  reopened (ok _, a, d) = (a, d)
  reopened (err e, a, d) = (record a { enabled = false }, d)

  unfoldable pub rotate : Auditor → D → Auditor × D
  unfolding backed_up open_auditor
  rotate a d = reopened (
      open_auditor (record a { is_open = false })
        (backed_up a.log_path a.max_backups (os.close_log a.log_path d)))

  abbrev pub appended : Text → Auditor × D → Auditor × D
  appended line (a, d) =
      if a.is_open
      then (
        record a { size = a.size + (os.append a.log_path line d).0 },
        (os.append a.log_path line d).1,
      )
      else (a, d)

  -- `Record` once the line is made
  unfoldable pub record_line : Text → Auditor → D → Auditor × D
  unfolding rotate
  record_line line a d = appended line (
      if is_pos a.max_bytes && ltb_ℤ a.max_bytes (pos (a.size + length line))
      then rotate a d
      else (a, d))

  -- `Record`; `marshal` is json.Marshal
  unfoldable pub record_event : (AuditEvent → Option Text) → AuditEvent → Auditor → D → Auditor × D
  unfolding record_line
  record_event marshal event a d =
      if not a.enabled || not a.is_open
      then (a, d)
      else elim (marshal event) [ none ↦ (a, d) | some line ↦ record_line (line ++ b'\n' ∷ []) a d ]

  abbrev started : Result (Unit {0}) × Auditor × D → Result Auditor × D
  started (ok _, a, d) = (ok (record a { enabled = true }), d)
  started (err e, a, d) = (err e, d)

  -- `NewAuditor`
  unfoldable pub new_auditor : Text → ℤ → ℤ → D → Result Auditor × D
  unfolding open_auditor
  new_auditor path max_bytes max_backups d =
      let a : Auditor = record {
        log_path = path;
        enabled = false;
        is_open = false;
        size = 0;
        max_bytes = max_bytes;
        max_backups = max_backups;
      } in
      if same path [] then (ok a, d) else started (open_auditor a d)
