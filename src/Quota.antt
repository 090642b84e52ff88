-- ===== src/Quota.antt =====
-- The quota checks of internal/app/files.go. What filepath.WalkDir visits is the list of the calls
-- of its callback, in their order; sizes and counts are int64 and int of 64 bits.
pub mod Totals
pub mod Writes
pub mod Outputs
pub mod Tests
use chat2work_mcp.Prelude.{
  ℕ, Bool, true, false, not, ◌&&◌, ◌||◌, Option, none, some, List, [], ◌∷◌, if◌then◌else◌, Result,
  ok, err, Error, storage_quota, file_count_quota, ◌>>=◌,
}
use chat2work_mcp.Prelude.Int.{ℤ, pos, ltb_ℤ, leb_ℤ, is_pos, ◌+ℤ◌, ◌-ℤ◌}
use chat2work_mcp.Paths.{AbsPath, FileInfo, same_path}

-- the fields of `Files`; `base` is that of its `workspace`
pub record Files : Type 0 where
  pub base : AbsPath
  pub max_bytes : ℤ
  pub max_workspace_bytes : ℤ
  pub max_workspace_files : ℤ
  pub delete_enabled : Bool

-- One call of a WalkDir callback: `size` is that of `d.Info()`, if it succeeds.
pub record Visit : Type 0 where
  pub path : AbsPath
  pub failed : Bool
  pub is_dir : Bool
  pub size : Option ℕ

abbrev is_excluded : Option AbsPath → AbsPath → Bool
is_excluded none path = false
is_excluded (some excluded) path = same_path path excluded

-- The size that a visit adds, or `none` where the callback returns before it adds one. The walk
-- without an excluded path passes "", which no path is.
unfoldable pub counted : Option AbsPath → Visit → Option ℕ
counted excluded v = if v.failed || (is_excluded excluded v.path || v.is_dir) then none else v.size

-- `usageExcluding` from given sums; the walk stops at the first file that passes a cap
unfoldable pub usage_from : Files → Option AbsPath → ℤ → ℤ → List Visit → ℤ × ℤ
usage_from f excluded bytes count [] = (bytes, count)
usage_from f excluded bytes count (v ∷ rest) = elim (counted excluded v) [
  | none ↦ usage_from f excluded bytes count rest
  | some size ↦
      let more = usage_from f excluded (bytes +ℤ pos size) (count +ℤ pos 1) rest in
      if is_pos f.max_workspace_bytes && ltb_ℤ f.max_workspace_bytes (bytes +ℤ pos size)
      then (bytes +ℤ pos size, count +ℤ pos 1)
      else if is_pos f.max_workspace_files && ltb_ℤ f.max_workspace_files (count +ℤ pos 1)
      then (bytes +ℤ pos size, count +ℤ pos 1)
      else more
]

unfoldable pub usage : Files → List Visit → ℤ × ℤ
usage f visits = usage_from f none (pos 0) (pos 0) visits

-- `usageExactExcluding` from given sums
unfoldable pub exact_from : Option AbsPath → ℤ → ℤ → List Visit → ℤ × ℤ
exact_from excluded bytes count [] = (bytes, count)
exact_from excluded bytes count (v ∷ rest) = elim (counted excluded v) [
  | none ↦ exact_from excluded bytes count rest
  | some size ↦ exact_from excluded (bytes +ℤ pos size) (count +ℤ pos 1) rest
]

unfoldable pub usage_exact_excluding : AbsPath → List Visit → ℤ × ℤ
usage_exact_excluding excluded visits = exact_from (some excluded) (pos 0) (pos 0) visits

-- `f.maxWorkspaceBytes <= 0 && f.maxWorkspaceFiles <= 0`
abbrev pub no_caps : Files → Bool
no_caps f = not (is_pos f.max_workspace_bytes) && not (is_pos f.max_workspace_files)

unfoldable pub enforce_quota : Files → List Visit → ℕ → ℕ → Bool → Result (Unit {0})
enforce_quota f visits new_size existing_size is_new =
    let (used, count) = usage f visits in
    if no_caps f
    then ok tt
    else if is_pos f.max_workspace_bytes
        && ltb_ℤ f.max_workspace_bytes (used -ℤ pos existing_size +ℤ pos new_size)
    then err storage_quota
    else if is_new && (is_pos f.max_workspace_files && leb_ℤ f.max_workspace_files count)
    then err file_count_quota
    else ok tt

unfoldable pub check_write_allowed : Files → List Visit → Bool → Result (Unit {0})
check_write_allowed f visits is_new =
    let (used, count) = usage f visits in
    if no_caps f
    then ok tt
    else if is_pos f.max_workspace_bytes && ltb_ℤ f.max_workspace_bytes used
    then err storage_quota
    else if is_new && (is_pos f.max_workspace_files && leb_ℤ f.max_workspace_files count)
    then err file_count_quota
    else ok tt

-- the end of `CheckOfficeOutputAllowed`, once the sizes are known
unfoldable pub check_output_sizes : Files → List Visit → AbsPath → ℕ → ℕ → Bool → Result (Unit {0})
check_output_sizes f visits output_path existing_size output_size is_new =
    let (used, count) = usage_exact_excluding output_path visits in
    if is_pos f.max_workspace_bytes
      && ltb_ℤ f.max_workspace_bytes (used -ℤ pos existing_size +ℤ pos output_size)
    then err storage_quota
    else if is_new && (is_pos f.max_workspace_files && ltb_ℤ f.max_workspace_files (count +ℤ pos 1))
    then err file_count_quota
    else ok tt

-- `stat` is os.Stat, and `visits` is the walk of the workspace.
unfoldable pub check_office_output_allowed :
    Files → (AbsPath → Result FileInfo) → List Visit → AbsPath → AbsPath → Bool → Result (Unit {0})
check_office_output_allowed f stat visits existing_path output_path is_new =
    if no_caps f then ok tt else do
      output ← stat output_path
      existing ← if is_new then ok 0 else (do info ← stat existing_path; ok info.size)
      check_output_sizes f visits output_path existing output.size is_new
