-- ===== src/Files.antt =====
-- The file tools of internal/app/files.go, on a disk. `fuel` bounds the loop of `resolve`.
pub mod Occurrences
pub mod Replacing
pub mod Opening
pub mod Writing
pub mod Reading
pub mod Editing
pub mod Removing
pub mod Listing
pub mod Bounds
pub mod Searching
pub mod Moving
pub mod Tests
use mathlib.Core.List.{reverse}
use chat2work_mcp.Prelude.{
  ℕ, zero, suc, ◌+◌, ◌-◌, Bool, true, false, not, ◌&&◌, ◌||◌, Option, none, some, List, [], ◌∷◌,
  ◌++◌, map, leb, ltb, ◌==◌, length, take, if◌then◌else◌, Text, codes, same, has_prefix, Result, ok,
  err, Error, tool, reject_if, content_too_large, read_limit, file_exists, destination_exists,
  path_is_directory, path_not_directory, directory_deletion, empty_old_text, old_text_missing,
  old_text_ambiguous, deletion_disabled, needs_confirm, bad_pattern,
}
use chat2work_mcp.Prelude.Int.{ℤ, pos, pos_part, is_pos, ltb_ℤ, leb_ℤ, ◌+ℤ◌}
use chat2work_mcp.Paths.{
  AbsPath, View, FileInfo, parent, rel, resolve, same_path, workspace_root, is_not_exist,
}
use chat2work_mcp.Quota.{Files, Visit, enforce_quota}
use chat2work_mcp.Download.{base_name}
use chat2work_mcp.Disk.{
  Os, Entry, Bytes, Call, Action, pure, lift, asks, call, defer, on_error, ◌>>=◌, ◌>>◌,
  friendly_path_error,
}

-- filepath.Dir of an absolute path
unfoldable pub dir_of : AbsPath → AbsPath
unfolding parent
dir_of p = reverse (parent (reverse p))

-- a relative path as text
unfoldable pub slashed : List Text → Text
slashed [] = codes "."
slashed (part ∷ []) = part
slashed (part ∷ next ∷ rest) = part ++ b'/' ∷ slashed (next ∷ rest)

-- bytes.Contains
unfoldable pub contains_bytes : Bytes → Bytes → Bool
contains_bytes [] part = same part []
contains_bytes (c ∷ s) part = has_prefix part (c ∷ s) || contains_bytes s part

-- bytes.Count for a text that is not empty: `skip` more bytes belong to the last occurrence.
unfoldable pub count_from : Bytes → ℕ → Bytes → ℕ
count_from part skip [] = 0
count_from part (suc skip) (c ∷ s) = count_from part skip s
count_from part zero (c ∷ s) = elim (has_prefix part (c ∷ s)) [
  | true ↦ suc (count_from part (length part - 1) s)
  | false ↦ count_from part zero s
]

-- the bytes behind the first `n`
abbrev pub drop : ℕ → Bytes → Bytes
drop zero s = s
drop (suc n) [] = []
drop (suc n) (c ∷ s) = drop n s

-- strings.Replace(s, part, new, 1) for a `part` that is not empty
unfoldable pub replace_first : Bytes → Bytes → Bytes → Bytes
replace_first part new [] = []
replace_first part new (c ∷ s) =
    if has_prefix part (c ∷ s)
    then new ++ drop (length part) (c ∷ s)
    else c ∷ replace_first part new s

-- what `Edit` makes of the file's content
unfoldable pub edited : Bytes → Bytes → Bytes → Result Bytes
edited old_text new_text content =
    let count = count_from old_text zero content in
    if count == 0
    then err (tool old_text_missing)
    else if ltb 1 count
    then err (tool old_text_ambiguous)
    else ok (replace_first old_text new_text content)

-- the file's size before a write, and whether the file is new
abbrev pub existing : Result FileInfo → ℕ × Bool
existing (ok info) = (info.size, false)
existing (err _) = (0, true)

-- `Write` without overwrite: os.Lstat must fail, with ErrNotExist.
abbrev pub must_be_missing : Result FileInfo → Result (Unit {0})
must_be_missing (ok _) = err (tool file_exists)
must_be_missing (err e) = if is_not_exist e then ok tt else err e

module _ {D : Type 0} (os : Os D) where
  -- `Write` once the temporary file is there
  unfoldable pub fill : AbsPath → AbsPath → Bytes → Action D (Unit {0})
  fill tmp target content = do
    on_error (os.close tmp) (call (os.write tmp content))
    on_error (os.close tmp) (call (os.chmod tmp))
    call (os.close tmp)
    call (os.rename tmp target)

  -- `Write` from os.MkdirAll on, in the target's directory
  unfoldable pub replace_in : AbsPath → AbsPath → Bytes → Action D (Unit {0})
  unfolding fill
  replace_in dir target content = do
    call (os.mkdir_all dir)
    tmp ← call (os.create_temp dir)
    defer (os.remove tmp) (fill tmp target content)

  unfoldable pub replace_file : AbsPath → Bytes → Action D (Unit {0})
  unfolding replace_in
  replace_file target content = replace_in (dir_of target) target content

  -- os.Lstat of the destination must fail, in whatever way.
  unfoldable pub must_be_free : AbsPath → D → Result (Unit {0})
  must_be_free destination d = elim ((os.view d).lstat destination) [
    | ok _ ↦ err (tool destination_exists)
    | err _ ↦ ok tt
  ]

module _ {D : Type 0} (os : Os D) (fuel : ℕ) (f : Files) where
  -- (*Workspace).Root
  unfoldable pub root_of : Text → Action D AbsPath
  root_of tenant = do
    root ← lift (workspace_root f.base tenant)
    call (os.mkdir_all root)
    pure root

  -- `resolve` with the disk's answers, and its error for the user
  unfoldable pub resolved : AbsPath → Text → Bool → Action D AbsPath
  resolved root path allow_missing d = elim (resolve (os.view d) fuel root path allow_missing) [
    | none ↦ none
    | some r ↦ some (friendly_path_error r, d)
  ]

  -- the limit of `Read`
  abbrev pub read_max : ℤ → ℤ
  read_max max_bytes =
      if not (is_pos max_bytes) || ltb_ℤ f.max_bytes max_bytes then f.max_bytes else max_bytes

  abbrev pub limited : ℤ → Bytes → Bytes
  limited max bytes = take (pos_part (max +ℤ pos 1)) bytes

  -- `Read` of a path that is resolved
  unfoldable pub read_at : AbsPath → ℤ → D → Result Bytes
  read_at target max d = elim ((os.view d).stat target) [
    | err e ↦ friendly_path_error (err e)
    | ok info ↦
        if info.is_dir
        then err (tool path_is_directory)
        else if ltb_ℤ max (pos info.size)
        then err (tool read_limit)
        else elim (os.open_file d target) [
          | err e ↦ friendly_path_error (err e)
          | ok _ ↦ elim (os.read_file d target) [
            | err e ↦ err e
            | ok bytes ↦ ok (limited max bytes)
          ]
        ]
  ]

  unfoldable pub read : Text → Text → ℤ → Action D Bytes
  unfolding root_of resolved
  read tenant path max_bytes = do
    root ← root_of tenant
    target ← resolved root path false
    asks (read_at target (read_max max_bytes))

  -- the checks of `Write` on its target
  unfoldable pub may_write : AbsPath → AbsPath → Bytes → Bool → D → Result (Unit {0})
  may_write root target content overwrite d =
      let (size, is_new) = existing ((os.view d).stat target) in
      let quota =
        enforce_quota f (map (λ e. e.visit) (os.walk d root)) (length content) size is_new in
      if overwrite
      then quota
      else elim (must_be_missing ((os.view d).lstat target)) [ err e ↦ err e | ok _ ↦ quota ]

  unfoldable pub write : Text → Text → Bytes → Bool → Action D (Unit {0})
  unfolding root_of resolved may_write replace_file
  write tenant path content overwrite = do
    lift (reject_if (ltb_ℤ f.max_bytes (pos (length content))) (tool content_too_large))
    root ← root_of tenant
    target ← resolved root path true
    asks (may_write root target content overwrite)
    replace_file os target content

  unfoldable pub edit : Text → Text → Bytes → Bytes → Action D (Unit {0})
  unfolding read write edited
  edit tenant path old_text new_text = do
    lift (reject_if (same old_text []) (tool empty_old_text))
    content ← read tenant path f.max_bytes
    content' ← lift (edited old_text new_text content)
    write tenant path content' true

  unfoldable pub move : Text → Text → Text → Action D (Unit {0})
  unfolding root_of resolved must_be_free
  move tenant src dst = do
    root ← root_of tenant
    source ← resolved root src false
    destination ← resolved root dst true
    asks (must_be_free os destination)
    call (os.mkdir_all (dir_of destination))
    call (os.rename source destination)

  unfoldable pub delete_file : Text → Text → Bool → Action D (Unit {0})
  unfolding root_of resolved
  delete_file tenant path confirm = do
    lift (reject_if (not f.delete_enabled) (tool deletion_disabled))
    lift (reject_if (not confirm) (tool needs_confirm))
    root ← root_of tenant
    target ← resolved root path false
    info ← asks (λ d. friendly_path_error ((os.view d).stat target))
    lift (reject_if info.is_dir (tool directory_deletion))
    call (os.remove target)
