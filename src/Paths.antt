-- ===== src/Paths.antt =====
-- internal/app/workspace.go, and what it uses of package path/filepath on Unix. An absolute path
-- that filepath.Clean has cleaned is the list of its components; its text is "/" and these joined by
-- "/".
pub mod Cleaning
pub mod Within
pub mod Parents
pub mod Missing
pub mod Isolation
pub mod Tests
use mathlib.Core.List.{reverse}
use chat2work_mcp.Prelude.{
  ℕ, zero, suc, Bool, true, false, ◌&&◌, ◌||◌, Option, none, some, List, [], ◌∷◌, ◌++◌,
  if◌then◌else◌, Text, codes, same, has_prefix, contains_any, split, Result, ok, err, OsError,
  not_exist, Error, os, absolute_path, path_escapes, symlink_path, symlink_escapes, invalid_tenant,
}

abbrev pub AbsPath : Type 0
AbsPath = List Text

abbrev pub dot : Text
dot = codes "."

abbrev pub dotdot : Text
dotdot = codes ".."

pub record CleanPath : Type 0 where
  pub rooted : Bool
  pub parts : List Text

-- One component behind those that are kept, which stand last one first. A ".." takes away the
-- component before it, is dropped at the root, and is kept at the start of a relative path.
unfoldable pub clean_step : Bool → List Text → Text → List Text
clean_step rooted [] part =
    if same part [] || same part dot
    then []
    else if same part dotdot
    then (if rooted then [] else dotdot ∷ [])
    else part ∷ []
clean_step rooted (top ∷ kept) part =
    if same part [] || same part dot
    then top ∷ kept
    else if same part dotdot
    then (if same top dotdot then dotdot ∷ top ∷ kept else kept)
    else part ∷ top ∷ kept

unfoldable pub clean_steps : Bool → List Text → List Text → List Text
clean_steps rooted kept [] = kept
clean_steps rooted kept (part ∷ rest) = clean_steps rooted (clean_step rooted kept part) rest

-- filepath.Clean
unfoldable pub clean : Text → CleanPath
clean path =
    let rooted = has_prefix (codes "/") path in
    record { rooted = rooted; parts = reverse (clean_steps rooted [] (split b'/' path)) }

-- filepath.Join(root, path) for an absolute root and the components of a path
unfoldable pub join : AbsPath → List Text → AbsPath
join root parts = reverse (clean_steps true (reverse root) parts)

-- filepath.Rel(base, target) for absolute paths: up from what only the base has
unfoldable pub ups : List Text → List Text → List Text
ups [] rest = rest
ups (b ∷ base) rest = dotdot ∷ ups base rest

unfoldable pub rel : AbsPath → AbsPath → List Text
unfolding ups
rel [] target = target
rel (b ∷ base) [] = ups (b ∷ base) []
rel (b ∷ base) (t ∷ target) = if same b t then rel base target else ups (b ∷ base) (t ∷ target)

-- `p == ".." || strings.HasPrefix(p, "../")`
unfoldable pub escapes : List Text → Bool
escapes [] = false
escapes (part ∷ rest) = same part dotdot

unfoldable pub same_path : AbsPath → AbsPath → Bool
same_path [] [] = true
same_path (a ∷ p) (b ∷ q) = same a b && same_path p q
same_path _ _ = false

-- os.FileInfo, as far as the program reads it
pub record FileInfo : Type 0 where
  pub size : ℕ
  pub is_dir : Bool
  pub is_symlink : Bool

-- What the operating system answers about its files at one moment.
pub record View : Type 0 where
  pub lstat : AbsPath → Result FileInfo
  pub stat : AbsPath → Result FileInfo
  pub eval_symlinks : AbsPath → Result AbsPath

-- errors.Is(err, os.ErrNotExist)
unfoldable pub is_not_exist : Error → Bool
is_not_exist (os not_exist) = true
is_not_exist _ = false

-- (*Workspace).Root without its os.MkdirAll: the directory of a workspace
unfoldable pub workspace_root : AbsPath → Text → Result AbsPath
workspace_root base tenant =
    if same tenant [] || contains_any tenant (codes "/\\")
    then err invalid_tenant
    else ok (join base (tenant ∷ []))

-- filepath.Dir, on the components last one first: the parent of "/" is "/"
unfoldable pub parent : List Text → List Text
parent [] = []
parent (part ∷ above) = above

-- The loop of `checkExistingParents` from `current`, whose components stand last one first. The
-- result is `none` if the loop still runs after `fuel` rounds.
unfoldable pub check_from : View → AbsPath → ℕ → List Text → Option (Result (Unit {0}))
unfolding parent same_path
check_from view root zero current = none
check_from view root (suc fuel) current =
    let more = check_from view root fuel (parent current) in
    let here = same_path (reverse current) root in
    elim (view.lstat (reverse current)) [
      | ok info ↦
          if info.is_symlink then some (err symlink_path) else if here then some (ok tt) else more
      | err e ↦ if here then some (ok tt) else if is_not_exist e then more else some (err e)
    ]

unfoldable pub check_existing_parents : View → ℕ → AbsPath → AbsPath → Option (Result (Unit {0}))
check_existing_parents view fuel root path = check_from view root fuel (parent (reverse path))

-- the end of the branch of `resolve` that allows a missing path
unfoldable pub after_parents : Option (Result (Unit {0})) → AbsPath → Option (Result AbsPath)
after_parents none full = none
after_parents (some (ok _)) full = some (ok full)
after_parents (some (err e)) full = some (err e)

unfoldable pub resolve_missing : View → ℕ → AbsPath → AbsPath → Option (Result AbsPath)
unfolding after_parents check_existing_parents
resolve_missing view fuel root full =
    let checked = after_parents (check_existing_parents view fuel root full) full in
    elim (view.lstat full) [
      | ok info ↦
          if info.is_symlink then some (err symlink_path) else elim (view.eval_symlinks full) [
            | ok real ↦ if escapes (rel root real) then some (err symlink_escapes) else checked
            | err e ↦ some (err e)
          ]
      | err e ↦ if is_not_exist e then checked else some (err e)
    ]

unfoldable pub resolve_existing : View → AbsPath → AbsPath → Result AbsPath
resolve_existing view root full = elim (view.eval_symlinks full) [
  | ok real ↦ if escapes (rel root real) then err symlink_escapes else ok real
  | err e ↦ err e
]

-- what `resolve` makes of an empty argument
abbrev pub or_dot : Text → Text
or_dot supplied = if same supplied [] then dot else supplied

-- `resolve`; `none` if the loop over the parents still runs after `fuel` rounds
unfoldable pub resolve : View → ℕ → AbsPath → Text → Bool → Option (Result AbsPath)
unfolding resolve_missing resolve_existing
resolve view fuel root supplied allow_missing =
    let path = or_dot supplied in
    let parts = (clean path).parts in
    let full = join root parts in
    if has_prefix (codes "/") path || has_prefix (codes "\\") path
    then some (err absolute_path)
    else if escapes parts
    then some (err path_escapes)
    else if escapes (rel root full)
    then some (err path_escapes)
    else if allow_missing
    then resolve_missing view fuel root full
    else some (resolve_existing view root full)
