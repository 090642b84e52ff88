-- ===== src/Disk.antt =====
-- What internal/app/files.go and internal/app/server.go ask of package os, as functions on a disk.
-- An operation returns its error, if it fails, and the disk that it leaves, also where it fails.
pub mod Steps
pub mod Lawful
pub mod Keeping
pub mod Memory
use chat2work_mcp.Prelude.{
  ℕ, ◌≡◌, ◌≢◌, Bool, Option, none, some, List, [], ◌∷◌, ◌++◌, if◌then◌else◌, Text, Result, ok, err,
  Error, tool, not_found,
}
use chat2work_mcp.Paths.{AbsPath, View, is_not_exist}
use chat2work_mcp.Quota.{Visit}

-- the bytes of a file, or of a Go string that becomes one
abbrev pub Bytes : Type 0
Bytes = List ℕ

-- One call of a WalkDir callback: the error, where it failed, and whether the entry is a link.
pub record Entry : Type 0 where
  pub visit : Visit
  pub failure : Error
  pub is_symlink : Bool

-- A system call that may change the disk.
abbrev pub Call : Type 0 → Type 0 → Type 0
Call D A = D → Result A × D

-- `D` are the disks. `write` is io.Copy to an open file, `create` os.OpenFile with O_CREATE and
-- O_TRUNC, and `read_file` io.ReadAll of an open file. `walk` is what filepath.WalkDir visits, and
-- `read_dir` what os.ReadDir returns: the names and which of them are directories.
pub record Os (D : Type 0) : Type 0 where
  pub view : D → View
  pub walk : D → AbsPath → List Entry
  pub read_dir : D → AbsPath → List (Text × Bool) × Option Error
  pub open_file : D → AbsPath → Result (Unit {0})
  pub read_file : D → AbsPath → Result Bytes
  pub mkdir_all : AbsPath → Call D (Unit {0})
  pub create_temp : AbsPath → Call D AbsPath
  pub create : AbsPath → Call D (Unit {0})
  pub write : AbsPath → Bytes → Call D (Unit {0})
  pub chmod : AbsPath → Call D (Unit {0})
  pub close : AbsPath → Call D (Unit {0})
  pub rename : AbsPath → AbsPath → Call D (Unit {0})
  pub remove : AbsPath → Call D (Unit {0})

-- A method of the program: `none` if it never returns.
abbrev pub Action : Type 0 → Type 0 → Type 0
Action D A = D → Option (Result A × D)

module _ {D A : Type 0} where
  abbrev pub pure : A → Action D A
  pure a d = some (ok a, d)

  abbrev pub lift : Result A → Action D A
  lift r d = some (r, d)

  abbrev pub asks : (D → Result A) → Action D A
  asks f d = some (f d, d)

  abbrev pub call : Call D A → Action D A
  call c d = some (c d)

  -- `if err != nil { c(); return err }`
  unfoldable pub on_error : Call D (Unit {0}) → Action D A → Action D A
  on_error c m d = elim (m d) [
    | none ↦ none
    | some (r, d') ↦ elim r [ ok a ↦ some (ok a, d') | err e ↦ some (err e, (c d').1) ]
  ]

  -- `defer c()`, whose result is dropped
  unfoldable pub defer : Call D (Unit {0}) → Action D A → Action D A
  defer c m d = elim (m d) [ none ↦ none | some (r, d') ↦ some (r, (c d').1) ]

module _ {D A B : Type 0} where
  abbrev pub continue : (A → Action D B) → Option (Result A × D) → Option (Result B × D)
  continue f none = none
  continue f (some (ok a, d)) = f a d
  continue f (some (err e, d)) = some (err e, d)

  infixl 5 ◌>>=◌ ◌>>◌
  unfoldable pub ◌>>=◌ : Action D A → (A → Action D B) → Action D B
  ◌>>=◌ m f d = continue f (m d)

  abbrev pub ◌>>◌ : Action D A → Action D B → Action D B
  m >> n = m >>= λ _. n

-- `friendlyPathError`
abbrev pub friendly : Error → Error
friendly e = if is_not_exist e then tool not_found else e

abbrev pub friendly_path_error {ℓ} : {A : Type ℓ} → Result A → Result A
friendly_path_error (ok a) = ok a
friendly_path_error (err e) = err (friendly e)
