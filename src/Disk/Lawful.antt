-- ===== src/Disk/Lawful.antt =====
-- What the program relies on of package os: which files each call may change.
use chat2work_mcp.Prelude.{
  ◌≡◌, ◌≢◌, Option, none, some, List, [], ◌∷◌, ◌++◌, length, true, false, codes, has_prefix, All,
  Text, Result, ok, err, Error, not_exist, os as os_error,
}
use chat2work_mcp.Paths.{AbsPath, View, FileInfo}
use chat2work_mcp.Paths.Parents.{IsPlain}
use chat2work_mcp.Disk.{Os, Bytes}

-- the pattern of os.CreateTemp in `Write`, before its "*"
abbrev pub temp_prefix : Text
temp_prefix = codes ".chat2work-"

-- Neither the directory nor any above it is a symbolic link.
abbrev pub IsDirect : View → AbsPath → Type 0
IsDirect view dir = (pre post : AbsPath) → dir ≡ pre ++ post → IsPlain view pre

module _ {D : Type 0} (os : Os D) (content : D → AbsPath → Option Bytes) where
  -- Only the listed paths may have other contents; no link has appeared, and none has gone at
  -- another path.
  pub record Keeps (touched : List AbsPath) (d d' : D) : Type 0 where
    pub same : (q : AbsPath) → All (λ p. q ≢ p) touched → content d' q ≡ content d q
    pub plain : (p : AbsPath) → IsPlain (os.view d) p → IsPlain (os.view d') p
    pub links :
        (q : AbsPath) → All (λ p. q ≢ p) touched → IsPlain (os.view d') q → IsPlain (os.view d) q

  abbrev pub Made : D → AbsPath → Result AbsPath → D → Type 0
  Made d dir (ok t) d' =
      ((name : Text) × (t ≡ dir ++ name ∷ []) × (has_prefix temp_prefix name ≡ true))
      × (content d t ≡ none)
      × IsPlain (os.view d') t
      × Keeps (t ∷ []) d d'
  Made d dir (err e) d' = Keeps [] d d'

  abbrev pub Filled : D → AbsPath → Bytes → Result (Unit {0}) → D → Type 0
  Filled d p bytes (ok _) d' = (content d' p ≡ some bytes) × Keeps (p ∷ []) d d'
  Filled d p bytes (err e) d' = Keeps (p ∷ []) d d'

  abbrev pub Renamed : D → AbsPath → AbsPath → Bytes → Result (Unit {0}) → D → Type 0
  Renamed d a b bytes (ok _) d' = (content d' b ≡ some bytes) × Keeps (a ∷ b ∷ []) d d'
  Renamed d a b bytes (err e) d' = Keeps [] d d'

  abbrev pub Removed : D → AbsPath → Result (Unit {0}) → D → Type 0
  Removed d p (ok _) d' = (content d' p ≡ none) × Keeps (p ∷ []) d d'
  Removed d p (err e) d' = Keeps [] d d'

  -- `content` is the content of the regular file at a path that leads through no link, or `none`; no
  -- file has two names. A call that fails midway may leave a part of what it writes, but touches no
  -- other file.
  pub record IsLawful : Type 0 where
    pub mkdir_all :
        (d : D) (dir : AbsPath) → IsDirect (os.view d) dir → Keeps [] d (os.mkdir_all dir d).1
    pub create_temp :
        (d : D) (dir : AbsPath)
        → IsDirect (os.view d) dir
        → Made d dir (os.create_temp dir d).0 (os.create_temp dir d).1
    pub create : (d : D) (p : AbsPath) → IsDirect (os.view d) p → Keeps (p ∷ []) d (os.create p d).1
    pub write :
        (d : D) (p : AbsPath) (bytes : Bytes)
        → IsDirect (os.view d) p
        → Filled d p bytes (os.write p bytes d).0 (os.write p bytes d).1
    pub chmod : (d : D) (p : AbsPath) → Keeps [] d (os.chmod p d).1
    pub close : (d : D) (p : AbsPath) → Keeps [] d (os.close p d).1
    pub rename :
        (d : D) (dir dir' : AbsPath) (name name' : Text) (bytes : Bytes)
        → IsDirect (os.view d) dir
        → IsDirect (os.view d) dir'
        → content d (dir ++ name ∷ []) ≡ some bytes
        → Renamed d
            (dir ++ name ∷ [])
            (dir' ++ name' ∷ [])
            bytes
            (os.rename (dir ++ name ∷ []) (dir' ++ name' ∷ []) d).0
            (os.rename (dir ++ name ∷ []) (dir' ++ name' ∷ []) d).1
    -- also where it moves a directory, both times for directories that are reached without links
    pub rename_others :
        (d : D) (dir dir' : AbsPath) (name name' : Text) (q : AbsPath)
        → IsDirect (os.view d) dir
        → IsDirect (os.view d) dir'
        → ((rest : AbsPath) → q ≢ (dir ++ name ∷ []) ++ rest)
        → ((rest : AbsPath) → q ≢ (dir' ++ name' ∷ []) ++ rest)
        → content (os.rename (dir ++ name ∷ []) (dir' ++ name' ∷ []) d).1 q ≡ content d q
    pub rename_moves :
        (d : D) (dir dir' : AbsPath) (name name' : Text) (rest : AbsPath)
        → IsDirect (os.view d) dir
        → IsDirect (os.view d) dir'
        → dir ++ name ∷ [] ≢ dir' ++ name' ∷ []
        → (os.rename (dir ++ name ∷ []) (dir' ++ name' ∷ []) d).0 ≡ ok tt
        → (content
              (os.rename (dir ++ name ∷ []) (dir' ++ name' ∷ []) d).1
              ((dir' ++ name' ∷ []) ++ rest)
            ≡ content d ((dir ++ name ∷ []) ++ rest))
          × (content
                (os.rename (dir ++ name ∷ []) (dir' ++ name' ∷ []) d).1
                ((dir ++ name ∷ []) ++ rest)
              ≡ none)
    pub rename_failed :
        (d : D) (a b : AbsPath) (e : Error)
        → (os.rename a b d).0 ≡ err e
        → Keeps [] d (os.rename a b d).1
    pub remove :
        (d : D) (dir : AbsPath) (name : Text)
        → IsDirect (os.view d) dir
        → Removed d
            (dir ++ name ∷ [])
            (os.remove (dir ++ name ∷ []) d).0
            (os.remove (dir ++ name ∷ []) d).1
    -- filepath.EvalSymlinks leaves no link in its result, and a path without links as it is.
    pub eval_symlinks :
        (d : D) (p real : AbsPath)
        → (os.view d).eval_symlinks p ≡ ok real
        → IsDirect (os.view d) real
    pub eval_direct :
        (d : D) (p real : AbsPath)
        → IsDirect (os.view d) p
        → (os.view d).eval_symlinks p ≡ ok real
        → real ≡ p
    -- What filepath.EvalSymlinks returns is there.
    pub eval_lstat :
        (d : D) (p real : AbsPath)
        → (os.view d).eval_symlinks p ≡ ok real
        → (info : FileInfo) × ((os.view d).lstat real ≡ ok info)
    -- A regular file is no directory, its size is that of its content, and reading gives it.
    pub stat :
        (d : D) (p : AbsPath) (info : FileInfo) (bytes : Bytes)
        → content d p ≡ some bytes
        → (os.view d).stat p ≡ ok info
        → (info.is_dir ≡ false) × (info.size ≡ length bytes)
    pub read_file :
        (d : D) (p : AbsPath) (bytes : Bytes)
        → IsDirect (os.view d) p
        → os.read_file d p ≡ ok bytes
        → content d p ≡ some bytes
    pub lstat :
        (d : D) (p : AbsPath) → (os.view d).lstat p ≡ err (os_error not_exist) → content d p ≡ none
