-- ===== src/Disk/Memory.antt =====
-- A disk in memory: the regular files and their contents. It has no links, and every directory.
pub mod Moves
pub mod Laws
use mathlib.Core.List.{append-nil}
use chat2work_mcp.Prelude.{
  Bool, true, not, ◌&&◌, if◌then◌else◌, same, same_iff, inl, inr, Bool-cases, ◌≡◌, ◌≢◌, ◌∙◌, refl,
  sym, ap, false, Option, none, some, List, [], ◌∷◌, ◌++◌, map, arith, length, All, Text, codes,
  has_prefix, Result, ok, err, Error, not_exist, failure, os as os_error,
}
use chat2work_mcp.Prelude.Map.{Key, lookup, insert, delete, lookup-insert, lookup-delete}
use chat2work_mcp.Paths.{AbsPath, View, FileInfo, same_path}
use chat2work_mcp.Paths.Parents.{IsPlain, same_path_iff}
use chat2work_mcp.Disk.{Os, Bytes, Entry}
use chat2work_mcp.Disk.Lawful.{Keeps, IsDirect, IsLawful, Made, Renamed}

instance abbrev pub path_key : Key AbsPath
path_key = record { eq = same_path; eq_iff = same_path_iff }

abbrev pub Disk : Type 0
Disk = List (AbsPath × Bytes)

abbrev pub info_of : Option Bytes → Result FileInfo
info_of none = err (os_error not_exist)
info_of (some bytes) = ok (record { size = length bytes; is_dir = false; is_symlink = false })

abbrev pub real_of : AbsPath → Option Bytes → Result AbsPath
real_of p none = err (os_error not_exist)
real_of p (some bytes) = ok p

abbrev pub bytes_of : Option Bytes → Result Bytes
bytes_of none = err (os_error not_exist)
bytes_of (some bytes) = ok bytes

abbrev pub opened : Option Bytes → Result (Unit {0})
opened none = err (os_error not_exist)
opened (some bytes) = ok tt

abbrev pub entry_of : AbsPath × Bytes → Entry
entry_of (p, bytes) = record {
  visit = record { path = p; failed = false; is_dir = false; size = some (length bytes) };
  failure = os_error not_exist;
  is_symlink = false;
}

abbrev pub temp_name : Text
temp_name = codes ".chat2work-1"

abbrev pub made_temp : AbsPath → Disk → Option Bytes → Result AbsPath × Disk
made_temp t d none = (ok t, insert t [] d)
made_temp t d (some _) = (err (os_error (failure 17)), d)

-- the rest of a path at or below another
abbrev pub below : AbsPath → AbsPath → Option AbsPath
below [] q = some q
below (x ∷ p) [] = none
below (x ∷ p) (y ∷ q) = if same x y then below p q else none

abbrev strictly : Option AbsPath → Bool
strictly none = false
strictly (some []) = false
strictly (some (x ∷ rest)) = true

-- No file is below the path.
abbrev pub bare : AbsPath → Disk → Bool
bare p [] = true
bare p ((q, bytes) ∷ d) = not (strictly (below p q)) && bare p d

-- It renames only a file with no other path's file below it or its new path.
abbrev pub renamed :
    AbsPath → AbsPath → Disk → Option Bytes → Option AbsPath → Bool → Result (Unit {0}) × Disk
renamed a b d (some bytes) none true = (ok tt, insert b bytes (delete a d))
renamed a b d (some bytes) none false = (err (os_error (failure 22)), d)
renamed a b d (some bytes) (some _) _ = (err (os_error (failure 22)), d)
renamed a b d none _ _ = (err (os_error not_exist), d)

abbrev pub view_of : Disk → View
view_of d = record {
  lstat = λ p. info_of (lookup p d);
  stat = λ p. info_of (lookup p d);
  eval_symlinks = λ p. real_of p (lookup p d);
}

abbrev pub memory : Os Disk
memory = record {
  view = view_of;
  walk = λ d root. map entry_of d;
  read_dir = λ d dir. ([], none);
  open_file = λ d p. opened (lookup p d);
  read_file = λ d p. bytes_of (lookup p d);
  mkdir_all = λ p d. (ok tt, d);
  create_temp = λ dir d. made_temp (dir ++ temp_name ∷ []) d (lookup (dir ++ temp_name ∷ []) d);
  create = λ p d. (ok tt, insert p [] d);
  write = λ p bytes d. (ok tt, insert p bytes d);
  chmod = λ p d. (ok tt, d);
  close = λ p d. (ok tt, d);
  rename = λ a b d. renamed a b d (lookup a d) (below a b) (bare a d && bare b d);
  remove = λ p d. (ok tt, delete p d);
}

abbrev pub content : Disk → AbsPath → Option Bytes
content d p = lookup p d

info_of-plain : (o : Option Bytes) (info : FileInfo) → info_of o ≡ ok info → info.is_symlink ≡ false
info_of-plain none info h = cc
info_of-plain (some bytes) info h = ground arith

abbrev pub Kept : List AbsPath → Disk → Disk → Type 0
Kept = Keeps memory content

pub all_plain : (d : Disk) (p : AbsPath) → IsPlain (view_of d) p
all_plain d p info h = info_of-plain (lookup p d) info h

pub kept :
    (touched : List AbsPath) (d d' : Disk)
    → ((q : AbsPath) → All (λ p. q ≢ p) touched → lookup q d' ≡ lookup q d)
    → Kept touched d d'
kept touched d d' same = record {
  same = same;
  plain = λ p h. all_plain d' p;
  links = λ q h l. all_plain d q;
}

pub unchanged : (d : Disk) → Kept [] d d
unchanged d = kept [] d d (λ q h. refl)

pub inserted : (p : AbsPath) (bytes : Bytes) (d : Disk) → Kept (p ∷ []) d (insert p bytes d)
inserted p bytes d =
    kept (p ∷ []) d (insert p bytes d)
      (λ q (ne, _). ground (arith, ne, same_path_iff p q, lookup-insert p q bytes d))

pub found : (p : AbsPath) (bytes : Bytes) (d : Disk) → lookup p (insert p bytes d) ≡ some bytes
found p bytes d = ground (arith, same_path_iff p p, lookup-insert p p bytes d)
