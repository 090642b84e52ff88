-- ===== src/Disk/Memory/Laws.antt =====
-- The disk in memory obeys what the program relies on of package os.
use mathlib.Core.List.{append-nil}
use chat2work_mcp.Prelude.{
  ◌≡◌, ◌∙◌, refl, sym, ap, false, Option, none, some, [], ◌∷◌, ◌++◌, arith, length, has_prefix, ok,
  err, not_exist, os as os_error,
}
use chat2work_mcp.Prelude.Map.{lookup, insert, delete, lookup-delete}
use chat2work_mcp.Paths.{AbsPath, FileInfo}
use chat2work_mcp.Paths.Parents.{same_path_iff}
use chat2work_mcp.Disk.{Bytes}
use chat2work_mcp.Disk.Lawful.{IsDirect, IsLawful, Made}
use chat2work_mcp.Disk.Memory.{
  path_key, Disk, info_of, real_of, bytes_of, temp_name, made_temp, view_of, memory, content, Kept,
  all_plain, kept, unchanged, inserted, found,
}
use chat2work_mcp.Disk.Memory.Moves.{moved_at, moved, others, move_failed}

made :
    (d : Disk) (dir : AbsPath) (o : Option Bytes)
    → lookup (dir ++ temp_name ∷ []) d ≡ o
    → Made memory content d dir
        (made_temp (dir ++ temp_name ∷ []) d o).0
        (made_temp (dir ++ temp_name ∷ []) d o).1
unfolding has_prefix
made d dir none h = (
  (temp_name, refl, refl),
  h,
  all_plain (insert (dir ++ temp_name ∷ []) [] d) (dir ++ temp_name ∷ []),
  inserted (dir ++ temp_name ∷ []) [] d,
)
made d dir (some _) h = unchanged d

there_is :
    (p real : AbsPath) (d : Disk) (o : Option Bytes)
    → lookup p d ≡ o
    → real_of p o ≡ ok real
    → (info : FileInfo) × (info_of (lookup real d) ≡ ok info)
there_is p real d none at h = cc
there_is p real d (some bytes) at h =
    let same_path : real ≡ p = cc in
    (
      record { size = length bytes; is_dir = false; is_symlink = false },
      ap (λ (x : AbsPath). info_of (lookup x d)) same_path ∙ ap info_of at,
    )

deleted : (p : AbsPath) (d : Disk) → (lookup p (delete p d) ≡ none) × Kept (p ∷ []) d (delete p d)
deleted p d = (
  ground (arith, same_path_iff p p, lookup-delete p p d),
  kept (p ∷ []) d (delete p d)
      (λ q (ne, _). ground (arith, ne, same_path_iff p q, lookup-delete p q d)),
)

real_of-eq : (p real : AbsPath) (o : Option Bytes) → real_of p o ≡ ok real → real ≡ p
real_of-eq p real none h = cc
real_of-eq p real (some _) h = cc

stat_of :
    (info : FileInfo) (bytes : Bytes) (o : Option Bytes)
    → o ≡ some bytes
    → info_of o ≡ ok info
    → (info.is_dir ≡ false) × (info.size ≡ length bytes)
stat_of info bytes none e h = cc
stat_of info bytes (some bytes') e h =
    let same_bytes : bytes' ≡ bytes = cc in (ground arith, ground (arith, ap (length) same_bytes))

bytes_of-eq : (bytes : Bytes) (o : Option Bytes) → bytes_of o ≡ ok bytes → o ≡ some bytes
bytes_of-eq bytes none h = cc
bytes_of-eq bytes (some _) h = cc

info_of-missing : (o : Option Bytes) → info_of o ≡ err (os_error not_exist) → o ≡ none
info_of-missing none h = refl
info_of-missing (some _) h = cc

pub memory-IsLawful : IsLawful memory content
memory-IsLawful = record {
  mkdir_all = λ d dir direct. unchanged d;
  create_temp = λ d dir direct. made d dir (lookup (dir ++ temp_name ∷ []) d) refl;
  create = λ d p direct. inserted p [] d;
  write = λ d p bytes direct. (found p bytes d, inserted p bytes d);
  chmod = λ d p. unchanged d;
  close = λ d p. unchanged d;
  rename = λ d dir dir' name name' bytes direct direct' h.
      moved d (dir ++ name ∷ []) (dir' ++ name' ∷ []) bytes (lookup (dir ++ name ∷ []) d) _ _ h;
  rename_others = λ d dir dir' name name' q direct direct' not_a not_b.
      others d (dir ++ name ∷ []) (dir' ++ name' ∷ []) q (lookup (dir ++ name ∷ []) d) _ _
        (λ e. not_a [] (e ∙ sym (append-nil (dir ++ name ∷ []))))
        (λ e. not_b [] (e ∙ sym (append-nil (dir' ++ name' ∷ []))));
  rename_moves = λ d dir dir' name name' rest direct direct' ne done.
      moved_at d (dir ++ name ∷ []) (dir' ++ name' ∷ []) rest (lookup (dir ++ name ∷ []) d) _ _ refl
        refl refl done;
  rename_failed = λ d a b e h. move_failed d a b e (lookup a d) _ _ h;
  eval_lstat = λ d p real h. there_is p real d (lookup p d) refl h;
  remove = λ d dir name direct. deleted (dir ++ name ∷ []) d;
  eval_symlinks = λ d p real h pre post cut. all_plain d pre;
  eval_direct = λ d p real direct h. real_of-eq p real (lookup p d) h;
  stat = λ d p info bytes e h. stat_of info bytes (lookup p d) e h;
  read_file = λ d p bytes direct h. bytes_of-eq bytes (lookup p d) h;
  lstat = λ d p h. info_of-missing (lookup p d) h;
}

pub all-IsDirect : (d : Disk) (p : AbsPath) → IsDirect (view_of d) p
all-IsDirect d p pre post cut = all_plain d pre
