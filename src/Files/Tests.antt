-- ===== src/Files/Tests.antt =====
-- The file tools on a disk in memory with two workspaces.
use chat2work_mcp.Prelude.{
  ◌≡◌, refl, true, false, some, [], ◌∷◌, ◌++◌, arith, codes, same, split, has_prefix, contains_any,
  contains_rune, ok, err, tool, path_not_directory,
}
use chat2work_mcp.Prelude.Int.{pos, ◌+ℤ◌, ◌-ℤ◌, int64}
use chat2work_mcp.Prelude.Map.{lookup, insert, delete}
use chat2work_mcp.Paths.{
  AbsPath, workspace_root, resolve, clean, clean_steps, clean_step, join, escapes, rel, same_path,
  check_from, is_not_exist,
}
use chat2work_mcp.Paths.Missing.{parts_of}
use chat2work_mcp.Quota.{Files, enforce_quota, usage, usage_from, counted}
use chat2work_mcp.Disk.{◌>>=◌, on_error, defer}
use chat2work_mcp.Disk.Steps.{After}
use chat2work_mcp.Disk.Lawful.{temp_prefix}
use chat2work_mcp.Disk.Memory.{Disk, memory, content}
use chat2work_mcp.Disk.Memory.Laws.{memory-IsLawful, all-IsDirect}
use chat2work_mcp.Files.{
  read_at, contains_bytes, slashed, read, write, edit, move, delete_file, dir_of, count_from,
  replace_first,
}
use chat2work_mcp.Files.Listing.{list_files}
use chat2work_mcp.Files.Searching.{search_files}
use chat2work_mcp.Files.Reading.{Capped, read-Capped}
use chat2work_mcp.Files.Writing.{Wrote, write-Wrote}
use chat2work_mcp.Files.Editing.{Edited, edit-Edited}
use chat2work_mcp.Files.Removing.{Deleted, delete_file-Deleted}
use chat2work_mcp.Files.Bounds.{Listed, search_files-Listed}
use chat2work_mcp.Files.Moving.{Moved, move-Moved}

abbrev f : Files
f = record {
  base = codes "d" ∷ [];
  max_bytes = pos 100;
  max_workspace_bytes = pos 1000;
  max_workspace_files = pos 5;
  delete_enabled = true;
}

abbrev root : AbsPath
root = codes "d" ∷ codes "w" ∷ []

abbrev path_a : AbsPath
path_a = root ++ codes "a" ∷ []

abbrev path_b : AbsPath
path_b = root ++ codes "b" ∷ []

abbrev disk : Disk
disk = (path_a, codes "one two") ∷ []

root_eq : workspace_root (codes "d" ∷ []) (codes "w") ≡ ok root
unfolding workspace_root same contains_any contains_rune join clean_steps clean_step
root_eq = refl

parts_a : parts_of (codes "a") ≡ [] ++ codes "a" ∷ []
unfolding clean clean_steps clean_step split same has_prefix
parts_a = refl

parts_b : parts_of (codes "b") ≡ [] ++ codes "b" ∷ []
unfolding clean clean_steps clean_step split same has_prefix
parts_b = refl

visible_a : has_prefix temp_prefix (codes "a") ≡ false
unfolding has_prefix
visible_a = refl

visible_b : has_prefix temp_prefix (codes "b") ≡ false
unfolding has_prefix
visible_b = refl

reads : read memory 9 f (codes "w") (codes "a") (pos 0) disk ≡ some (ok (codes "one two"), disk)
unfolding read read_at ◌>>=◌ resolve clean clean_steps clean_step split same has_prefix
    workspace_root contains_any contains_rune join escapes rel lookup same_path ◌+ℤ◌ int64
reads = refl

writes :
    write memory 9 f (codes "w") (codes "b") (codes "x") false disk
    ≡ some (ok tt, (path_a, codes "one two") ∷ (path_b, codes "x") ∷ [])
unfolding write ◌>>=◌ on_error defer resolve check_from clean clean_steps clean_step split same
    has_prefix workspace_root contains_any contains_rune join escapes rel lookup insert delete
    same_path ◌+ℤ◌ ◌-ℤ◌ int64 is_not_exist enforce_quota usage usage_from counted dir_of
writes = refl

edits :
    edit memory 9 f (codes "w") (codes "a") (codes "two") (codes "2") disk
    ≡ some (ok tt, (path_a, codes "one 2") ∷ [])
unfolding edit read_at ◌>>=◌ on_error defer resolve check_from clean clean_steps clean_step split
    same has_prefix workspace_root contains_any contains_rune join escapes rel lookup insert delete
    same_path ◌+ℤ◌ ◌-ℤ◌ int64 is_not_exist enforce_quota usage usage_from counted dir_of count_from
    replace_first
edits = refl

moves :
    move memory 9 f (codes "w") (codes "a") (codes "b") disk
    ≡ some (ok tt, (path_b, codes "one two") ∷ [])
unfolding move ◌>>=◌ resolve check_from clean clean_steps clean_step split same has_prefix
    workspace_root contains_any contains_rune join escapes rel lookup insert delete same_path
    is_not_exist dir_of
moves = refl

deletes : delete_file memory 9 f (codes "w") (codes "a") true disk ≡ some (ok tt, [])
unfolding delete_file ◌>>=◌ resolve clean clean_steps clean_step split same has_prefix
    workspace_root contains_any contains_rune join escapes rel lookup delete same_path
deletes = refl

lists :
    list_files memory 9 f (codes "w") (codes "a") true (pos 1) disk
    ≡ some (err (tool path_not_directory), disk)
unfolding list_files ◌>>=◌ resolve clean clean_steps clean_step split same has_prefix workspace_root
    contains_any contains_rune join escapes rel lookup same_path
lists = refl

searches :
    search_files memory 9 f
      (λ pattern name. some true)
      (codes "*")
      (codes "e t")
      (pos 1)
      (codes "w")
      (codes "a")
      disk
    ≡ some (ok (codes "a" ∷ [], true), disk)
unfolding search_files contains_bytes slashed ◌>>=◌ resolve clean clean_steps clean_step split same
    has_prefix workspace_root contains_any contains_rune join escapes rel lookup same_path
searches = refl

read-Capped_example :
    After
      (read memory 9 f (codes "w") (codes "a") (pos 9) disk)
      (Capped memory content memory-IsLawful 9 f root (codes "a") (pos 9) disk)
read-Capped_example =
    read-Capped memory content memory-IsLawful 9 f disk (codes "w") (codes "a") (pos 9) root root_eq
      (all-IsDirect disk root) (omega arith)

write-Wrote_example : After (write memory 9 f (codes "w") (codes "b") (codes "x") false disk) (
    Wrote memory content memory-IsLawful 9 f
      (root ++ [])
      disk
      ((root ++ []) ++ codes "b" ∷ [])
      (codes "x")
      false)
unfolding clean clean_steps clean_step split same has_prefix
write-Wrote_example =
    write-Wrote memory content memory-IsLawful 9 f disk (codes "w") (codes "b") (codes "x") false
      root [] (codes "b") root_eq (all-IsDirect disk root) parts_b visible_b (omega arith)

edit-Edited_example :
    After (edit memory 9 f (codes "w") (codes "a") (codes "two") (codes "2") disk) (
      Edited memory content memory-IsLawful 9 f root []
        (codes "a")
        (codes "a")
        (codes "two")
        (codes "2")
        disk)
unfolding clean clean_steps clean_step split same has_prefix
edit-Edited_example =
    edit-Edited memory content memory-IsLawful 9 f root [] (codes "a") (codes "a") (codes "two")
      (codes "2") disk (codes "w") root_eq (all-IsDirect disk root) parts_a visible_a (omega arith)
      (omega arith)

delete_file-Deleted_example :
    After
      (delete_file memory 9 f (codes "w") (codes "a") true disk)
      (Deleted memory content memory-IsLawful 9 f root (codes "a") true disk)
delete_file-Deleted_example =
    delete_file-Deleted memory content memory-IsLawful 9 f disk (codes "w") (codes "a") true root
      root_eq (λ e. cc) (all-IsDirect disk root)

move-Moved_example : After (move memory 9 f (codes "w") (codes "a") (codes "b") disk) (
    Moved memory content memory-IsLawful 9 f root (codes "a") ((root ++ []) ++ codes "b" ∷ []) disk)
unfolding clean clean_steps clean_step split same has_prefix
move-Moved_example =
    move-Moved memory content memory-IsLawful 9 f disk (codes "w") (codes "a") (codes "b") root []
      (codes "b") root_eq (λ e. cc) (all-IsDirect disk root) parts_b (omega arith)

search_files-Listed_example :
    After
      (search_files memory 9 f
        (λ pattern name. some true)
        (codes "*")
        (codes "e t")
        (pos 1)
        (codes "w")
        (codes "a")
        disk)
      (Listed memory content memory-IsLawful 9 f (pos 1) disk)
search_files-Listed_example =
    search_files-Listed memory content memory-IsLawful 9 f (pos 1) (λ pattern name. some true)
      (codes "*") (codes "e t") disk (codes "w") (codes "a") root root_eq (all-IsDirect disk root)
      refl
