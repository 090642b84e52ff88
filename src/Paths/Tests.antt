-- ===== src/Paths/Tests.antt =====
-- A small file system: the workspace /d/w with a directory, a file and a link.
use chat2work_mcp.Prelude.{
  ap, ◌≤◌, ◌≡◌, ◌≢◌, refl, true, false, none, some, List, [], ◌∷◌, ◌++◌, arith, if◌then◌else◌, Text,
  codes, same, has_prefix, contains_any, contains_rune, split, Result, ok, err, not_exist, os,
  path_escapes, symlink_path, length, ◌||◌, All,
}
use chat2work_mcp.Paths.{
  AbsPath, View, FileInfo, clean, clean_step, clean_steps, join, rel, escapes, same_path,
  check_from, workspace_root, resolve, is_not_exist,
}
use chat2work_mcp.Paths.Cleaning.{IsName}
use chat2work_mcp.Paths.Within.{IsWithin, resolve-IsWithin}
use chat2work_mcp.Paths.Parents.{IsPlain}
use chat2work_mcp.Paths.Missing.{
  parts_of, IsRelative, RootReached, resolve-true, resolve_total, resolve-root_runs_on,
}
use chat2work_mcp.Prelude.Decimal.{decimal}
use chat2work_mcp.Prelude.Map.{lookup, insert}
use chat2work_mcp.Access.{
  add_members, add_member, personal_id, personal_grant, new_access_manager, grant,
  valid_workspace_id,
}
use chat2work_mcp.Config.Sample.{config, team_grant}
use chat2work_mcp.Paths.Isolation.{resolve_apart}

abbrev file_info : FileInfo
file_info = record { size = 3; is_dir = false; is_symlink = false }

abbrev dir_info : FileInfo
dir_info = record { size = 0; is_dir = true; is_symlink = false }

abbrev link_info : FileInfo
link_info = record { size = 0; is_dir = false; is_symlink = true }

abbrev root : AbsPath
root = codes "d" ∷ codes "w" ∷ []

entry : AbsPath → Result FileInfo
entry p =
    if same_path p []
      || (same_path p (codes "d" ∷ [])
          || (same_path p root || same_path p (root ++ codes "a" ∷ [])))
    then ok dir_info
    else if same_path p (root ++ codes "a" ∷ codes "f" ∷ [])
    then ok file_info
    else if same_path p (root ++ codes "l" ∷ [])
    then ok link_info
    else err (os not_exist)

real_path : AbsPath → Result AbsPath
real_path p = elim (entry p) [
  | ok info ↦ if info.is_symlink then ok (codes "etc" ∷ []) else ok p
  | err e ↦ err e
]

abbrev view : View
view = record { lstat = entry; stat = entry; eval_symlinks = real_path }

clean_tests :
    (clean (codes "a//./b/../c") ≡ record { rooted = false; parts = codes "a" ∷ codes "c" ∷ [] })
    × (clean (codes "../../a/..") ≡ record { rooted = false; parts = codes ".." ∷ codes ".." ∷ [] })
    × (clean (codes "/../a") ≡ record { rooted = true; parts = codes "a" ∷ [] })
    × (clean (codes ".") ≡ record { rooted = false; parts = [] })
unfolding clean clean_steps clean_step split same has_prefix
clean_tests = (refl, refl, refl, refl)

resolve_file :
    resolve view 9 root (codes "a/../a/f") true ≡ some (ok (root ++ codes "a" ∷ codes "f" ∷ []))
unfolding resolve check_from entry real_path clean clean_steps clean_step split same has_prefix join
    rel escapes same_path is_not_exist
resolve_file = refl

resolve_link : resolve view 9 root (codes "l/x") true ≡ some (err symlink_path)
unfolding resolve check_from entry real_path clean clean_steps clean_step split same has_prefix join
    rel escapes same_path is_not_exist
resolve_link = refl

resolve_up : resolve view 9 root (codes "a/../../x") false ≡ some (err path_escapes)
unfolding resolve clean clean_steps clean_step split same has_prefix escapes
resolve_up = refl

resolve-IsWithin_example : IsWithin root (root ++ codes "a" ∷ codes "f" ∷ [])
resolve-IsWithin_example =
    resolve-IsWithin view 9 root (codes "a/../a/f") true (root ++ codes "a" ∷ codes "f" ∷ [])
      resolve_file

resolve-true_example :
    (root ++ codes "a" ∷ codes "f" ∷ [] ≡ root ++ parts_of (codes "a/../a/f"))
    × All IsName (parts_of (codes "a/../a/f"))
    × IsPlain view (root ++ codes "a" ∷ codes "f" ∷ [])
    × ((pre post : List Text) (c : Text)
        → parts_of (codes "a/../a/f") ≡ pre ++ c ∷ post
        → IsPlain view (root ++ pre))
resolve-true_example =
    resolve-true view 9 root (codes "a/../a/f") (root ++ codes "a" ∷ codes "f" ∷ []) resolve_file

parts_a : parts_of (codes "a/f") ≡ codes "a" ∷ codes "f" ∷ []
unfolding clean clean_steps clean_step split same has_prefix
parts_a = refl

parts_none : parts_of [] ≡ []
unfolding clean clean_steps clean_step split same has_prefix
parts_none = refl

IsRelative-none : IsRelative []
unfolding same has_prefix
IsRelative-none = (refl, refl)

parts_ne : parts_of (codes "a/f") ≢ []
parts_ne e = cc parts_a

parts_short : length (parts_of (codes "a/f")) ≤ 2
parts_short = omega (arith, ap (length {A = Text}) parts_a)

resolve_total_example : resolve view 2 root (codes "a/f") true ≢ none
resolve_total_example = resolve_total view 2 root (codes "a/f") true parts_ne parts_short

real_root : real_path root ≡ ok root
unfolding real_path entry same_path same
real_root = refl

root-entry : entry root ≡ ok dir_info
unfolding entry same_path same
root-entry = refl

above_root : RootReached view 9 root []
unfolding entry same_path same
above_root [] below c e = (dir_info, refl, refl)
above_root (x ∷ []) below c e = let first : x ≡ codes "d" = cc in (dir_info, rw first refl, refl)
above_root (x ∷ y ∷ []) below c e = cc
above_root (x ∷ y ∷ z ∷ above) below c e = cc

resolve-root_runs_on_example : resolve view 1000 root [] true ≡ none
resolve-root_runs_on_example =
    resolve-root_runs_on view 1000 root [] IsRelative-none parts_none (λ e. cc) dir_info root-entry
      refl real_root above_root

ids_valid : valid_workspace_id (codes "team") ≡ true
unfolding valid_workspace_id has_prefix same
ids_valid = refl

grant_team : grant (new_access_manager config) 7 (codes "team") ≡ ok team_grant
unfolding grant new_access_manager add_members add_member lookup insert same decimal
grant_team = refl

grant_own : grant (new_access_manager config) 7 [] ≡ ok (personal_grant 7)
unfolding grant same decimal
grant_own = refl

root_team : workspace_root (codes "d" ∷ []) (codes "team") ≡ ok (codes "d" ∷ codes "team" ∷ [])
unfolding workspace_root contains_any contains_rune join clean_steps clean_step same
root_team = refl

root_own : workspace_root (codes "d" ∷ []) (personal_id 7) ≡ ok (codes "d" ∷ codes "user-7" ∷ [])
unfolding workspace_root contains_any contains_rune join clean_steps clean_step same decimal
root_own = refl

abbrev open_view : View
open_view = record {
  lstat = λ p. ok file_info;
  stat = λ p. ok file_info;
  eval_symlinks = λ p. ok p;
}

at_team :
    resolve open_view 0 (codes "d" ∷ codes "team" ∷ []) (codes "x") false
    ≡ some (ok (codes "d" ∷ codes "team" ∷ codes "x" ∷ []))
unfolding resolve clean clean_steps clean_step split same has_prefix join rel escapes
at_team = refl

at_own :
    resolve open_view 0 (codes "d" ∷ codes "user-7" ∷ []) (codes "x") false
    ≡ some (ok (codes "d" ∷ codes "user-7" ∷ codes "x" ∷ []))
unfolding resolve clean clean_steps clean_step split same has_prefix join rel escapes
at_own = refl

ids_differ : codes "team" ≢ personal_id 7
ids_differ e = cc

resolve_apart_example :
    codes "d" ∷ codes "team" ∷ codes "x" ∷ [] ≢ codes "d" ∷ codes "user-7" ∷ codes "x" ∷ []
resolve_apart_example =
    resolve_apart config 7 7 (codes "team") [] team_grant (personal_grant 7) (codes "d" ∷ [])
      (codes "d" ∷ codes "team" ∷ []) (codes "d" ∷ codes "user-7" ∷ []) open_view open_view 0 0
      (codes "x") (codes "x") false false (codes "d" ∷ codes "team" ∷ codes "x" ∷ [])
      (codes "d" ∷ codes "user-7" ∷ codes "x" ∷ []) (ids_valid, tt) grant_team grant_own root_team
      root_own at_team at_own ids_differ
