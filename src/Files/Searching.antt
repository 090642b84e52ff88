-- ===== src/Files/Searching.antt =====
-- `Search` of internal/app/files.go, on a disk; `glob` is filepath.Match, `none` where the pattern is
-- malformed.

use chat2work_mcp.Prelude.{
  ℕ, Bool, true, false, ◌||◌, Option, none, some, List, [], ◌∷◌, if◌then◌else◌, Text, same, Result,
  ok, err, tool, bad_pattern,
}
use chat2work_mcp.Prelude.Int.{ℤ, pos, ltb_ℤ}
use chat2work_mcp.Paths.{AbsPath, FileInfo, rel}
use chat2work_mcp.Quota.{Files}
use chat2work_mcp.Download.{base_name}
use chat2work_mcp.Disk.{Os, Entry, Action, asks, ◌>>=◌, friendly_path_error}
use chat2work_mcp.Files.{root_of, resolved, slashed, contains_bytes}
use chat2work_mcp.Files.Listing.{Items, add_item}

module _ {D : Type 0} (os : Os D) (fuel : ℕ) (f : Files) where
  module _ (glob : Text → Text → Option Bool) (pattern query : Text) (limit : ℤ) where
    -- whether the callback of `Search` lists an entry
    unfoldable pub matches : D → Entry → Result Bool
    matches d e =
        if e.visit.is_dir || e.is_symlink
        then ok false
        else elim (glob pattern (base_name e.visit.path)) [
          | none ↦ err (tool bad_pattern)
          | some false ↦ ok false
          | some true ↦ if same query [] then ok true else elim e.visit.size [
            | none ↦ ok false
            | some size ↦
                if ltb_ℤ f.max_bytes (pos size)
                then ok false
                else elim (os.read_file d e.visit.path) [
                  | err _ ↦ ok false
                  | ok bytes ↦ ok (contains_bytes bytes query)
                ]
          ]
        ]

    -- the walk of `Search`
    unfoldable pub search_from : D → AbsPath → List Text → List Entry → Result Items
    unfolding matches
    search_from d root found [] = ok (found, false)
    search_from d root found (e ∷ rest) =
        let skipped = search_from d root found rest in
        let (found', full) = add_item limit found (slashed (rel root e.visit.path)) in
        let more = search_from d root found' rest in
        if e.visit.failed then err e.failure else elim (matches d e) [
          | err cause ↦ err cause
          | ok false ↦ skipped
          | ok true ↦ if full then ok (found', true) else more
        ]

    -- `fileEntry`: a file is visited as it stands, without a walk
    abbrev pub file_entry : AbsPath → FileInfo → Entry
    file_entry target info = record {
      visit = record { path = target; failed = false; is_dir = info.is_dir; size = some info.size };
      failure = tool bad_pattern;
      is_symlink = false;
    }

    unfoldable pub search_files : Text → Text → Action D Items
    unfolding root_of resolved search_from
    search_files tenant path = do
      root ← root_of os fuel f tenant
      target ← resolved os fuel f root path false
      info ← asks (λ d. friendly_path_error ((os.view d).stat target))
      asks (λ d.
          search_from d root []
            (if info.is_dir then os.walk d target else file_entry target info ∷ []))
