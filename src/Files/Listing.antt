-- ===== src/Files/Listing.antt =====
-- `List` of internal/app/files.go, on a disk.

use chat2work_mcp.Prelude.{
  ℕ, Bool, true, false, not, ◌&&◌, Option, none, some, List, [], ◌∷◌, ◌++◌, length, if◌then◌else◌,
  Text, codes, Result, ok, err, Error, tool, reject_if, path_not_directory,
}
use chat2work_mcp.Prelude.Int.{ℤ, pos, is_pos, leb_ℤ}
use chat2work_mcp.Paths.{AbsPath, rel, same_path}
use chat2work_mcp.Quota.{Files}
use chat2work_mcp.Disk.{Os, Entry, Action, lift, asks, ◌>>=◌, ◌>>◌, friendly_path_error}
use chat2work_mcp.Files.{root_of, resolved, slashed}

-- what `List` collects: the items, and whether the limit stopped it
abbrev pub Items : Type 0
Items = List Text × Bool

abbrev pub add_item : ℤ → List Text → Text → Items
add_item limit items item =
    let items' = items ++ item ∷ [] in (items', is_pos limit && leb_ℤ limit (pos (length items')))

-- the WalkDir callback of `List`
unfoldable pub list_walk : AbsPath → AbsPath → ℤ → List Text → List Entry → Result Items
list_walk root target limit items [] = ok (items, false)
list_walk root target limit items (e ∷ rest) =
    let skipped = list_walk root target limit items rest in
    let (items', full) = add_item limit items (slashed (rel root e.visit.path)) in
    let more = list_walk root target limit items' rest in
    if e.visit.failed
    then err e.failure
    else if same_path e.visit.path target
    then skipped
    else if full
    then ok (items', true)
    else more

-- the loop of `List` over os.ReadDir
unfoldable pub list_entries : AbsPath → AbsPath → ℤ → List Text → List (Text × Bool) → Items
list_entries root target limit items [] = (items, false)
list_entries root target limit items ((name, is_dir) ∷ rest) =
    let shown = slashed (rel root (target ++ name ∷ [])) in
    let (items', full) = add_item limit items (if is_dir then shown ++ codes "/" else shown) in
    let more = list_entries root target limit items' rest in if full then (items', true) else more

abbrev pub unless_failed : {A : Type 0} → Option Error → A → Result A
unless_failed none a = ok a
unless_failed (some e) a = err e

module _ {D : Type 0} (os : Os D) where
  -- `List` of a directory that is resolved
  unfoldable pub list_at : AbsPath → AbsPath → Bool → ℤ → D → Result Items
  unfolding list_walk list_entries
  list_at root target true limit d = list_walk root target limit [] (os.walk d target)
  list_at root target false limit d =
      let (entries, failed) = os.read_dir d target in
      unless_failed failed (list_entries root target limit [] entries)

module _ {D : Type 0} (os : Os D) (fuel : ℕ) (f : Files) where
  -- `List`
  unfoldable pub list_files : Text → Text → Bool → ℤ → Action D Items
  unfolding root_of resolved list_at
  list_files tenant path recursive limit = do
    root ← root_of os fuel f tenant
    target ← resolved os fuel f root path false
    info ← asks (λ d. friendly_path_error ((os.view d).stat target))
    lift (reject_if (not info.is_dir) (tool path_not_directory))
    asks (list_at os root target recursive limit)
