-- ===== src/Files/Bounds.antt =====
-- How many items `List` and `Search` of internal/app/files.go return.
use chat2work_mcp.Prelude.{
  ℕ, ◌≤◌, ◌<◌, ◌≡◌, ◌⊎◌, refl, sym, inl, inr, arith, Bool, true, false, not, Bool-cases, Option,
  none, some, List, [], ◌∷◌, ◌++◌, length, length-append, leb, if◌then◌else◌, Text, codes, Result,
  Result-cases, ok, err, Error, reject_if, tool, path_not_directory,
}
use chat2work_mcp.Prelude.Int.{ℤ, pos, negsuc, pos_part, is_pos, leb_ℤ}
use chat2work_mcp.Paths.{AbsPath, rel, same_path, workspace_root}
use chat2work_mcp.Quota.{Files}
use chat2work_mcp.Disk.{Os, Entry, Bytes, friendly_path_error}
use chat2work_mcp.Disk.Steps.{After}
use chat2work_mcp.Disk.Lawful.{Keeps, IsDirect, IsLawful}
use chat2work_mcp.Files.{slashed}
use chat2work_mcp.Files.Listing.{
  Items, add_item, list_walk, list_entries, unless_failed, list_at, list_files,
}
use chat2work_mcp.Files.Searching.{matches, search_from, file_entry, search_files}
use chat2work_mcp.Files.Opening.{After-lift, After-asks, After-root, After-resolved}
use chat2work_mcp.Files.Reading.{resolve-false-ne-none}

-- At most as many items as the limit, and marked as truncated exactly when there are as many.
abbrev pub IsLimited : ℤ → Items → Type 0
IsLimited limit (items, truncated) =
    (length items ≤ pos_part limit) × (truncated ≡ leb (pos_part limit) (length items))

reached : (limit : ℤ) (n : ℕ) → is_pos limit ≡ true → leb_ℤ limit (pos n) ≡ leb (pos_part limit) n
reached (pos b) n h = ground arith
reached (negsuc b) n h = cc

grown :
    (limit : ℤ) (items : List Text) (item : Text)
    → is_pos limit ≡ true
    → length items < pos_part limit
    → (((add_item limit items item).1 ≡ true)
        × IsLimited limit ((add_item limit items item).0, true))
      ⊎ (((add_item limit items item).1 ≡ false)
          × (length (add_item limit items item).0 < pos_part limit))
grown limit items item positive room =
    let longer = length-append items (item ∷ []) in
    let same_test = reached limit (length (items ++ item ∷ [])) positive in
    elim (Bool-cases (leb (pos_part limit) (length (items ++ item ∷ [])))) [
      | inl full ↦
          inl (ground (arith, positive, same_test, full), (omega (arith, longer, room), sym full))
      | inr more ↦ inr (ground (arith, positive, same_test, more), ground (arith, more))
    ]

room_in : (limit : ℤ) → is_pos limit ≡ true → 0 < pos_part limit
room_in (pos b) h = ground (arith, h)
room_in (negsuc b) h = cc

-- a list that is not stopped
unstopped :
    (limit : ℤ) (items : List Text) → length items < pos_part limit → IsLimited limit (items, false)
unstopped limit items room = (omega (arith, room), ground (arith, room))

list_entries-IsLimited :
    (root target : AbsPath) (limit : ℤ) (items : List Text) (entries : List (Text × Bool))
    → is_pos limit ≡ true
    → length items < pos_part limit
    → IsLimited limit (list_entries root target limit items entries)
unfolding list_entries
list_entries-IsLimited root target limit items [] positive room = unstopped limit items room
list_entries-IsLimited root target limit items ((name, is_dir) ∷ rest) positive room =
    let shown = slashed (rel root (target ++ name ∷ [])) in
    let item = if is_dir then shown ++ codes "/" else shown in
    elim (grown limit items item positive room) [
      | inl (full, limited) ↦ rw full limited
      | inr (more, room') ↦
          rw more
            (list_entries-IsLimited root target limit (items ++ item ∷ []) rest positive room')
    ]

failed_ne : {A : Type 0} (e : Error) (a : A) → err e ≡ ok a → ⊥
failed_ne e a h = cc

same_found : {A : Type 0} (a b : A) → ok a ≡ ok b → a ≡ b
same_found a b h = cc

list_walk-IsLimited :
    (root target : AbsPath) (limit : ℤ) (items : List Text) (entries : List Entry) (found : Items)
    → is_pos limit ≡ true
    → length items < pos_part limit
    → list_walk root target limit items entries ≡ ok found
    → IsLimited limit found
unfolding list_walk
list_walk-IsLimited root target limit items [] found positive room h =
    let same_items : (items, false) ≡ found = cc in rw (← same_items) (unstopped limit items room)
list_walk-IsLimited root target limit items (e ∷ rest) found positive room h =
    let item = slashed (rel root e.visit.path) in
    elim (Bool-cases e.visit.failed) [
      | inl failed ↦ absurd (failed_ne e.failure found (rw failed at h))
      | inr readable ↦ elim (Bool-cases (same_path e.visit.path target)) [
        | inl start ↦
            list_walk-IsLimited root target limit items rest found positive room
              (rw start at (rw readable at h))
        | inr below ↦ elim (grown limit items item positive room) [
          | inl (full, limited) ↦
              rw
                (← same_found (items ++ item ∷ [], true) found
                  (rw full at (rw below at (rw readable at h))))
                limited
          | inr (more, room') ↦
              list_walk-IsLimited root target limit (items ++ item ∷ []) rest found positive room'
                (rw more at (rw below at (rw readable at h)))
        ]
      ]
    ]

module _ {D : Type 0} (os : Os D) (fuel : ℕ) (f : Files) (glob : Text → Text → Option Bool)
    (pattern query : Text) (limit : ℤ) where
  search_from-IsLimited :
      (d : D) (root : AbsPath) (found : List Text) (entries : List Entry) (result : Items)
      → is_pos limit ≡ true
      → length found < pos_part limit
      → search_from os fuel f glob pattern query limit d root found entries ≡ ok result
      → IsLimited limit result
  unfolding search_from
  search_from-IsLimited d root found [] result positive room h =
      rw (← same_found (found, false) result h) (unstopped limit found room)
  search_from-IsLimited d root found (e ∷ rest) result positive room h =
      let item = slashed (rel root e.visit.path) in
      elim (Bool-cases e.visit.failed) [
        | inl failed ↦ absurd (failed_ne e.failure result (rw failed at h))
        | inr readable ↦ elim (Result-cases (matches os fuel f glob pattern query limit d e)) [
          | inr (cause, bad) ↦ absurd (failed_ne cause result (rw bad at (rw readable at h)))
          | inl (listed, matched) ↦ elim (Bool-cases listed) [
            | inr skipped ↦
                search_from-IsLimited d root found rest result positive room
                  (rw skipped at (rw matched at (rw readable at h)))
            | inl kept ↦ elim (grown limit found item positive room) [
              | inl (full, limited) ↦
                  rw
                    (← same_found (found ++ item ∷ [], true) result
                      (rw full at (rw kept at (rw matched at (rw readable at h)))))
                    limited
              | inr (more, room') ↦
                  search_from-IsLimited d root (found ++ item ∷ []) rest result positive room'
                    (rw more at (rw kept at (rw matched at (rw readable at h))))
            ]
          ]
        ]
      ]

module _ {D : Type 0} (os : Os D) (content : D → AbsPath → Option Bytes)
    (lawful : IsLawful os content) (fuel : ℕ) (f : Files) (limit : ℤ) where
  -- The items are limited, and no file has changed.
  abbrev pub Listed : D → Result Items → D → Type 0
  Listed d (ok found) d' = IsLimited limit found × Keeps os content [] d d'
  Listed d (err e) d' = Keeps os content [] d d'

  limited-Listed :
      (d d' : D) (r : Result Items)
      → Keeps os content [] d d'
      → ((found : Items) → r ≡ ok found → IsLimited limit found)
      → Listed d r d'
  limited-Listed d d' (ok found) k h = (h found refl, k)
  limited-Listed d d' (err e) k h = k

  list_at-IsLimited :
      (root target : AbsPath) (recursive : Bool) (d : D) (found : Items)
      → is_pos limit ≡ true
      → list_at os root target recursive limit d ≡ ok found
      → IsLimited limit found
  unfolding list_at
  list_at-IsLimited root target true d found positive h =
      list_walk-IsLimited root target limit [] (os.walk d target) found positive
        (room_in limit positive) h
  list_at-IsLimited root target false d found positive h =
      unfailed (os.read_dir d target).1 (list_entries root target limit [] (os.read_dir d target).0)
        h
        (list_entries-IsLimited root target limit [] (os.read_dir d target).0 positive
          (room_in limit positive))
    where
      unfailed :
          (o : Option Error) (items : Items)
          → unless_failed o items ≡ ok found
          → IsLimited limit items
          → IsLimited limit found
      unfailed none items e limited = rw (← same_found items found e) limited
      unfailed (some cause) items e limited = absurd (failed_ne cause found e)

  -- `List` as `Search` below: at most `limit` items, marked as truncated exactly when there are as many.
  pub list_files-Listed :
      (d : D) (tenant path : Text) (recursive : Bool) (root : AbsPath)
      → workspace_root f.base tenant ≡ ok root
      → IsDirect (os.view d) root
      → is_pos limit ≡ true
      → After (list_files os fuel f tenant path recursive limit d) (Listed d)
  unfolding list_files
  list_files-Listed d tenant path recursive root at direct positive =
      let Q = Listed d in
      After-root os fuel f content lawful Q _ d tenant root at direct
        (λ d1 k.
          After-resolved os fuel f content lawful Q _ d1 root path false
            (resolve-false-ne-none (os.view d1) fuel root path)
            (λ target found.
              After-asks Q _ d1 (λ d. friendly_path_error ((os.view d).stat target))
                (λ info there.
                  After-lift Q _ d1 (reject_if (not info.is_dir) (tool path_not_directory))
                    (λ _ dir.
                      limited-Listed d d1 (list_at os root target recursive limit d1) k
                        (λ items h. list_at-IsLimited root target recursive d1 items positive h))
                    (λ e _. k))
                (λ e _. k))
            (λ e. k))
        (λ e d1 k. k)

  -- The operating system obeys IsLawful, no link leads to the workspace's directory, and the limit is
  -- positive. Then `Search` returns and changes no file. If it succeeds, it returns at most as many
  -- matches as the limit, marked as truncated exactly when there are as many.
  pub search_files-Listed :
      (glob : Text → Text → Option Bool) (pattern query : Text) (d : D) (tenant path : Text)
      (root : AbsPath)
      → workspace_root f.base tenant ≡ ok root
      → IsDirect (os.view d) root
      → is_pos limit ≡ true
      → After (search_files os fuel f glob pattern query limit tenant path d) (Listed d)
  unfolding search_files
  search_files-Listed glob pattern query d tenant path root at direct positive =
      let Q = Listed d in
      After-root os fuel f content lawful Q _ d tenant root at direct
        (λ d1 k.
          After-resolved os fuel f content lawful Q _ d1 root path false
            (resolve-false-ne-none (os.view d1) fuel root path)
            (λ target found.
              After-asks Q _ d1 (λ d. friendly_path_error ((os.view d).stat target))
                (λ info there. limited-Listed d d1 _ k (λ items h.
                  search_from-IsLimited os fuel f glob pattern query limit d1 root []
                    (if info.is_dir
                      then os.walk d1 target
                      else file_entry os fuel f glob pattern query limit target info ∷ [])
                    items positive (room_in limit positive) h))
                (λ e _. k))
            (λ e. k))
        (λ e d1 k. k)
