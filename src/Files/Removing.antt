-- ===== src/Files/Removing.antt =====
-- `Delete` of internal/app/files.go.
use mathlib.Core.List.{append_assoc}
use chat2work_mcp.Prelude.{
  ℕ, ◌≡◌, ◌≢◌, ◌∙◌, refl, ap, Bool, true, false, not, Option, none, [], ◌∷◌, ◌++◌, arith, Text,
  Result, ok, err, reject_if, tool, deletion_disabled, needs_confirm, directory_deletion,
}
use chat2work_mcp.Paths.{AbsPath, FileInfo, workspace_root}
use chat2work_mcp.Paths.Missing.{parts_of}
use chat2work_mcp.Paths.Within.{IsWithin, resolve-IsWithin}
use chat2work_mcp.Quota.{Files}
use chat2work_mcp.Disk.{Os, Bytes, call, friendly_path_error}
use chat2work_mcp.Disk.Steps.{After}
use chat2work_mcp.Disk.Lawful.{Keeps, IsDirect, IsLawful, Removed}
use chat2work_mcp.Disk.Keeping.{Keeps-refl, Keeps-trans, Keeps-more}
use chat2work_mcp.Files.{delete_file}
use chat2work_mcp.Files.Opening.{IsTarget, After-lift, After-asks, After-root, After-resolved}
use chat2work_mcp.Files.Reading.{resolve-false, resolve-false-ne-none}

-- A path below a root that is not "/" has a last component.
last_of : (x : Text) (p : AbsPath) → (dir : AbsPath) × (name : Text) × (x ∷ p ≡ dir ++ name ∷ [])
last_of x [] = ([], x, refl)
last_of x (y ∷ p) =
    let (dir, name, e) = last_of y p in (x ∷ dir, name, ap (λ (t : AbsPath). x ∷ t) e)

within_last :
    (root p : AbsPath)
    → root ≢ []
    → IsWithin root p
    → (dir : AbsPath) × (name : Text) × (p ≡ dir ++ name ∷ [])
within_last [] p ne inside = absurd (ne refl)
within_last (x ∷ root) p ne (rest, e) =
    let (dir, name, at) = last_of x (root ++ rest) in (dir, name, e ∙ at)

friendly-eq : {A : Type 0} (r : Result A) (a : A) → friendly_path_error r ≡ ok a → r ≡ ok a
friendly-eq (ok b) a h = h
friendly-eq (err e) a h = cc

module _ {D : Type 0} (os : Os D) (content : D → AbsPath → Option Bytes)
    (lawful : IsLawful os content) (fuel : ℕ) (f : Files) where
  -- One path of the workspace, at which Stat found no directory, has no content left, and no other
  -- file has changed; or no file has changed.
  abbrev pub Deleted : AbsPath → Text → Bool → D → Result (Unit {0}) → D → Type 0
  Deleted root path confirm d (ok _) d' =
      (f.delete_enabled ≡ true)
      × (confirm ≡ true)
      × (p : AbsPath) × (target : IsTarget os content root path d p) × (info : FileInfo) × ((os.view
              target.before).stat
            p
          ≡ ok info)
      × (info.is_dir ≡ false)
      × (content d' p ≡ none)
      × Keeps os content (p ∷ []) d d'
  Deleted root path confirm d (err e) d' = Keeps os content [] d d'

  Removed-Deleted :
      (root : AbsPath) (path : Text) (confirm : Bool) (d d1 : D) (p : AbsPath)
      (r : Result (Unit {0})) (d2 : D)
      → f.delete_enabled ≡ true
      → confirm ≡ true
      → (target : IsTarget os content root path d p) (info : FileInfo)
      → (os.view target.before).stat p ≡ ok info
      → info.is_dir ≡ false
      → Keeps os content [] d d1
      → Removed os content d1 p r d2
      → Deleted root path confirm d r d2
  Removed-Deleted root path confirm d d1 p (ok _) d2 enabled confirmed inside info there file k
        (gone, k') =
      (
        enabled,
        confirmed,
        p,
        inside,
        info,
        there,
        file,
        gone,
        Keeps-trans os content (p ∷ []) d d1 d2 (Keeps-more os content (p ∷ []) d d1 k) k',
      )
  Removed-Deleted root path confirm d d1 p (err e) d2 enabled confirmed inside info there file k
        k' =
      Keeps-trans os content [] d d1 d2 k k'

  -- A path within the root and its directory, where the path leads through no link
  pub above-IsDirect :
      (d : D) (root p : AbsPath)
      → root ≢ []
      → IsWithin root p
      → IsDirect (os.view d) p
      → (dir : AbsPath) × (name : Text) × (p ≡ dir ++ name ∷ []) × IsDirect (os.view d) dir
  above-IsDirect d root p ne inside direct =
      let (dir, name, e) = within_last root p ne inside in
      (
        dir,
        name,
        e,
        λ pre post cut.
            direct pre (post ++ name ∷ [])
              (e ∙ ap (λ (t : AbsPath). t ++ name ∷ []) cut ∙ append_assoc pre post (name ∷ [])),
      )

  removed :
      (root : AbsPath) (path : Text) (confirm : Bool) (d d1 : D) (p : AbsPath)
      → f.delete_enabled ≡ true
      → confirm ≡ true
      → root ≢ []
      → (target : IsTarget os content root path d p) (info : FileInfo)
      → (os.view target.before).stat p ≡ ok info
      → info.is_dir ≡ false
      → IsDirect (os.view d1) p
      → Keeps os content [] d d1
      → After (call (os.remove p) d1) (Deleted root path confirm d)
  removed root path confirm d d1 p enabled confirmed ne inside info there file direct k =
      let (dir, name, e, direct') = above-IsDirect d1 root p ne inside.inside direct in
      Removed-Deleted root path confirm d d1 p (os.remove p d1).0 (os.remove p d1).1 enabled
        confirmed inside info there file k (rw e (lawful.remove d1 dir name direct'))

  -- The operating system obeys IsLawful, and no link leads to the workspace's directory, which is not
  -- "/". Then `Delete` returns. If it succeeds, deletion is enabled, the call was confirmed, Stat found
  -- something other than a directory at the path within the workspace's directory to which the argument
  -- leads, before any file had changed, and the path has no content left, while no other file has
  -- changed. If it fails, no file has changed.
  pub delete_file-Deleted :
      (d : D) (tenant path : Text) (confirm : Bool) (root : AbsPath)
      → workspace_root f.base tenant ≡ ok root
      → root ≢ []
      → IsDirect (os.view d) root
      → After (delete_file os fuel f tenant path confirm d) (Deleted root path confirm d)
  unfolding delete_file
  delete_file-Deleted d tenant path confirm root at ne direct =
      let Q = Deleted root path confirm d in
      After-lift Q _ d (reject_if (not f.delete_enabled) (tool deletion_disabled))
        (λ _ enabled.
          After-lift Q _ d (reject_if (not confirm) (tool needs_confirm))
            (λ _ confirmed.
              After-root os fuel f content lawful Q _ d tenant root at direct
                (λ d1 k.
                  After-resolved os fuel f content lawful Q _ d1 root path false
                    (resolve-false-ne-none (os.view d1) fuel root path)
                    (λ p found.
                      After-asks Q _ d1 (λ d. friendly_path_error ((os.view d).stat p))
                        (λ info there.
                          After-lift Q _ d1 (reject_if info.is_dir (tool directory_deletion))
                            (λ _ file.
                              removed root path confirm d d1 p (ground (arith, enabled))
                                (ground (arith, confirmed)) ne
                                (record {
                                  inside =
                                      resolve-IsWithin (os.view d1) fuel root path false p found;
                                  before = d1;
                                  still = k;
                                  real = resolve-false (os.view d1) fuel root path p found;
                                })
                                info (friendly-eq ((os.view d1).stat p) info there)
                                (ground (arith, file))
                                (lawful.eval_symlinks d1 (root ++ parts_of path) p
                                  (resolve-false (os.view d1) fuel root path p found))
                                k)
                            (λ e _. k))
                        (λ e _. k))
                    (λ e. k))
                (λ e d1 k. k))
            (λ e _. Keeps-refl os content d))
        (λ e _. Keeps-refl os content d)
