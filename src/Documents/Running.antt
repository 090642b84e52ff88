-- ===== src/Documents/Running.antt =====
-- `docEdit` and `sheetSetCells` of internal/app/server.go from the document's path on: the edited
-- copy replaces the document, or the document is as it was.
use mathlib.Core.List.{append_assoc}
use chat2work_mcp.Prelude.{
  ℕ, ◌≡◌, ◌≢◌, ◌∙◌, refl, sym, ap, Bool, false, Option, some, [], ◌∷◌, ◌++◌, split, Text, codes,
  Result, ok, err,
}
use chat2work_mcp.Prelude.Int.{ℤ}
use chat2work_mcp.Paths.{AbsPath, View, FileInfo, join, workspace_root}
use chat2work_mcp.Paths.Missing.{parts_of}
use chat2work_mcp.Paths.Within.{resolve-IsWithin}
use chat2work_mcp.Quota.{Files}
use chat2work_mcp.Disk.{Os, Bytes, defer}
use chat2work_mcp.Disk.Steps.{After, After-bind, After-defer}
use chat2work_mcp.Disk.Lawful.{Keeps, IsDirect, IsLawful}
use chat2work_mcp.Disk.Keeping.{Keeps-more, IsDirect-Keeps}
use chat2work_mcp.Files.Opening.{IsTarget, After-asks, After-opened, After-resolved}
use chat2work_mcp.Files.Reading.{resolve-false, resolve-false-ne-none}
use chat2work_mcp.Files.Replacing.{Stored, Renamed-Stored, Removed-Keeps, Stored-around}
use chat2work_mcp.Files.Removing.{above-IsDirect}
use chat2work_mcp.Server.{App, CallToolRequest}
use chat2work_mcp.Tools.{clean_path}
use chat2work_mcp.Documents.{
  Engine, temp_document_path, temp_abs, check_input, publish, edit_copy, edit_document,
}
use chat2work_mcp.Documents.Copying.{
  IsTame, quiet, copy_file-Keeps, IsRegular, Ran, office_run-Ran, output_allowed-Keeps,
  check_input-ok,
}

-- No link leads to the temporary document, and nothing is there once the workspace's directory is.
pub record IsScratch {D : Type 0} (os : Os D) (root t : AbsPath) (d : D) : Type 0 where
  pub dir : AbsPath
  pub name : Text
  pub at : t ≡ dir ++ name ∷ []
  pub direct : IsDirect (os.view d) t
  pub vacant : (info : FileInfo) → (os.view (os.mkdir_all root d).1).stat t ≢ ok info

pub IsDirect-above :
    (view : View) (p dir : AbsPath) (name : Text)
    → p ≡ dir ++ name ∷ []
    → IsDirect view p
    → IsDirect view dir
IsDirect-above view p dir name e direct pre post cut =
    direct pre (post ++ name ∷ [])
      (e ∙ ap (λ (t : AbsPath). t ++ name ∷ []) cut ∙ append_assoc pre post (name ∷ []))

module _ {D : Type 0} (os : Os D) (content : D → AbsPath → Option Bytes)
    (lawful : IsLawful os content) (fuel : ℕ) (f : Files) (engine : Engine D) (app : App)
    (tame : IsTame os content engine) where
  -- The document has the content of a copy that passed the check, and only the two differ; or the
  -- copy at most differs.
  abbrev pub Staged : AbsPath → AbsPath → D → Result (Unit {0}) → D → Type 0
  Staged t p d (ok a) d' =
      (bytes : Bytes) × (dm : D) × (content dm t ≡ some bytes)
      × (check_input os fuel f engine app t dm ≡ ok tt)
      × Stored os content lawful (t ∷ []) d p bytes (ok a) d'
  Staged t p d (err e) d' = Keeps os content (t ∷ []) d d'

  Stored-Staged :
      (t p : AbsPath) (d dm : D) (bytes : Bytes) (r : Result (Unit {0})) (d' : D)
      → content dm t ≡ some bytes
      → check_input os fuel f engine app t dm ≡ ok tt
      → Stored os content lawful (t ∷ []) d p bytes r d'
      → Staged t p d r d'
  Stored-Staged t p d dm bytes (ok a) d' has passed stored = (bytes, dm, has, passed, stored)
  Stored-Staged t p d dm bytes (err e) d' has passed stored = stored

  -- A change of the copy before, and one after
  pub Staged-around :
      (t p : AbsPath) (d d1 d2 d3 : D) (r : Result (Unit {0}))
      → p ≢ t
      → Keeps os content (t ∷ []) d d1
      → Staged t p d1 r d2
      → Keeps os content (t ∷ []) d2 d3
      → Staged t p d r d3
  Staged-around t p d d1 d2 d3 (ok a) ne before (bytes, dm, has, passed, stored) after = (
    bytes,
    dm,
    has,
    passed,
    Stored-around os content lawful d d1 d2 d3 t p bytes (ok a) ne before stored after,
  )
  Staged-around t p d d1 d2 d3 (err e) ne before k after =
      Stored-around os content lawful d d1 d2 d3 t p [] (err e) ne before k after

  pub IsDirect-Staged :
      (t p : AbsPath) (d : D) (r : Result (Unit {0})) (d' : D) (q : AbsPath)
      → Staged t p d r d'
      → IsDirect (os.view d) q
      → IsDirect (os.view d') q
  IsDirect-Staged t p d (ok a) d' q (bytes, dm, has, passed, (_, k)) =
      IsDirect-Keeps os content (p ∷ t ∷ []) d d' q k
  IsDirect-Staged t p d (err e) d' q k = IsDirect-Keeps os content (t ∷ []) d d' q k

  -- both are below directories that no link leads to
  pub publish-Staged :
      (tenant : Text) (root dir dir' : AbsPath) (name name' : Text) (d d1 : D) (is_new : Bool)
      → workspace_root f.base tenant ≡ ok root
      → IsDirect (os.view d) root
      → IsDirect (os.view d) dir
      → IsDirect (os.view d) dir'
      → Keeps os content ((dir ++ name ∷ []) ∷ []) d d1
      → IsRegular os content lawful fuel f engine app tame (dir ++ name ∷ []) d1
      → After
          (publish os fuel f engine app tenant (dir' ++ name' ∷ []) (dir ++ name ∷ []) is_new d1)
          (Staged (dir ++ name ∷ []) (dir' ++ name' ∷ []) d)
  unfolding publish
  publish-Staged tenant root dir dir' name name' d d1 is_new at direct above above' k regular =
      let t : AbsPath = dir ++ name ∷ [] in
      let p : AbsPath = dir' ++ name' ∷ [] in
      let Q = Staged t p d in
      After-asks Q _ d1 (check_input os fuel f engine app t)
        (λ _ passed.
          let (info, there) = check_input-ok os content lawful fuel f engine app tame d1 t passed in
          let (bytes, has) = regular.bytes_there info there in
          After-bind (λ _ d'. Keeps os content [] d1 d') Q _ _ d1
            (output_allowed-Keeps os content lawful fuel f engine app tame d1 tenant root p t is_new
              at (IsDirect-Keeps os content (t ∷ []) d d1 root k direct))
            (λ _ d2 k2.
              let k' = quiet os content lawful d d1 d2 t k k2 in
              Stored-Staged t p d d1 bytes (os.rename t p d2).0 (os.rename t p d2).1 has passed (
                Renamed-Stored os content lawful d d2 t p bytes (os.rename t p d2).0
                  (os.rename t p d2).1 k'
                  (lawful.rename d2 dir dir' name name' bytes
                    (IsDirect-Keeps os content (t ∷ []) d d2 dir k' above)
                    (IsDirect-Keeps os content (t ∷ []) d d2 dir' k' above') (k2.same t tt ∙ has))))
            (λ e d2 k2. quiet os content lawful d d1 d2 t k k2))
        (λ e _. k)

  edit_copy-Staged :
      (tenant : Text) (root dir dir' : AbsPath) (name name' rel_path : Text) (commands : Bytes)
      (d : D)
      → workspace_root f.base tenant ≡ ok root
      → IsDirect (os.view d) root
      → IsDirect (os.view d) (dir ++ name ∷ [])
      → IsDirect (os.view d) dir'
      → dir ++ name ∷ [] ≡ join root (split b'/' rel_path)
      → After
          (edit_copy os fuel f engine app tenant
            (dir' ++ name' ∷ [])
            (dir ++ name ∷ [])
            rel_path
            commands
            d)
          (Staged (dir ++ name ∷ []) (dir' ++ name' ∷ []) d)
  unfolding edit_copy
  edit_copy-Staged tenant root dir dir' name name' rel_path commands d at direct direct_t above'
        where_t =
      let t : AbsPath = dir ++ name ∷ [] in
      let p : AbsPath = dir' ++ name' ∷ [] in
      After-bind (λ _ d1. Keeps os content (t ∷ []) d d1) (Staged t p d) _ _ d
        (copy_file-Keeps os content lawful d p t direct_t)
        (λ _ d1 k.
          After-bind (Ran os content lawful fuel f engine app tame t d) (Staged t p d) _ _ d1
            (office_run-Ran os content lawful fuel f engine app tame d d1 tenant root t
              (codes "batch") rel_path (codes "--commands" ∷ commands ∷ []) at direct direct_t
              where_t k)
            (λ _ d2 (regular, k2).
              publish-Staged tenant root dir dir' name name' d d2 false at direct
                (IsDirect-above (os.view d) t dir name refl direct_t) above' k2 regular)
            (λ e d2 k2. k2))
        (λ e d1 k. k)

  -- A document of the workspace has the content of a copy that passed the check; or no file has
  -- changed but the copy.
  abbrev pub Published : {A : Type 0} → AbsPath → Text → AbsPath → D → Result A → D → Type 0
  Published root path t d (ok a) d' =
      (p : AbsPath) × IsTarget os content root path d p × Staged t p d (ok tt) d'
  Published root path t d (err e) d' = Keeps os content (t ∷ []) d d'

  pub Staged-Published :
      (root t p : AbsPath) (path : Text) (d : D) (r : Result (Unit {0})) (d' : D)
      → IsTarget os content root path d p
      → Staged t p d r d'
      → Published root path t d r d'
  Staged-Published root t p path d (ok a) d' inside staged = (p, inside, staged)
  Staged-Published root t p path d (err e) d' inside k = k

  -- `edit_document` once the document is found
  edited_copy :
      (tenant : Text) (root p : AbsPath) (d d1 : D) (path rel_path : Text) (commands : Bytes)
      (s : IsScratch os root (join root (split b'/' rel_path)) d)
      → workspace_root f.base tenant ≡ ok root
      → root ≢ []
      → IsDirect (os.view d) root
      → Keeps os content [] d d1
      → IsTarget os content root path d p
      → IsDirect (os.view d1) p
      → p ≢ join root (split b'/' rel_path)
      → After
          (defer
            (os.remove (join root (split b'/' rel_path)))
            (edit_copy os fuel f engine app tenant p
              (join root (split b'/' rel_path))
              rel_path
              commands)
            d1)
          (Published root path (join root (split b'/' rel_path)) d)
  edited_copy tenant root p d d1 path rel_path commands s at ne direct k target direct_p apart =
      let t : AbsPath = join root (split b'/' rel_path) in
      let (dir', name', e', above') =
        above-IsDirect os content lawful fuel f d1 root p ne target.inside direct_p in
      let direct_t : IsDirect (os.view d1) t = IsDirect-Keeps os content [] d d1 t k s.direct in
      let above : IsDirect (os.view d1) s.dir =
        IsDirect-above (os.view d1) t s.dir s.name s.at direct_t in
      After-defer (Staged t p d1) (Published root path t d) (os.remove t)
        (edit_copy os fuel f engine app tenant p t rel_path commands) d1
        (rw e' (
          rw s.at (
            edit_copy-Staged tenant root s.dir dir' s.name name' rel_path commands d1 at
              (IsDirect-Keeps os content [] d d1 root k direct) (rw s.at at direct_t) above'
              (sym s.at))))
        (λ r d2 staged. Staged-Published root t p path d r (os.remove t d2).1 target (
          Staged-around t p d d1 d2 (os.remove t d2).1 r apart
            (Keeps-more os content (t ∷ []) d d1 k) staged
            (Removed-Keeps os content lawful d2 t (os.remove t d2).0 (os.remove t d2).1 (
              rw s.at
                (lawful.remove d2 s.dir s.name (IsDirect-Staged t p d1 r d2 s.dir staged above))))))

  -- The document has been replaced by a copy that passed the checks, or no file but the copy differs.
  pub edit_document-Published :
      (now : ℤ) (req : CallToolRequest) (nanos : ℕ) (tenant path : Text) (commands : Bytes)
      (root : AbsPath) (d : D)
      → IsScratch os root (temp_abs root nanos path) d
      → workspace_root f.base tenant ≡ ok root
      → root ≢ []
      → IsDirect (os.view d) root
      → After
          (edit_document os fuel f engine app now req nanos tenant path commands d)
          (Published root path (temp_abs root nanos path) d)
  unfolding edit_document temp_abs
  edit_document-Published now req nanos tenant path commands root d s at ne direct =
      let t : AbsPath = temp_abs root nanos path in
      let Q = Published root path t d in
      After-opened os fuel f content lawful Q _ d tenant root at direct
        (λ d1 same_disk k.
          After-resolved os fuel f content lawful Q _ d1 root path false
            (resolve-false-ne-none (os.view d1) fuel root path)
            (λ p found.
              After-asks Q _ d1 (check_input os fuel f engine app p)
                (λ _ passed.
                  let (info, there) =
                    check_input-ok os content lawful fuel f engine app tame d1 p passed in
                  edited_copy tenant root p d d1 path (temp_document_path nanos (clean_path path))
                    commands s at ne direct k
                    (record {
                      inside = resolve-IsWithin (os.view d1) fuel root path false p found;
                      before = d1;
                      still = k;
                      real = resolve-false (os.view d1) fuel root path p found;
                    })
                    (lawful.eval_symlinks d1 (root ++ parts_of path) p
                      (resolve-false (os.view d1) fuel root path p found))
                    (λ e. s.vacant info (rw (← same_disk) (rw (← e) there))))
                (λ e _. Keeps-more os content (t ∷ []) d d1 k))
            (λ e. Keeps-more os content (t ∷ []) d d1 k))
        (λ e d1 k. Keeps-more os content (t ∷ []) d d1 k)
