-- ===== src/Files/Moving.antt =====
-- `Move` of internal/app/files.go.

use chat2work_mcp.Prelude.{
  ℕ, ◌≤◌, ◌≡◌, ◌≢◌, ◌∙◌, refl, inl, inr, true, false, Option, none, [], ◌∷◌, ◌++◌, arith, length,
  Text, Result, Result-cases, ok, err, Error,
}
use chat2work_mcp.Paths.{AbsPath, FileInfo, workspace_root}
use chat2work_mcp.Paths.Missing.{parts_of, resolve_total}
use chat2work_mcp.Paths.Within.{resolve-IsWithin}
use chat2work_mcp.Quota.{Files}
use chat2work_mcp.Disk.{Os, Bytes, asks, call, ◌>>=◌}
use chat2work_mcp.Disk.Steps.{After, After-bind}
use chat2work_mcp.Disk.Lawful.{Keeps, IsDirect, IsLawful}
use chat2work_mcp.Disk.Keeping.{Keeps-trans, IsDirect-Keeps}
use chat2work_mcp.Files.{dir_of, must_be_free, move}
use chat2work_mcp.Files.Replacing.{dir_of-append}
use chat2work_mcp.Files.Opening.{IsTarget, After-asks, After-root, After-resolved}
use chat2work_mcp.Files.Reading.{resolve-false, resolve-false-ne-none}
use chat2work_mcp.Files.Writing.{target-IsDirect, not-root}
use chat2work_mcp.Files.Removing.{above-IsDirect}

module _ {D : Type 0} (os : Os D) (content : D → AbsPath → Option Bytes)
    (lawful : IsLawful os content) (fuel : ℕ) (f : Files) where
  -- What was at or below the source is at or below the destination, nothing is left at or below the
  -- source, and outside the two nothing has changed.
  pub record Relocated (p target : AbsPath) (d d' : D) : Type 0 where
    pub there : (rest : AbsPath) → content d' (target ++ rest) ≡ content d (p ++ rest)
    pub gone : (rest : AbsPath) → content d' (p ++ rest) ≡ none
    pub others :
        (q : AbsPath)
        → ((rest : AbsPath) → q ≢ p ++ rest)
        → ((rest : AbsPath) → q ≢ target ++ rest)
        → content d' q ≡ content d q

  -- A file or directory has moved to another path where none was found, and no other file has changed;
  -- or no file has changed.
  abbrev pub Moved : AbsPath → Text → AbsPath → D → Result (Unit {0}) → D → Type 0
  Moved root src target d (ok _) d' =
      (p : AbsPath) × (d1 : D) × (e : Error) × IsTarget os content root src d p
      × (Keeps os content [] d d1 × ((os.view d1).lstat target ≡ err e))
      × (p ≢ target)
      × Relocated p target d d'
  Moved root src target d (err e) d' = Keeps os content [] d d'

  Renamed-Moved :
      (root : AbsPath) (src : Text) (target : AbsPath) (d d1 d2 : D) (p : AbsPath) (cause : Error)
      (r : Result (Unit {0})) (d3 : D)
      → IsTarget os content root src d p
      → Keeps os content [] d d1
      → (os.view d1).lstat target ≡ err cause
      → p ≢ target
      → Keeps os content [] d d2
      → ((e : Error) → r ≡ err e → Keeps os content [] d2 d3)
      → (r ≡ ok tt → Relocated p target d2 d3)
      → Moved root src target d r d3
  Renamed-Moved root src target d d1 d2 p cause (err e) d3 inside k1 free ne k failed moved =
      Keeps-trans os content [] d d2 d3 k (failed e refl)
  Renamed-Moved root src target d d1 d2 p cause (ok tt) d3 inside k1 free ne k failed moved =
      let done = moved refl in
      (
        p,
        d1,
        cause,
        inside,
        (k1, free),
        ne,
        record {
          there = λ rest. done.there rest ∙ k.same (p ++ rest) tt;
          gone = done.gone;
          others = λ q not_p not_t. done.others q not_p not_t ∙ k.same q tt;
        },
      )

  renamed-Relocated :
      (d : D) (dir dir' : AbsPath) (name name' : Text)
      → IsDirect (os.view d) dir
      → IsDirect (os.view d) dir'
      → dir ++ name ∷ [] ≢ dir' ++ name' ∷ []
      → (os.rename (dir ++ name ∷ []) (dir' ++ name' ∷ []) d).0 ≡ ok tt
      → Relocated
          (dir ++ name ∷ [])
          (dir' ++ name' ∷ [])
          d
          (os.rename (dir ++ name ∷ []) (dir' ++ name' ∷ []) d).1
  renamed-Relocated d dir dir' name name' direct direct' ne done = record {
    there = λ rest. (lawful.rename_moves d dir dir' name name' rest direct direct' ne done).0;
    gone = λ rest. (lawful.rename_moves d dir dir' name name' rest direct direct' ne done).1;
    others = λ q. lawful.rename_others d dir dir' name name' q direct direct';
  }

  -- `Move` once both paths are resolved
  Moved-on :
      (root pre : AbsPath) (src name : Text) (d d1 : D) (p : AbsPath) (info : FileInfo)
      → root ≢ []
      → IsTarget os content root src d p
      → IsDirect (os.view d1) p
      → (os.view d1).lstat p ≡ ok info
      → IsDirect (os.view d1) (root ++ pre)
      → Keeps os content [] d d1
      → After
          ((asks (must_be_free os ((root ++ pre) ++ name ∷ [])) >>= λ _.
              call (os.mkdir_all (dir_of ((root ++ pre) ++ name ∷ []))) >>= λ _.
              call (os.rename p ((root ++ pre) ++ name ∷ [])))
            d1)
          (Moved root src ((root ++ pre) ++ name ∷ []) d)
  unfolding must_be_free
  Moved-on root pre src name d d1 p info ne inside direct found direct' k =
      let target : AbsPath = (root ++ pre) ++ name ∷ [] in
      let Q = Moved root src target d in
      let (dir, name', at, above) =
        above-IsDirect os content lawful fuel f d1 root p ne inside.inside direct in
      rw (dir_of-append (root ++ pre) name) (
        After-asks Q _ d1 (must_be_free os target)
          (λ _ free. elim (Result-cases ((os.view d1).lstat target)) [
            | inl (info', taken) ↦ absurd (ground (arith, free, taken))
            | inr (cause, missing) ↦
                let apart : p ≢ target = λ e. ground (arith, found, missing, e) in
                After-bind (λ r d2. Keeps os content [] d1 d2) Q (call (os.mkdir_all (root ++ pre)))
                  (λ _. call (os.rename p target)) d1 (lawful.mkdir_all d1 (root ++ pre) direct')
                  (λ _ d2 k2.
                    Renamed-Moved root src target d d1 d2 p cause (os.rename p target d2).0
                      (os.rename p target d2).1 inside k missing apart
                      (Keeps-trans os content [] d d1 d2 k k2) (lawful.rename_failed d2 p target)
                      (rw at (
                        renamed-Relocated d2 dir (root ++ pre) name' name
                          (IsDirect-Keeps os content [] d1 d2 dir k2 above)
                          (IsDirect-Keeps os content [] d1 d2 (root ++ pre) k2 direct')
                          (rw at at apart))))
                  (λ e d2 k2. Keeps-trans os content [] d d1 d2 k k2)
          ])
          (λ e _. k))

  -- The operating system obeys IsLawful, no link leads to the workspace's directory, which is not "/",
  -- the destination is below it, and the fuel is one unit for each of its components. Then `Move`
  -- returns. If it succeeds, the source is the path within the directory to which the argument leads,
  -- and not the destination; Lstat of the destination failed before the call changed any file; what was
  -- at the source, and below it if it is a directory, is at the destination, nothing is left at or below
  -- the source, and outside the two no file has changed. If it fails, no file has changed.
  pub move-Moved :
      (d : D) (tenant src dst : Text) (root pre : AbsPath) (name : Text)
      → workspace_root f.base tenant ≡ ok root
      → root ≢ []
      → IsDirect (os.view d) root
      → parts_of dst ≡ pre ++ name ∷ []
      → length (parts_of dst) ≤ fuel
      → After (move os fuel f tenant src dst d) (Moved root src ((root ++ pre) ++ name ∷ []) d)
  unfolding move
  move-Moved d tenant src dst root pre name at ne direct parts enough =
      let Q = Moved root src ((root ++ pre) ++ name ∷ []) d in
      After-root os fuel f content lawful Q _ d tenant root at direct
        (λ d1 k.
          After-resolved os fuel f content lawful Q _ d1 root src false
            (resolve-false-ne-none (os.view d1) fuel root src)
            (λ p found.
              After-resolved os fuel f content lawful Q _ d1 root dst true
                (resolve_total (os.view d1) fuel root dst true (not-root dst pre name parts) enough)
                (λ q found'.
                  let (same_q, direct', _) =
                    target-IsDirect os content lawful fuel f d1 root q dst pre name
                      (IsDirect-Keeps os content [] d d1 root k direct) parts found' in
                  let (info, there) =
                    lawful.eval_lstat d1 (root ++ parts_of src) p
                      (resolve-false (os.view d1) fuel root src p found) in
                  rw same_q (
                    Moved-on root pre src name d d1 p info ne
                      (record {
                        inside = resolve-IsWithin (os.view d1) fuel root src false p found;
                        before = d1;
                        still = k;
                        real = resolve-false (os.view d1) fuel root src p found;
                      })
                      (lawful.eval_symlinks d1 (root ++ parts_of src) p
                        (resolve-false (os.view d1) fuel root src p found))
                      there direct' k))
                (λ e. k))
            (λ e. k))
        (λ e d1 k. k)
