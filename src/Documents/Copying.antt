-- ===== src/Documents/Copying.antt =====
-- What the steps of the document tools in internal/app/server.go change: only the temporary copy.
use chat2work_mcp.Prelude.{
  ℕ, ◌≡◌, Bool, Option, some, List, [], ◌∷◌, arith, Bool-cases, inl, inr, split, Text, Result,
  Result-cases, ok, err,
}
use chat2work_mcp.Paths.{AbsPath, FileInfo, join, workspace_root}
use chat2work_mcp.Quota.{Files, no_caps}
use chat2work_mcp.Office.{check_office_input}
use chat2work_mcp.Disk.{Os, Bytes, call, on_error}
use chat2work_mcp.Disk.Steps.{After, After-bind, After-on_error}
use chat2work_mcp.Disk.Lawful.{Keeps, IsDirect, IsLawful, Filled}
use chat2work_mcp.Disk.Keeping.{Keeps-refl, Keeps-trans, Keeps-more, IsDirect-Keeps}
use chat2work_mcp.Files.Opening.{After-asks, After-root}
use chat2work_mcp.Server.{App}
use chat2work_mcp.Documents.{
  Engine, copied, copy_file, office_run, check_input, output_allowed, write_allowed,
}

-- What the program relies on of OfficeCLI: it changes only the document that it is given, relative
-- to its directory, and leaves a regular file or nothing there.
pub record IsTame {D : Type 0} (os : Os D) (content : D → AbsPath → Option Bytes)
    (engine : Engine D) : Type 0 where
  pub touches :
      (d : D) (root t : AbsPath) (verb rel_path : Text) (rest : List Bytes)
      → t ≡ join root (split b'/' rel_path)
      → IsDirect (os.view d) t
      → Keeps os content (t ∷ []) d (engine.execute root (verb ∷ rel_path ∷ rest) d).1
  pub regular :
      (d : D) (root t : AbsPath) (verb rel_path : Text) (rest : List Bytes) (info : FileInfo)
      → t ≡ join root (split b'/' rel_path)
      → (os.view (engine.execute root (verb ∷ rel_path ∷ rest) d).1).stat t ≡ ok info
      → (bytes : Bytes) × (content (engine.execute root (verb ∷ rel_path ∷ rest) d).1 t
          ≡ some bytes)

module _ {D : Type 0} (os : Os D) (content : D → AbsPath → Option Bytes)
    (lawful : IsLawful os content) where
  Filled-Keeps :
      (d : D) (p : AbsPath) (bytes : Bytes) (r : Result (Unit {0})) (d' : D)
      → Filled os content d p bytes r d'
      → Keeps os content (p ∷ []) d d'
  Filled-Keeps d p bytes (ok _) d' (has, k) = k
  Filled-Keeps d p bytes (err e) d' k = k

  pub quiet :
      (d d' d'' : D) (t : AbsPath)
      → Keeps os content (t ∷ []) d d'
      → Keeps os content [] d' d''
      → Keeps os content (t ∷ []) d d''
  quiet d d' d'' t k k' =
      Keeps-trans os content (t ∷ []) d d' d'' k (Keeps-more os content (t ∷ []) d' d'' k')

  copied-Keeps :
      (d d1 : D) (src t : AbsPath)
      → IsDirect (os.view d) t
      → Keeps os content (t ∷ []) d d1
      → After (copied os src t d1) (λ _ d2. Keeps os content (t ∷ []) d d2)
  unfolding copied
  copied-Keeps d d1 src t direct k =
      After-asks (λ _ d2. Keeps os content (t ∷ []) d d2) _ d1 (λ d. os.read_file d src)
        (λ bytes _. Keeps-trans os content (t ∷ []) d d1 (os.write t bytes d1).1 k (
          Filled-Keeps d1 t bytes (os.write t bytes d1).0 (os.write t bytes d1).1
            (lawful.write d1 t bytes (IsDirect-Keeps os content (t ∷ []) d d1 t k direct))))
        (λ e _. k)

  -- `copyFile` changes only its target.
  pub copy_file-Keeps :
      (d : D) (src t : AbsPath)
      → IsDirect (os.view d) t
      → After (copy_file os src t d) (λ _ d'. Keeps os content (t ∷ []) d d')
  unfolding copy_file
  copy_file-Keeps d src t direct =
      let Q : Result (Unit {0}) → D → Type 0 = λ _ d'. Keeps os content (t ∷ []) d d' in
      After-asks Q _ d (λ d. os.open_file d src)
        (λ _ _.
          After-bind Q Q (call (os.create t)) _ d (lawful.create d t direct)
            (λ _ d1 k1.
              After-bind Q Q (on_error (os.close t) (copied os src t)) _ d1
                (After-on_error Q Q (os.close t) (copied os src t) d1
                  (copied-Keeps d d1 src t direct k1) (λ _ d2 k. k)
                  (λ e d2 k. quiet d d2 (os.close t d2).1 t k (lawful.close d2 t)))
                (λ _ d2 k2. quiet d d2 (os.close t d2).1 t k2 (lawful.close d2 t)) (λ e d2 k. k))
            (λ e d1 k. k))
        (λ e _. Keeps-more os content (t ∷ []) d d (Keeps-refl os content d))

module _ {D : Type 0} (os : Os D) (content : D → AbsPath → Option Bytes)
    (lawful : IsLawful os content) (fuel : ℕ) (f : Files) (engine : Engine D) (app : App)
    (tame : IsTame os content engine) where
  -- The temporary document is a regular file, if there is one.
  pub record IsRegular (t : AbsPath) (d : D) : Type 0 where
    pub bytes_there :
        (info : FileInfo)
        → (os.view d).stat t ≡ ok info
        → (bytes : Bytes) × (content d t ≡ some bytes)

  abbrev pub Ran : AbsPath → D → Result Text → D → Type 0
  Ran t d (ok _) d' = IsRegular t d' × Keeps os content (t ∷ []) d d'
  Ran t d (err e) d' = Keeps os content (t ∷ []) d d'

  Ran-both :
      (t : AbsPath) (d : D) (r : Result Text) (d' : D)
      → IsRegular t d'
      → Keeps os content (t ∷ []) d d'
      → Ran t d r d'
  Ran-both t d (ok _) d' regular k = (regular, k)
  Ran-both t d (err e) d' regular k = k

  -- A run of OfficeCLI on the temporary document changes only this.
  pub office_run-Ran :
      (d d1 : D) (tenant : Text) (root t : AbsPath) (verb rel_path : Text) (rest : List Bytes)
      → workspace_root f.base tenant ≡ ok root
      → IsDirect (os.view d) root
      → IsDirect (os.view d) t
      → t ≡ join root (split b'/' rel_path)
      → Keeps os content (t ∷ []) d d1
      → After (office_run os fuel f engine app tenant (verb ∷ rel_path ∷ rest) d1) (Ran t d)
  unfolding office_run
  office_run-Ran d d1 tenant root t verb rel_path rest at direct direct_t where_t k =
      After-root os fuel f content lawful (Ran t d) _ d1 tenant root at
        (IsDirect-Keeps os content (t ∷ []) d d1 root k direct)
        (λ d2 k2.
          let k' : Keeps os content (t ∷ []) d d2 = quiet os content lawful d d1 d2 t k k2 in
          let d3 = (engine.execute root (verb ∷ rel_path ∷ rest) d2).1 in
          Ran-both t d (engine.execute root (verb ∷ rel_path ∷ rest) d2).0 d3
            (record {
              bytes_there = λ info. tame.regular d2 root t verb rel_path rest info where_t;
            })
            (Keeps-trans os content (t ∷ []) d d2 d3 k' (
              tame.touches d2 root t verb rel_path rest where_t
                (IsDirect-Keeps os content (t ∷ []) d d2 t k' direct_t))))
        (λ e d2 k2. quiet os content lawful d d1 d2 t k k2)

  -- The check of the output changes no file.
  pub output_allowed-Keeps :
      (d : D) (tenant : Text) (root final t : AbsPath) (is_new : Bool)
      → workspace_root f.base tenant ≡ ok root
      → IsDirect (os.view d) root
      → After
          (output_allowed os fuel f engine app tenant final t is_new d)
          (λ _ d'. Keeps os content [] d d')
  unfolding output_allowed
  output_allowed-Keeps d tenant root final t is_new at direct = elim (Bool-cases (no_caps f)) [
    | inl free ↦ rw free (Keeps-refl os content d)
    | inr capped ↦ rw capped (
        After-root os fuel f content lawful (λ _ d'. Keeps os content [] d d') _ d tenant root at
          direct (λ d' k. k) (λ e d' k. k))
  ]

  -- The check of a write changes no file.
  pub write_allowed-Keeps :
      (d : D) (tenant : Text) (root : AbsPath) (is_new : Bool)
      → workspace_root f.base tenant ≡ ok root
      → IsDirect (os.view d) root
      → After
          (write_allowed os fuel f engine app tenant is_new d)
          (λ _ d'. Keeps os content [] d d')
  unfolding write_allowed
  write_allowed-Keeps d tenant root is_new at direct = elim (Bool-cases (no_caps f)) [
    | inl free ↦ rw free (Keeps-refl os content d)
    | inr capped ↦ rw capped (
        After-root os fuel f content lawful (λ _ d'. Keeps os content [] d d') _ d tenant root at
          direct (λ d' k. k) (λ e d' k. k))
  ]

  -- A document that passes is there.
  pub check_input-ok :
      (d : D) (path : AbsPath)
      → check_input os fuel f engine app path d ≡ ok tt
      → (info : FileInfo) × ((os.view d).stat path ≡ ok info)
  unfolding check_input check_office_input
  check_input-ok d path h = elim (Result-cases ((os.view d).stat path)) [
    | inl found ↦ found
    | inr (e, p) ↦ absurd (ground (arith, h, p))
  ]
