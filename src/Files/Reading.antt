-- ===== src/Files/Reading.antt =====
-- `Read` of internal/app/files.go.
use chat2work_mcp.Prelude.{
  ℕ, zero, suc, ◌+◌, ◌≤◌, ◌<◌, ◌^◌, ◌-◌, ◌≡◌, ◌≢◌, ◌∙◌, refl, sym, ap, inl, inr, false, not, ◌&&◌,
  ◌||◌, if◌then◌else◌, Option, none, some, List, [], ◌∷◌, ◌++◌, arith, length, take, Text, Result,
  Result-cases, ok, err,
}
use chat2work_mcp.Prelude.Int.{ℤ, pos, negsuc, ltb_ℤ, ◌+ℤ◌, int64-pos, pos_part, is_pos}
use chat2work_mcp.Paths.{AbsPath, View, FileInfo, resolve, resolve_existing, workspace_root}
use chat2work_mcp.Paths.Missing.{parts_of, resolve_lem}
use chat2work_mcp.Paths.Within.{IsWithin, resolve-IsWithin}
use chat2work_mcp.Quota.{Files}
use chat2work_mcp.Disk.{Os, Bytes, asks, ◌>>=◌}
use chat2work_mcp.Disk.Steps.{After, After-imp}
use chat2work_mcp.Disk.Lawful.{Keeps, IsDirect, IsLawful}
use chat2work_mcp.Files.{read_max, limited, read_at, read, resolved}
use chat2work_mcp.Files.Opening.{After-root, After-resolved}

module _ (view : View) (fuel : ℕ) (root : AbsPath) (path : Text) where
  -- Without allowMissing, what `resolve` returns is what filepath.EvalSymlinks makes of the path.
  pub resolve-false :
      (p : AbsPath)
      → resolve view fuel root path false ≡ some (ok p)
      → view.eval_symlinks (root ++ parts_of path) ≡ ok p
  unfolding resolve_existing
  resolve-false p h = ground (arith, resolve_lem view fuel root path false)

  pub resolve-false-ne-none : resolve view fuel root path false ≢ none
  resolve-false-ne-none e = ground (arith, resolve_lem view fuel root path false)

take-length : {A : Type 0} (n : ℕ) (xs : List A) → length xs ≤ n → take n xs ≡ xs
take-length zero [] h = refl
take-length zero (x ∷ xs) h = absurd (omega arith)
take-length (suc n) [] h = refl
take-length (suc n) (x ∷ xs) h = ap (λ (t : List _). x ∷ t) (take-length n xs (omega arith))

-- the limit in force, of a configured limit and that of a call
abbrev smaller : ℤ → ℤ → ℤ
smaller own asked = if not (is_pos asked) || ltb_ℤ own asked then own else asked

smaller-le : (own asked : ℤ) → pos_part (smaller own asked) ≤ pos_part own
smaller-le (pos a) (pos b) = ground arith
smaller-le (pos a) (negsuc b) = ground arith
smaller-le (negsuc a) (pos b) = ground arith
smaller-le (negsuc a) (negsuc b) = ground arith

smaller-caps :
    (own asked : ℤ) (n : ℕ)
    → ltb_ℤ (smaller own asked) (pos n) ≡ false
    → (ltb_ℤ own (pos n) ≡ false) × ((is_pos asked && ltb_ℤ asked (pos n)) ≡ false)
smaller-caps (pos a) (pos b) n h = (ground (arith, h), ground (arith, h))
smaller-caps (pos a) (negsuc b) n h = (ground (arith, h), refl)
smaller-caps (negsuc a) (pos b) n h = (ground (arith, h), ground (arith, h))
smaller-caps (negsuc a) (negsuc b) n h = (ground (arith, h), refl)

module _ {D : Type 0} (os : Os D) (content : D → AbsPath → Option Bytes)
    (lawful : IsLawful os content) (fuel : ℕ) (f : Files) where
  -- The limit of a read, one byte more than `max`, leaves a file of at most `max` bytes whole.
  limited-whole :
      (max : ℤ) (bytes : Bytes)
      → pos_part max < 2 ^ 63 - 1
      → ltb_ℤ max (pos (length bytes)) ≡ false
      → limited os fuel f max bytes ≡ bytes
  unfolding ◌+ℤ◌
  limited-whole (pos n) bytes small fits =
      rw (int64-pos (n + 1) 0 (omega arith) (omega (arith, small)))
        (take-length (n + 1 - 0) bytes (ground arith))
  limited-whole (negsuc n) bytes small fits = absurd (ground arith)

  read_at-steps :
      (d : D) (p : AbsPath) (max : ℤ) (bytes : Bytes)
      → read_at os fuel f p max d ≡ ok bytes
      → (info : FileInfo) × (whole : Bytes) × ((os.view d).stat p ≡ ok info)
        × (ltb_ℤ max (pos info.size) ≡ false)
        × (os.read_file d p ≡ ok whole)
        × (bytes ≡ limited os fuel f max whole)
  unfolding read_at
  read_at-steps d p max bytes h = elim (Result-cases ((os.view d).stat p)) [
    | inr (e, s) ↦ absurd (ground (arith, h, s))
    | inl (info, s) ↦ elim (Result-cases (os.open_file d p)) [
      | inr (e, o) ↦ absurd (ground (arith, h, s, o))
      | inl (_, o) ↦ elim (Result-cases (os.read_file d p)) [
        | inr (e, r) ↦ absurd (ground (arith, h, s, o, r))
        | inl (whole, r) ↦ (info, whole, s, ground (arith, h, s), r, ground (arith, h, s, o, r))
      ]
    ]
  ]

  -- The whole content of a regular file within the limit
  pub read_at-ok :
      (d : D) (p : AbsPath) (max : ℤ) (bytes : Bytes)
      → IsDirect (os.view d) p
      → pos_part max < 2 ^ 63 - 1
      → read_at os fuel f p max d ≡ ok bytes
      → (content d p ≡ some bytes) × (ltb_ℤ max (pos (length bytes)) ≡ false)
  read_at-ok d p max bytes direct small h =
      let (info, whole, found, fits, whole_read, cut) = read_at-steps d p max bytes h in
      let here : content d p ≡ some whole = lawful.read_file d p whole direct whole_read in
      let size : info.size ≡ length whole = (lawful.stat d p info whole here found).1 in
      let fits' : ltb_ℤ max (pos (length whole)) ≡ false = rw (← size) fits in
      let same_bytes : bytes ≡ whole = cut ∙ limited-whole max whole small fits' in
      (here ∙ ap some (sym same_bytes), rw same_bytes fits')

  -- What was read is the whole content of a file in the workspace, within the limit; nothing changes.
  abbrev pub ReadFrom : AbsPath → Text → ℤ → D → Result Bytes → D → Type 0
  ReadFrom root path max d (ok bytes) d' =
      (p : AbsPath) × IsWithin root p
      × ((os.view d').eval_symlinks (root ++ parts_of path) ≡ ok p)
      × (content d p ≡ some bytes)
      × (ltb_ℤ max (pos (length bytes)) ≡ false)
      × Keeps os content [] d d'
  ReadFrom root path max d (err e) d' = Keeps os content [] d d'

  read_found :
      (d d' : D) (root p : AbsPath) (path : Text) (max : ℤ) (r : Result Bytes)
      → pos_part max < 2 ^ 63 - 1
      → Keeps os content [] d d'
      → resolve (os.view d') fuel root path false ≡ some (ok p)
      → read_at os fuel f p max d' ≡ r
      → ReadFrom root path max d r d'
  read_found d d' root p path max (ok bytes) small k found h =
      let real = resolve-false (os.view d') fuel root path p found in
      let (here, fits) =
        read_at-ok d' p max bytes (lawful.eval_symlinks d' (root ++ parts_of path) p real) small
          h in
      (
        p,
        resolve-IsWithin (os.view d') fuel root path false p found,
        real,
        sym (k.same p tt) ∙ here,
        fits,
        k,
      )
  read_found d d' root p path max (err e) small k found h = k

  -- `Read`, by the limit in force
  pub read-ReadFrom :
      (d : D) (tenant path : Text) (max_bytes : ℤ) (root : AbsPath)
      → workspace_root f.base tenant ≡ ok root
      → IsDirect (os.view d) root
      → pos_part (read_max os fuel f max_bytes) < 2 ^ 63 - 1
      → After
          (read os fuel f tenant path max_bytes d)
          (ReadFrom root path (read_max os fuel f max_bytes) d)
  unfolding read
  read-ReadFrom d tenant path max_bytes root at direct small =
      let max = read_max os fuel f max_bytes in
      let Q = ReadFrom root path max d in
      After-root os fuel f content lawful Q
        (λ root. resolved os fuel f root path false >>= λ p. asks (read_at os fuel f p max)) d
        tenant root at direct
        (λ d' k.
          After-resolved os fuel f content lawful Q (λ p. asks (read_at os fuel f p max)) d' root
            path false (resolve-false-ne-none (os.view d') fuel root path)
            (λ p found.
              read_found d d' root p path max (read_at os fuel f p max d') small k found refl)
            (λ e. k))
        (λ e d' k. k)

  -- What was read is the whole content of a file in the workspace, not longer than the configured limit
  -- nor than a positive limit of the call; nothing changes.
  abbrev pub Capped : AbsPath → Text → ℤ → D → Result Bytes → D → Type 0
  Capped root path max_bytes d (ok bytes) d' =
      (p : AbsPath) × IsWithin root p
      × ((os.view d').eval_symlinks (root ++ parts_of path) ≡ ok p)
      × (content d p ≡ some bytes)
      × (ltb_ℤ f.max_bytes (pos (length bytes)) ≡ false)
      × ((is_pos max_bytes && ltb_ℤ max_bytes (pos (length bytes))) ≡ false)
      × Keeps os content [] d d'
  Capped root path max_bytes d (err e) d' = Keeps os content [] d d'

  ReadFrom-Capped :
      (root : AbsPath) (path : Text) (max_bytes : ℤ) (d : D) (r : Result Bytes) (d' : D)
      → ReadFrom root path (read_max os fuel f max_bytes) d r d'
      → Capped root path max_bytes d r d'
  ReadFrom-Capped root path max_bytes d (ok bytes) d' (p, inside, real, here, fits, k) =
      let (own, asked) = smaller-caps f.max_bytes max_bytes (length bytes) fits in
      (p, inside, real, here, own, asked, k)
  ReadFrom-Capped root path max_bytes d (err e) d' k = k

  -- The operating system obeys IsLawful, no link leads to the workspace's directory, and the configured
  -- size limit is below 2^63 - 1. Then `Read` returns and changes no file. If it succeeds, what it
  -- returns is the whole content of a file within the directory, to which the path leads; it is not
  -- longer than the configured limit, nor than the limit of the call where that is positive.
  pub read-Capped :
      (d : D) (tenant path : Text) (max_bytes : ℤ) (root : AbsPath)
      → workspace_root f.base tenant ≡ ok root
      → IsDirect (os.view d) root
      → pos_part f.max_bytes < 2 ^ 63 - 1
      → After (read os fuel f tenant path max_bytes d) (Capped root path max_bytes d)
  read-Capped d tenant path max_bytes root at direct small =
      let le = smaller-le f.max_bytes max_bytes in
      After-imp (ReadFrom root path (read_max os fuel f max_bytes) d) (Capped root path max_bytes d)
        (read os fuel f tenant path max_bytes d)
        (read-ReadFrom d tenant path max_bytes root at direct (omega (arith, le, small)))
        (ReadFrom-Capped root path max_bytes d)
