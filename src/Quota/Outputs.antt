-- ===== src/Quota/Outputs.antt =====
-- `CheckOfficeOutputAllowed` of internal/app/files.go.
use chat2work_mcp.Prelude.{
  ℕ, ◌+◌, ◌-◌, ◌^◌, ◌≤◌, ◌<◌, ◌≡◌, ◌≢◌, ◌∙◌, ◌⊎◌, inl, inr, refl, Bool, true, false, ◌&&◌, none,
  some, List, [], ◌∷◌, arith, if◌then◌else◌, Result, ok, err, storage_quota, file_count_quota,
}
use chat2work_mcp.Prelude.Int.{pos, ltb_ℤ, is_pos}
use chat2work_mcp.Paths.{AbsPath, FileInfo}
use chat2work_mcp.Paths.Parents.{same_path_iff}
use chat2work_mcp.Quota.{
  Files, Visit, counted, usage_exact_excluding, check_output_sizes, check_office_output_allowed,
}
use chat2work_mcp.Quota.Totals.{total, files, add-pos, sub-add-pos, exact_from-total}

-- The rule for a document that replaces a file, or is a new one, by the bytes and the files after.
abbrev pub output_allowed : Files → ℕ → ℕ → Bool → Result (Unit {0})
output_allowed f bytes_after count_after is_new =
    if is_pos f.max_workspace_bytes && ltb_ℤ f.max_workspace_bytes (pos bytes_after)
    then err storage_quota
    else if is_new
        && (is_pos f.max_workspace_files && ltb_ℤ f.max_workspace_files (pos count_after))
    then err file_count_quota
    else ok tt

-- The visits have so many bytes and files, the output left out: a file is a visit elsewhere that did
-- not fail, is no directory, and whose size is known.
pub data Measures (output_path : AbsPath) : List Visit → ℕ → ℕ → Type 0 where
  no_visits : Measures output_path [] 0 0
  file_visit :
      (v : Visit) (rest : List Visit) (size bytes count : ℕ)
      → v.path ≢ output_path
      → v.failed ≡ false
      → v.is_dir ≡ false
      → v.size ≡ some size
      → Measures output_path rest bytes count
      → Measures output_path (v ∷ rest) (size + bytes) (count + 1)
  other_visit :
      (v : Visit) (rest : List Visit) (bytes count : ℕ)
      → (v.path ≡ output_path) ⊎ (v.failed ≡ true) ⊎ (v.is_dir ≡ true) ⊎ (v.size ≡ none)
      → Measures output_path rest bytes count
      → Measures output_path (v ∷ rest) bytes count

counted-file :
    (output_path : AbsPath) (v : Visit)
    → v.path ≢ output_path
    → v.failed ≡ false
    → v.is_dir ≡ false
    → counted (some output_path) v ≡ v.size
unfolding counted
counted-file output_path v ne works plain =
    ground (arith, ne, works, plain, same_path_iff v.path output_path)

counted-other :
    (output_path : AbsPath) (v : Visit)
    → (v.path ≡ output_path) ⊎ (v.failed ≡ true) ⊎ (v.is_dir ≡ true) ⊎ (v.size ≡ none)
    → counted (some output_path) v ≡ none
unfolding counted
counted-other output_path v (inl at) = ground (arith, at, same_path_iff v.path output_path)
counted-other output_path v (inr (inl failed)) = ground (arith, failed)
counted-other output_path v (inr (inr (inl dir))) = ground (arith, dir)
counted-other output_path v (inr (inr (inr unknown))) = ground (arith, unknown)

Measures-totals :
    (output_path : AbsPath) (visits : List Visit) (bytes count : ℕ)
    → Measures output_path visits bytes count
    → (total (some output_path) visits ≡ bytes) × (files (some output_path) visits ≡ count)
unfolding total files
Measures-totals output_path _ _ _ no_visits = (refl, refl)
Measures-totals output_path _ _ _ (file_visit v rest size bytes count ne works plain at h) =
    let (b, c) = Measures-totals output_path rest bytes count h in
    let here : counted (some output_path) v ≡ some size =
      counted-file output_path v ne works plain ∙ at in
    (ground (arith, here, b), ground (arith, here, c))
Measures-totals output_path _ _ _ (other_visit v rest bytes count why h) =
    let (b, c) = Measures-totals output_path rest bytes count h in
    let skipped = counted-other output_path v why in
    (ground (arith, skipped, b), ground (arith, skipped, c))

-- What a finished document replaces: nothing where it is new, else a file of this size.
abbrev pub Replaces : (AbsPath → Result FileInfo) → AbsPath → Bool → ℕ → Type 0
Replaces stat existing_path true size = size ≡ 0
Replaces stat existing_path false size =
    (info : FileInfo) × (stat existing_path ≡ ok info) × (info.size ≡ size)

module _ (f : Files) (visits : List Visit) (output_path : AbsPath) (bytes count : ℕ)
    (measured : Measures output_path visits bytes count) where
  usage-exact :
      bytes < 2 ^ 63
      → count < 2 ^ 63
      → usage_exact_excluding output_path visits ≡ (pos bytes, pos count)
  unfolding usage_exact_excluding
  usage-exact small few =
      let (b, c) = Measures-totals output_path visits bytes count measured in
      ground (arith, b, c, exact_from-total (some output_path) 0 0 visits)

  sizes-exact :
      (existing_size output_size : ℕ) (is_new : Bool)
      → existing_size ≤ bytes
      → bytes + output_size < 2 ^ 63
      → count + 1 < 2 ^ 63
      → check_output_sizes f visits output_path existing_size output_size is_new
        ≡ output_allowed f (bytes - existing_size + output_size) (count + 1) is_new
  unfolding check_output_sizes
  sizes-exact existing_size output_size is_new le fits few =
      ground (arith, usage-exact, sub-add-pos bytes existing_size output_size le, add-pos count 1)

  -- The workspace has `bytes` bytes in `count` files, the temporary output left out. The output exists;
  -- where the document is not new, the file that it replaces exists, and its size is among these bytes;
  -- and the sums stay below 2^63. Then, also in a workspace that is past its caps, the check of a
  -- finished document decides by these bytes, less the file that is replaced, plus the output, and where
  -- the document is new, by one file more than `count`.
  pub check_office_output_allowed-exact :
      (stat : AbsPath → Result FileInfo) (existing_path : AbsPath) (is_new : Bool)
      (existing_size : ℕ) (output : FileInfo)
      → stat output_path ≡ ok output
      → Replaces stat existing_path is_new existing_size
      → existing_size ≤ bytes
      → bytes + output.size < 2 ^ 63
      → count + 1 < 2 ^ 63
      → check_office_output_allowed f stat visits existing_path output_path is_new
        ≡ output_allowed f (bytes - existing_size + output.size) (count + 1) is_new
  unfolding check_office_output_allowed
  check_office_output_allowed-exact stat existing_path true existing_size output at none_there le
        fits few =
      ground (arith, at, none_there, sizes-exact 0 output.size true)
  check_office_output_allowed-exact stat existing_path false existing_size output at
        (info, at', size) le fits few =
      ground (arith, at, at', size, sizes-exact info.size output.size false)
