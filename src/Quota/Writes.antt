-- ===== src/Quota/Writes.antt =====
-- `enforceQuota` and `CheckWriteAllowed` of internal/app/files.go, against the totals of the
-- workspace.
use chat2work_mcp.Prelude.{
  ℕ, ◌+◌, ◌-◌, ◌^◌, ◌≤◌, ◌<◌, ◌≡◌, inl, inr, Bool, false, ◌&&◌, none, some, List, [], ◌∷◌, ◌++◌,
  arith, ltb, Bool-cases, if◌then◌else◌, Option-cases, Result, ok, err, storage_quota,
  file_count_quota,
}
use chat2work_mcp.Prelude.Int.{pos, ltb_ℤ, leb_ℤ, is_pos}
use chat2work_mcp.Quota.{Files, Visit, counted, usage_from, usage, enforce_quota}
use chat2work_mcp.Quota.Totals.{
  total, files, add-pos, sub-add-pos, sub-add-grow, UnderCaps, usage_from-total,
}

-- What a write may do, by the true totals of the workspace: `bytes` before it, `count` files.
abbrev pub allowed : Files → ℕ → ℕ → Bool → Result (Unit {0})
allowed f bytes_after count is_new =
    if is_pos f.max_workspace_bytes && ltb_ℤ f.max_workspace_bytes (pos bytes_after)
    then err storage_quota
    else if is_new && (is_pos f.max_workspace_files && leb_ℤ f.max_workspace_files (pos count))
    then err file_count_quota
    else ok tt

module _ (f : Files) (visits : List Visit) (small : total none visits < 2 ^ 63)
    (few : files none visits < 2 ^ 63) where
  usage-total :
      UnderCaps f (total none visits) (files none visits)
      → usage f visits ≡ (pos (total none visits), pos (files none visits))
  unfolding usage
  usage-total under = ground (arith, usage_from-total f none 0 0 visits)

  -- In a workspace that is within its caps `enforceQuota` decides by the true totals: it refuses
  -- exactly what would take the bytes past their cap, or add a file when the count has reached its
  -- cap.
  pub enforce_quota-within :
      (new_size existing_size : ℕ) (is_new : Bool)
      → UnderCaps f (total none visits) (files none visits)
      → existing_size ≤ total none visits
      → total none visits - existing_size + new_size < 2 ^ 63
      → enforce_quota f visits new_size existing_size is_new
        ≡ allowed f (total none visits - existing_size + new_size) (files none visits) is_new
  unfolding enforce_quota
  enforce_quota-within new_size existing_size is_new under le fits = ground (
    arith,
    usage-total under,
    sub-add-pos (total none visits) existing_size new_size le small fits,
  )

  -- A write that `enforceQuota` accepts leaves a workspace that was within its caps within them: the
  -- bytes after the write, and the files, one more if the file is new.
  pub enforce_quota-UnderCaps :
      (new_size existing_size : ℕ) (is_new : Bool)
      → UnderCaps f (total none visits) (files none visits)
      → existing_size ≤ total none visits
      → total none visits - existing_size + new_size < 2 ^ 63
      → enforce_quota f visits new_size existing_size is_new ≡ ok tt
      → UnderCaps f
          (total none visits - existing_size + new_size)
          (files none visits + (if is_new then 1 else 0))
  enforce_quota-UnderCaps new_size existing_size is_new under le fits accepted =
      let decided = enforce_quota-within new_size existing_size is_new under le fits in
      (ground (arith, decided), count_after is_new under.1 (ground (arith, decided)))
    where
      count_after :
          (new : Bool)
          → (is_pos f.max_workspace_files && ltb_ℤ f.max_workspace_files (pos (files none visits)))
            ≡ false
          → (new
              && (is_pos f.max_workspace_files
                  && leb_ℤ f.max_workspace_files (pos (files none visits))))
            ≡ false
          → (is_pos f.max_workspace_files
              && ltb_ℤ f.max_workspace_files (pos (files none visits + (if new then 1 else 0))))
            ≡ false
      count_after new h k = ground arith

-- With the bytes past their cap and the count within its own, the walk stops past the cap.
usage_from-over :
    (f : Files) (m b c : ℕ) (visits : List Visit)
    → f.max_workspace_bytes ≡ pos m
    → 0 < m
    → b ≤ m
    → m < b + total none visits
    → b + total none visits < 2 ^ 63
    → c + files none visits < 2 ^ 63
    → (is_pos f.max_workspace_files && ltb_ℤ f.max_workspace_files (pos (c + files none visits)))
      ≡ false
    → (u : ℕ) × (n : ℕ) × (usage_from f none (pos b) (pos c) visits ≡ (pos u, pos n))
      × (m < u)
      × (u ≤ b + total none visits)
unfolding usage_from total files
usage_from-over f m b c [] eq p under over small few k = absurd (omega arith)
usage_from-over f m b c (v ∷ rest) eq p under over small few k =
    elim (Option-cases (counted none v)) [
      | inl e ↦
          let (u, n, q, lo, hi) =
            usage_from-over f m b c rest eq p under (ground (arith, e)) (ground (arith, e))
              (ground (arith, e)) (ground (arith, e)) in
          (u, n, ground (arith, e, q), lo, ground (arith, e))
      | inr (size, e) ↦ elim (Bool-cases (ltb m (b + size))) [
        | inl past ↦ (
          b + size,
          c + 1,
          ground (arith, e, eq, add-pos b size, add-pos c 1),
          ground arith,
          ground (arith, e),
        )
        | inr fits ↦
            let (u, n, q, lo, hi) =
              usage_from-over f m (b + size) (c + 1) rest eq p (ground arith) (ground (arith, e))
                (ground (arith, e)) (ground (arith, e)) (ground (arith, e)) in
            (u, n, ground (arith, e, eq, q, add-pos b size, add-pos c 1), lo, ground (arith, e))
      ]
    ]

-- In a workspace whose bytes are past their cap, while its count is not, an accepted write replaces a
-- file by a smaller one: usage never grows further.
pub enforce_quota-over :
    (f : Files) (m : ℕ) (visits : List Visit) (new_size existing_size : ℕ) (is_new : Bool)
    → f.max_workspace_bytes ≡ pos m
    → 0 < m
    → m < total none visits
    → total none visits + new_size < 2 ^ 63
    → files none visits < 2 ^ 63
    → (is_pos f.max_workspace_files && ltb_ℤ f.max_workspace_files (pos (files none visits)))
      ≡ false
    → enforce_quota f visits new_size existing_size is_new ≡ ok tt
    → new_size < existing_size
unfolding enforce_quota usage
enforce_quota-over f m visits new_size existing_size is_new eq p over fits few k accepted =
    let (u, n, q, lo, hi) =
      usage_from-over f m 0 0 visits eq p (omega arith) (omega arith) (omega arith) (omega arith)
        (ground arith) in
    ground (arith, eq, q, sub-add-grow u existing_size new_size)

module _ (f : Files) (m n : ℕ) (cap_bytes : f.max_workspace_bytes ≡ pos m)
    (cap_files : f.max_workspace_files ≡ pos n) (some_files : 0 < n) (bound_m : m < 2 ^ 63)
    (bound_n : n < 2 ^ 62) (last : Visit) (size : ℕ) (at : counted none last ≡ some size)
    (behind : List Visit) where
  usage_from-stops :
      (front : List Visit) (b c : ℕ)
      → c + files none front ≡ n
      → b + total none front + size ≤ m
      → usage_from f none (pos b) (pos c) (front ++ last ∷ behind)
        ≡ (pos (b + total none front + size), pos (n + 1))
  unfolding usage_from total files
  usage_from-stops [] b c full under =
      ground (arith, at, cap_bytes, cap_files, add-pos b size, add-pos c 1)
  usage_from-stops (v ∷ front) b c full under = elim (Option-cases (counted none v)) [
    | inl e ↦ ground (arith, e, usage_from-stops front b c)
    | inr (s, e) ↦ ground (
      arith,
      e,
      cap_bytes,
      cap_files,
      add-pos b s,
      add-pos c 1,
      usage_from-stops front (b + s) (c + 1),
    )
  ]

  -- Once the count is past its cap the walk stops there, and the byte check sees none of the files
  -- behind: whatever `behind` holds, and so however many bytes the workspace has, a replacement is
  -- accepted that fits beside the files in front.
  pub enforce_quota-behind :
      (front : List Visit) (new_size existing_size : ℕ)
      → files none front ≡ n
      → total none front + size ≤ m
      → existing_size ≤ total none front + size
      → total none front + size - existing_size + new_size ≤ m
      → enforce_quota f (front ++ last ∷ behind) new_size existing_size false ≡ ok tt
  unfolding enforce_quota usage
  enforce_quota-behind front new_size existing_size full under le fits = ground (
    arith,
    cap_bytes,
    usage_from-stops front 0 0,
    sub-add-pos (total none front + size) existing_size new_size le,
  )
