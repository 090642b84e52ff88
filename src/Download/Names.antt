-- ===== src/Download/Names.antt =====
-- The file name in the Content-Disposition header of internal/app/artifact.go.
use mathlib.Core.List.{reverse, reverse-append}
use chat2work_mcp.Prelude.{
  ℕ, ◌≤◌, ◌≡◌, ◌≢◌, refl, ap, false, [], ◌∷◌, arith, Text, codes, same, same_iff, is_space,
  trim_left, trim_space, All, All-append, Bool-cases, inl, inr,
}
use chat2work_mcp.Download.{dropped_rune, kept_runes, sanitize_download_name}

-- A character that can stand between the quotes of the header: no quote, no backslash and no ASCII
-- control character.
abbrev pub IsQuotable : ℕ → Type 0
IsQuotable r = (r ≢ 0x22) × (r ≢ 0x5c) × (0x20 ≤ r) × (r ≢ 0x7f)

IsQuotable-kept : (r : ℕ) → dropped_rune r ≡ false → IsQuotable r
unfolding dropped_rune
IsQuotable-kept r h = (
  (λ e. ground (arith, h, e)),
  (λ e. ground (arith, h, e)),
  ground (arith, h),
  (λ e. ground (arith, h, e)),
)

kept-IsQuotable : (r : ℕ) → IsQuotable r → dropped_rune r ≡ false
unfolding dropped_rune
kept-IsQuotable r (q, b, c, d) = ground (arith, q, b, c, d)

All-reverse : (s : Text) → All IsQuotable s → All IsQuotable (reverse s)
All-reverse [] h = tt
All-reverse (c ∷ s) (hc, h) =
    rw (reverse-append (c ∷ []) s)
      (All-append IsQuotable (reverse s) (c ∷ []) (All-reverse s h) (hc, tt))

All-trim_left : (s : Text) → All IsQuotable s → All IsQuotable (trim_left s)
unfolding trim_left
All-trim_left [] h = tt
All-trim_left (c ∷ s) (hc, h) = elim (Bool-cases (is_space c)) [
  | inl e ↦ rw e (All-trim_left s h)
  | inr e ↦ rw e (hc, h)
]

All-trim_space : (s : Text) → All IsQuotable s → All IsQuotable (trim_space s)
unfolding trim_space
All-trim_space s h =
    All-reverse (trim_left (reverse (trim_left s)))
      (All-trim_left (reverse (trim_left s)) (All-reverse (trim_left s) (All-trim_left s h)))

All-kept_runes : (s : Text) → All IsQuotable (kept_runes s)
unfolding kept_runes
All-kept_runes [] = tt
All-kept_runes (r ∷ s) = elim (Bool-cases (dropped_rune r)) [
  | inl e ↦ rw e (All-kept_runes s)
  | inr e ↦ rw e (IsQuotable-kept r e, All-kept_runes s)
]

kept_runes-same : (s : Text) → All IsQuotable s → kept_runes s ≡ s
unfolding kept_runes
kept_runes-same [] h = refl
kept_runes-same (r ∷ s) (hr, h) = rw (kept-IsQuotable r hr) (ap (λ t. r ∷ t) (kept_runes-same s h))

kept-All : (s : Text) → kept_runes s ≡ s → All IsQuotable s
kept-All s h = rw (← h) (All-kept_runes s)

default_kept : kept_runes (codes "download") ≡ codes "download"
unfolding kept_runes dropped_rune
default_kept = refl

default-IsQuotable : All IsQuotable (codes "download")
default-IsQuotable = kept-All (codes "download") default_kept

-- What `sanitizeDownloadName` returns is not empty and has no quote, no backslash and no ASCII
-- control character, whatever the file is called.
pub sanitize-IsQuotable :
    (name : Text)
    → (sanitize_download_name name ≢ []) × All IsQuotable (sanitize_download_name name)
unfolding sanitize_download_name
sanitize-IsQuotable name = elim (Bool-cases (same (trim_space (kept_runes name)) [])) [
  | inl e ↦ rw e ((λ p. cc), default-IsQuotable)
  | inr e ↦ rw e (
    (λ p. ground (arith, e, p, same_iff (trim_space (kept_runes name)) [])),
    All-trim_space (kept_runes name) (All-kept_runes name),
  )
]

-- `sanitizeDownloadName` keeps a name as it is that has no quote, no backslash and no ASCII control
-- character, is not empty, and does not start or end with white space.
pub sanitize-same :
    (name : Text)
    → trim_space name ≡ name
    → All IsQuotable name
    → name ≢ []
    → sanitize_download_name name ≡ name
unfolding sanitize_download_name
sanitize-same name t h ne = rw (kept_runes-same name h, t) (ground (arith, ne, same_iff name []))
