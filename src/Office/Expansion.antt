-- ===== src/Office/Expansion.antt =====
-- The safety limit on the expanded size of a document, in internal/app/office.go.
use chat2work_mcp.Prelude.{
  ℕ, ◌+◌, ◌-◌, ◌%◌, ◌^◌, ◌≤◌, ◌<◌, ◌≡◌, List, [], ◌∷◌, arith, ltb, if◌then◌else◌, ok, err,
  expands_too_far,
}
use chat2work_mcp.Prelude.Int.{pos}
use chat2work_mcp.Office.{check_entries}

-- The size to which the entries say that they expand.
unfoldable pub expanded : List ℕ → ℕ
expanded [] = 0
expanded (size ∷ rest) = size + expanded rest

check_entries-from :
    (m total : ℕ) (sizes : List ℕ)
    → 0 < m
    → total ≤ m
    → total + expanded sizes < 2 ^ 64
    → check_entries (pos m) total sizes
      ≡ (if ltb m (total + expanded sizes) then err expands_too_far else ok tt)
unfolding check_entries expanded
check_entries-from m total [] p le small = ground arith
check_entries-from m total (size ∷ rest) p le small =
    ground (arith, check_entries-from m (total + size) rest p)

-- Where the declared sizes add up to less than 2^64, a document is accepted exactly if they stay
-- within the limit.
pub check_entries-exact :
    (m : ℕ) (sizes : List ℕ)
    → 0 < m
    → expanded sizes < 2 ^ 64
    → check_entries (pos m) 0 sizes
      ≡ (if ltb m (expanded sizes) then err expands_too_far else ok tt)
check_entries-exact m sizes p small = ground (arith, check_entries-from m 0 sizes p)

-- Declared sizes that add up to 2^64 or more can pass: an entry within the limit, then one that takes
-- the uint64 sum past its end, are worth no more than what is left of the sum.
pub check_entries-wraps :
    (m first second : ℕ) (rest : List ℕ)
    → first ≤ m
    → m < 2 ^ 63
    → second < 2 ^ 64
    → 2 ^ 64 ≤ first + second
    → check_entries (pos m) 0 (first ∷ second ∷ rest)
      ≡ check_entries (pos m) (first + second - 2 ^ 64) rest
unfolding check_entries
check_entries-wraps m first second rest le bound size over =
    let small : (0 + first) % 2 ^ 64 ≡ first = omega arith in
    let left : (first + second) % 2 ^ 64 ≡ first + second - 2 ^ 64 = omega arith in
    ground (arith, small, left)
