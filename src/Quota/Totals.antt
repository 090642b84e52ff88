-- ===== src/Quota/Totals.antt =====
-- The two walks that measure a workspace, in internal/app/files.go.
use chat2work_mcp.Prelude.{
  ℕ, suc, ◌+◌, ◌-◌, ◌^◌, ◌≤◌, ◌<◌, ◌≡◌, inl, inr, false, ◌&&◌, Option, none, some, List, [], ◌∷◌,
  arith, ltb, Bool-cases, Option-cases,
}
use chat2work_mcp.Prelude.Int.{pos, ltb_ℤ, is_pos, ◌+ℤ◌, ◌-ℤ◌, int64-pos, int64-negsuc}
use chat2work_mcp.Paths.{AbsPath}
use chat2work_mcp.Quota.{Files, Visit, counted, usage_from, exact_from}

module _ (excluded : Option AbsPath) where
  -- The bytes and the files that a walk finds.
  unfoldable pub total : List Visit → ℕ
  total [] = 0
  total (v ∷ rest) = elim (counted excluded v) [ none ↦ total rest | some size ↦ size + total rest ]

  unfoldable pub files : List Visit → ℕ
  files [] = 0
  files (v ∷ rest) = elim (counted excluded v) [ none ↦ files rest | some size ↦ suc (files rest) ]

pub add-pos : (a b : ℕ) → a + b < 2 ^ 63 → pos a +ℤ pos b ≡ pos (a + b)
unfolding ◌+ℤ◌
add-pos a b h = ground (arith, int64-pos (a + b) 0)

-- a - b + c, where b is at most a and nothing wraps around
pub sub-add-pos :
    (a b c : ℕ)
    → b ≤ a
    → a < 2 ^ 63
    → a - b + c < 2 ^ 63
    → pos a -ℤ pos b +ℤ pos c ≡ pos (a - b + c)
unfolding ◌-ℤ◌
sub-add-pos a b c le small h = ground (arith, int64-pos a b, add-pos (a - b) c)

-- The same where the difference may be negative and the result is not.
pub sub-add-grow : (a b c : ℕ) → b ≤ c → a + c < 2 ^ 63 → pos a -ℤ pos b +ℤ pos c ≡ pos (a + c - b)
unfolding ◌-ℤ◌ ◌+ℤ◌
sub-add-grow a b c le h = elim (Bool-cases (ltb a b)) [
  | inl negative ↦ ground (arith, int64-negsuc a b, int64-pos c (b - a))
  | inr positive ↦ ground (arith, int64-pos a b, int64-pos (a - b + c) 0)
]

pub exact_from-total :
    (excluded : Option AbsPath) (b c : ℕ) (visits : List Visit)
    → b + total excluded visits < 2 ^ 63
    → c + files excluded visits < 2 ^ 63
    → exact_from excluded (pos b) (pos c) visits
      ≡ (pos (b + total excluded visits), pos (c + files excluded visits))
unfolding exact_from total files
exact_from-total excluded b c [] h k = ground arith
exact_from-total excluded b c (v ∷ rest) h k = elim (Option-cases (counted excluded v)) [
  | inl e ↦ ground (arith, e, exact_from-total excluded b c rest)
  | inr (size, e) ↦
      ground
        (arith, e, exact_from-total excluded (b + size) (c + 1) rest, add-pos b size, add-pos c 1)
]

-- The byte total and the file count stay within the caps.
abbrev pub UnderCaps : Files → ℕ → ℕ → Type 0
UnderCaps f b c =
    ((is_pos f.max_workspace_bytes && ltb_ℤ f.max_workspace_bytes (pos b)) ≡ false)
    × ((is_pos f.max_workspace_files && ltb_ℤ f.max_workspace_files (pos c)) ≡ false)

pub usage_from-total :
    (f : Files) (excluded : Option AbsPath) (b c : ℕ) (visits : List Visit)
    → b + total excluded visits < 2 ^ 63
    → c + files excluded visits < 2 ^ 63
    → UnderCaps f (b + total excluded visits) (c + files excluded visits)
    → usage_from f excluded (pos b) (pos c) visits
      ≡ (pos (b + total excluded visits), pos (c + files excluded visits))
unfolding usage_from total files
usage_from-total f excluded b c [] h k u = ground arith
usage_from-total f excluded b c (v ∷ rest) h k (u, w) = elim (Option-cases (counted excluded v)) [
  | inl e ↦ ground (arith, e, usage_from-total f excluded b c rest)
  | inr (size, e) ↦
      ground
        (arith, e, usage_from-total f excluded (b + size) (c + 1) rest, add-pos b size, add-pos c 1)
]
