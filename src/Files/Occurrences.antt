-- ===== src/Files/Occurrences.antt =====
-- Where `Edit` of internal/app/files.go finds the old text, and what it makes of the content.
use chat2work_mcp.Prelude.{
  ℕ, zero, suc, ◌+◌, ◌≤◌, ◌<◌, ◌≡◌, ◌≢◌, refl, ap, inl, inr, true, false, [], ◌∷◌, ◌++◌, arith,
  length, Bool-cases, has_prefix, has_prefix-append, ok,
}
use chat2work_mcp.Disk.{Bytes}
use chat2work_mcp.Files.{count_from, drop, replace_first, edited}

has_prefix-drop : (part s : Bytes) → has_prefix part s ≡ true → s ≡ part ++ drop (length part) s
unfolding has_prefix
has_prefix-drop [] s h = refl
has_prefix-drop (c ∷ part) [] h = cc
has_prefix-drop (c ∷ part) (a ∷ s) h = ground (arith, has_prefix-drop part s)

starts-here :
    (p c : ℕ) (part s y : Bytes) → c ∷ s ≡ p ∷ part ++ y → has_prefix (p ∷ part) (c ∷ s) ≡ true
starts-here p c part s y e = rw e (has_prefix-append (p ∷ part) y)

-- Where nothing is counted from `skip` on, no occurrence starts there.
none_counted :
    (p : ℕ) (part s : Bytes) (skip : ℕ) (x y : Bytes)
    → count_from (p ∷ part) skip s ≡ 0
    → s ≡ x ++ (p ∷ part ++ y)
    → length x < skip
unfolding count_from
none_counted p part [] skip [] y h e = cc
none_counted p part [] skip (a ∷ x) y h e = cc
none_counted p part (c ∷ s) (suc skip) [] y h e = omega arith
none_counted p part (c ∷ s) (suc skip) (a ∷ x) y h e =
    let ih = none_counted p part s skip x y h (cc) in omega (arith, ih)
none_counted p part (c ∷ s) zero [] y h e =
    let here = starts-here p c part s y e in absurd (ground (arith, h, here))
none_counted p part (c ∷ s) zero (a ∷ x) y h e = elim (Bool-cases (has_prefix (p ∷ part) (c ∷ s))) [
  | inl here ↦ absurd (ground (arith, h, here))
  | inr not_here ↦
      let ih = none_counted p part s zero x y (ground (arith, h, not_here)) (cc) in
      absurd (omega (arith, ih))
]

-- The text stands between `before` and `after`. Wherever it stands in the content, it starts there or
-- behind, and before the end of this occurrence: any other occurrence overlaps this one.
pub record IsOnly (part new s s' : Bytes) : Type 0 where
  pub before : Bytes
  pub after : Bytes
  pub found : s ≡ before ++ (part ++ after)
  pub replaced : s' ≡ before ++ (new ++ after)
  pub overlaps :
      (x y : Bytes)
      → s ≡ x ++ (part ++ y)
      → (length before ≤ length x) × (length x < length before + length part)

first-overlaps :
    (p c : ℕ) (part s x y : Bytes)
    → count_from (p ∷ part) (length part) s ≡ 0
    → c ∷ s ≡ x ++ (p ∷ part ++ y)
    → length x < length (p ∷ part)
first-overlaps p c part s [] y h e = omega arith
first-overlaps p c part s (a ∷ x) y h e =
    let short = none_counted p part s (length part) x y h (cc) in omega (arith, short)

later-overlaps :
    (p c : ℕ) (part s before x y : Bytes)
    → has_prefix (p ∷ part) (c ∷ s) ≡ false
    → ((x y : Bytes)
        → s ≡ x ++ (p ∷ part ++ y)
        → (length before ≤ length x) × (length x < length before + length (p ∷ part)))
    → c ∷ s ≡ x ++ (p ∷ part ++ y)
    → (length (c ∷ before) ≤ length x) × (length x < length (c ∷ before) + length (p ∷ part))
later-overlaps p c part s before [] y not_here rest e =
    let here = starts-here p c part s y e in absurd (ground (arith, not_here, here))
later-overlaps p c part s before (a ∷ x) y not_here rest e =
    let (le, lt) = rest x y (cc) in (omega (arith, le), omega (arith, lt))

pub count_one-IsOnly :
    (part new s : Bytes)
    → part ≢ []
    → count_from part zero s ≡ 1
    → IsOnly part new s (replace_first part new s)
unfolding count_from replace_first
count_one-IsOnly part new [] ne h = cc
count_one-IsOnly [] new (c ∷ s) ne h = absurd (ne refl)
count_one-IsOnly (p ∷ part) new (c ∷ s) ne h = elim (Bool-cases (has_prefix (p ∷ part) (c ∷ s))) [
  | inl here ↦ record {
    before = [];
    after = drop (length part) s;
    found = has_prefix-drop (p ∷ part) (c ∷ s) here;
    replaced = rw here refl;
    overlaps = λ x y e.
        let short = first-overlaps p c part s x y (ground (arith, h, here)) e in
        (omega arith, omega (arith, short));
  }
  | inr not_here ↦
      let rest = count_one-IsOnly (p ∷ part) new s ne (ground (arith, h, not_here)) in
      record {
        before = c ∷ rest.before;
        after = rest.after;
        found = ap (λ (x : Bytes). c ∷ x) rest.found;
        replaced = rw not_here (ap (λ (x : Bytes). c ∷ x) rest.replaced);
        overlaps = λ x y e. later-overlaps p c part s rest.before x y not_here rest.overlaps e;
      }
]

pub edited-IsOnly :
    (part new s s' : Bytes) → part ≢ [] → edited part new s ≡ ok s' → IsOnly part new s s'
unfolding edited
edited-IsOnly part new s s' ne h =
    let same_result : replace_first part new s ≡ s' = ground (arith, h) in
    rw same_result at (count_one-IsOnly part new s ne (ground (arith, h)))

-- Occurrences that overlap are counted once: the old text can stand at two places.
edited-overlap :
    (c : ℕ) (new : Bytes) → edited (c ∷ c ∷ []) new (c ∷ c ∷ c ∷ []) ≡ ok (new ++ c ∷ [])
unfolding edited count_from replace_first has_prefix
edited-overlap c new = ground arith
