-- ===== src/Paths/Parents.antt =====
-- `checkExistingParents` of internal/app/workspace.go: what it rules out, when it ends, and when it
-- does not.
use mathlib.Core.List.{reverse, reverse-append, reverse-reverse}
use chat2work_mcp.Prelude.{
  ℕ, zero, suc, ◌<◌, ◌≡◌, ◌≢◌, refl, sym, ap, ◌∙◌, ◌↔◌, true, false, none, some, List, [], ◌∷◌,
  ◌++◌, arith, length, length-append, Text, same_iff, ok,
}
use chat2work_mcp.Paths.{AbsPath, View, FileInfo, same_path, parent, check_from}

pub same_path_iff : (p q : AbsPath) → (same_path p q ≡ true) ↔ (p ≡ q)
unfolding same_path
same_path_iff [] [] = (λ _. refl, λ _. refl)
same_path_iff [] (b ∷ q) = (λ h. cc, λ h. cc)
same_path_iff (a ∷ p) [] = (λ h. cc, λ h. cc)
same_path_iff (a ∷ p) (b ∷ q) = (
  λ h. ground (arith, same_iff a b, (same_path_iff p q).0),
  λ h. ground (arith, same_iff a b, (same_path_iff p q).1),
)

pub length-reverse : (xs : List Text) → length (reverse xs) ≡ length xs
length-reverse [] = refl
length-reverse (x ∷ xs) =
    ap length (reverse-append (x ∷ []) xs)
    ∙ omega (arith, length-append {0} (reverse xs) (x ∷ []), length-reverse xs)

-- A list with items in front of it is another list.
longer_ne : (c : Text) (r above : List Text) → reverse (c ∷ r ++ above) ≢ reverse above
longer_ne c r above e = omega (
  arith,
  ap length e,
  length-reverse (c ∷ r ++ above),
  length-reverse above,
  length-append {0} r above,
)

-- The path is no symbolic link.
abbrev pub IsPlain : View → AbsPath → Type 0
IsPlain view p = (info : FileInfo) → view.lstat p ≡ ok info → info.is_symlink ≡ false

module _ (view : View) where
  here-IsPlain :
      (root : AbsPath) (fuel : ℕ) (current : List Text)
      → check_from view root (suc fuel) current ≡ some (ok tt)
      → IsPlain view (reverse current)
  unfolding check_from
  here-IsPlain root fuel current h info e = ground arith

  step_up :
      (root : AbsPath) (fuel : ℕ) (c : Text) (r : List Text)
      → reverse (c ∷ r) ≢ root
      → check_from view root (suc fuel) (c ∷ r) ≡ some (ok tt)
      → check_from view root fuel r ≡ some (ok tt)
  unfolding check_from
  step_up root fuel c r ne h = ground (arith, same_path_iff (reverse (c ∷ r)) root)

  -- Between the start of the loop and the root there is no link, both included.
  pub check_from-IsPlain :
      (root : AbsPath) (fuel : ℕ) (mid : List Text)
      → check_from view root fuel (mid ++ reverse root) ≡ some (ok tt)
      → (below above : List Text) → mid ≡ below ++ above
      → IsPlain view (reverse (above ++ reverse root))
  unfolding check_from
  check_from-IsPlain root zero mid h below above e = absurd (ground arith)
  check_from-IsPlain root (suc fuel) mid h [] above e =
      rw (← e) (here-IsPlain root fuel (mid ++ reverse root) h)
  check_from-IsPlain root (suc fuel) [] h (d ∷ below) above e = cc
  check_from-IsPlain root (suc fuel) (c ∷ mid) h (d ∷ below) above e =
      check_from-IsPlain root fuel mid
        (step_up root fuel c (mid ++ reverse root)
          (λ q. longer_ne c mid (reverse root) (q ∙ sym (reverse-reverse root))) h)
        below above (cc)

  -- Started below the root the loop ends, after a round for each directory on the way.
  pub check_from_total :
      (root : AbsPath) (fuel : ℕ) (mid : List Text)
      → length mid < fuel
      → check_from view root fuel (mid ++ reverse root) ≢ none
  unfolding check_from
  check_from_total root zero mid h = absurd (omega arith)
  check_from_total root (suc fuel) [] h =
      ground (arith, same_path_iff (reverse (reverse root)) root, reverse-reverse root)
  check_from_total root (suc fuel) (c ∷ mid) h = ground (arith, check_from_total root fuel mid)

  -- Started above the root, at directories that are there and are no links, the loop never ends.
  pub check_from_runs_on :
      (root : AbsPath) (fuel : ℕ) (current : List Text)
      → length current < length root
      → ((below above : List Text)
          → current ≡ below ++ above
          → (info : FileInfo) × (view.lstat (reverse above) ≡ ok info) × (info.is_symlink ≡ false))
      → check_from view root fuel current ≡ none
  unfolding check_from parent
  check_from_runs_on root zero current h dirs = refl
  check_from_runs_on root (suc fuel) [] h dirs =
      let (info, there, plain) = dirs [] [] refl in
      ground (arith, same_path_iff [] root, check_from_runs_on root fuel [] h dirs)
  check_from_runs_on root (suc fuel) (c ∷ r) h dirs =
      let (info, there, plain) = dirs [] (c ∷ r) refl in
      let rest =
        check_from_runs_on root fuel r (omega arith)
          (λ below above e. dirs (c ∷ below) above (ap (λ (x : List Text). c ∷ x) e)) in
      ground (arith, same_path_iff (reverse (c ∷ r)) root, length-reverse (c ∷ r), rest)
