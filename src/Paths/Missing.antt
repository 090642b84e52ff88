-- ===== src/Paths/Missing.antt =====
-- `resolve` of internal/app/workspace.go where the path may be missing: the targets of writes.
use mathlib.Core.List.{reverse, reverse-append, reverse-reverse, append-nil}
use chat2work_mcp.Prelude.{
  ℕ, ◌≤◌, ◌≡◌, ◌≢◌, refl, sym, ap, ◌∙◌, inl, inr, Bool, true, false, ◌||◌, none, some, List, [],
  ◌∷◌, ◌++◌, arith, length, if◌then◌else◌, Bool-cases, Text, codes, has_prefix, All, ok, err,
  absolute_path, path_escapes,
}
use chat2work_mcp.Paths.{
  check_from, AbsPath, View, FileInfo, clean, join, rel, escapes, parent, or_dot, resolve,
  resolve_missing, resolve_existing, check_existing_parents,
}
use chat2work_mcp.Paths.Cleaning.{IsName, clean-names, join-names, rel-append}
use chat2work_mcp.Paths.Parents.{
  IsPlain, check_from-IsPlain, check_from_total, check_from_runs_on, length-reverse,
}

-- the components of the cleaned argument
abbrev pub parts_of : Text → List Text
parts_of supplied = (clean (or_dot supplied)).parts

-- neither a leading "/" nor a leading "\"
abbrev pub IsRelative : Text → Type 0
IsRelative supplied =
    (has_prefix (codes "/") (or_dot supplied) ≡ false)
    × (has_prefix (codes "\\") (or_dot supplied) ≡ false)

parts-names :
    (supplied : Text)
    → has_prefix (codes "/") (or_dot supplied) ≡ false
    → escapes (parts_of supplied) ≡ false
    → All IsName (parts_of supplied)
parts-names supplied r e = clean-names (or_dot supplied) (unfold clean in r) e

full_path :
    (root : AbsPath) (supplied : Text)
    → has_prefix (codes "/") (or_dot supplied) ≡ false
    → escapes (parts_of supplied) ≡ false
    → (join root (parts_of supplied) ≡ root ++ parts_of supplied)
      × (escapes (rel root (join root (parts_of supplied))) ≡ false)
full_path root supplied r e =
    let joined = join-names root (parts_of supplied) (parts-names supplied r e) in
    (joined, rw (joined, rel-append root (parts_of supplied)) e)

-- `resolve` refuses an argument that begins with "/" or "\", then one whose cleaned form begins with
-- "..", before it asks the file system anything; any other goes to the root's subtree as it is
-- spelled, so the second test for ".." refuses nothing.
pub resolve_lem :
    (view : View) (fuel : ℕ) (root : AbsPath) (supplied : Text) (allow_missing : Bool)
    → resolve view fuel root supplied allow_missing ≡ (
        if has_prefix (codes "/") (or_dot supplied) || has_prefix (codes "\\") (or_dot supplied)
        then some (err absolute_path)
        else if escapes (parts_of supplied)
        then some (err path_escapes)
        else if allow_missing
        then resolve_missing view fuel root (root ++ parts_of supplied)
        else some (resolve_existing view root (root ++ parts_of supplied)))
unfolding resolve
resolve_lem view fuel root supplied allow_missing =
    elim (Bool-cases (has_prefix (codes "/") (or_dot supplied))) [
      | inl abs ↦ rw abs
      | inr relative ↦ elim (Bool-cases (escapes (parts_of supplied))) [
        | inl up ↦ rw (relative, up)
        | inr down ↦
            let (joined, inside) = full_path root supplied relative down in
            rw (relative, down, inside, joined)
      ]
    ]

uncons : (l : List Text) (c : Text) → (d : Text) × (below : List Text) × (l ++ c ∷ [] ≡ d ∷ below)
uncons [] c = (c, [], refl)
uncons (x ∷ l) c = (x, l ++ c ∷ [], refl)

-- A path with a component behind `pre`, last component first.
reverse-below :
    (pre post : List Text) (c : Text)
    → (d : Text) × (below : List Text) × (reverse (pre ++ c ∷ post) ≡ d ∷ below ++ reverse pre)
reverse-below pre post c =
    let (d, below, e) = uncons (reverse post) c in
    (d, below, rw (reverse-append pre (c ∷ post), reverse-append (c ∷ []) post, e))

module _ (view : View) (fuel : ℕ) (root : AbsPath) (supplied : Text) where
  resolve_missing-checked :
      (full p : AbsPath)
      → resolve_missing view fuel root full ≡ some (ok p)
      → (p ≡ full) × IsPlain view full × (check_existing_parents view fuel root full ≡ some (ok tt))
  unfolding resolve_missing
  resolve_missing-checked full p h = (ground arith, λ info e. ground arith, ground arith)

  resolve-missing-inv :
      (p : AbsPath)
      → resolve view fuel root supplied true ≡ some (ok p)
      → (has_prefix (codes "/") (or_dot supplied) ≡ false)
        × (escapes (parts_of supplied) ≡ false)
        × (resolve_missing view fuel root (root ++ parts_of supplied) ≡ some (ok p))
  resolve-missing-inv p h =
      let facts = resolve_lem view fuel root supplied true in
      (ground (arith, facts), ground (arith, facts), ground (arith, facts))

  -- A path that is returned for writing is the argument's own path below the root, made of names;
  -- neither it nor any directory from the root down to it is a symbolic link.
  pub resolve-true :
      (p : AbsPath)
      → resolve view fuel root supplied true ≡ some (ok p)
      → (p ≡ root ++ parts_of supplied)
        × All IsName (parts_of supplied)
        × IsPlain view p
        × ((pre post : List Text) (c : Text)
            → parts_of supplied ≡ pre ++ c ∷ post
            → IsPlain view (root ++ pre))
  unfolding check_existing_parents parent
  resolve-true p h =
      let (relative, down, missing) = resolve-missing-inv p h in
      let (same_p, plain, checked) =
        resolve_missing-checked (root ++ parts_of supplied) p missing in
      (
        same_p,
        parts-names supplied relative down,
        rw same_p plain,
        λ pre post c e.
            let (d, below, back) = reverse-below pre post c in
            rw (← reverse-reverse (root ++ pre), reverse-append root pre)
              (check_from-IsPlain view root fuel (below ++ reverse pre)
                (rw (e, reverse-append root (pre ++ c ∷ post), back) at checked) below (reverse pre)
                refl),
      )

  resolve_missing_total :
      (full : AbsPath)
      → check_existing_parents view fuel root full ≢ none
      → resolve_missing view fuel root full ≢ none
  unfolding resolve_missing
  resolve_missing_total full h e = ground arith

  parents_total :
      (parts : List Text)
      → parts ≢ []
      → length parts ≤ fuel
      → check_existing_parents view fuel root (root ++ parts) ≢ none
  unfolding check_existing_parents parent
  parents_total parts ne enough = rw (reverse-append root parts) (go (reverse parts) refl)
    where
      go :
          (back : List Text)
          → reverse parts ≡ back
          → check_from view root fuel (parent (back ++ reverse root)) ≢ none
      go [] e = absurd (ne (sym (reverse-reverse parts) ∙ ap reverse e))
      go (d ∷ mid) e =
          check_from_total view root fuel mid (omega (arith, length-reverse parts, ap length e))

  -- Below the root the search for links ends, after at most a round for each component.
  pub resolve_total :
      (allow_missing : Bool)
      → parts_of supplied ≢ []
      → length (parts_of supplied) ≤ fuel
      → resolve view fuel root supplied allow_missing ≢ none
  resolve_total allow_missing ne enough e = ground (
    arith,
    resolve_lem view fuel root supplied allow_missing,
    resolve_missing_total (root ++ parts_of supplied) (parents_total (parts_of supplied) ne enough),
  )

  -- The directories strictly above the root are there, and are no links.
  abbrev pub RootReached : Type 0
  RootReached =
      (above below : List Text) (c : Text)
      → root ≡ above ++ c ∷ below
      → (info : FileInfo) × (view.lstat above ≡ ok info) × (info.is_symlink ≡ false)

  parents_run_on :
      (start : List Text) (c : Text)
      → reverse root ≡ c ∷ start
      → RootReached
      → check_from view root fuel start ≡ none
  parents_run_on start c e dirs =
      check_from_runs_on view root fuel start (omega (arith, length-reverse root, ap length e))
        (λ below above q.
          let (d, b, front) = uncons (reverse below) c in
          dirs (reverse above) b d (
            sym (reverse-reverse root)
            ∙ ap reverse (e ∙ ap (λ (l : List Text). c ∷ l) q)
            ∙ reverse-append (c ∷ below) above
            ∙ ap (λ (l : List Text). reverse above ++ l) (reverse-append (c ∷ []) below ∙ front)))

  reverse-shape :
      (l : List Text) → l ≢ [] → (c : Text) × (start : List Text) × (reverse l ≡ c ∷ start)
  reverse-shape [] ne = absurd (ne refl)
  reverse-shape (x ∷ l) ne =
      let (c, start, e) = uncons (reverse l) x in (c, start, reverse-append (x ∷ []) l ∙ e)

  root_runs_on : root ≢ [] → RootReached → check_existing_parents view fuel root root ≡ none
  unfolding check_existing_parents parent
  root_runs_on ne dirs =
      let (c, start, e) = reverse-shape root ne in rw e (parents_run_on start c e dirs)

  -- Where the argument names the root itself, and the root is a directory reached without links, the
  -- search for links goes up from the root's parent and never meets the root: however many rounds it
  -- is given, it still runs.
  pub resolve-root_runs_on :
      IsRelative supplied
      → parts_of supplied ≡ []
      → root ≢ []
      → (info : FileInfo) → view.lstat root ≡ ok info
      → info.is_symlink ≡ false
      → view.eval_symlinks root ≡ ok root
      → RootReached
      → resolve view fuel root supplied true ≡ none
  unfolding resolve_missing escapes
  resolve-root_runs_on (r, r') here ne info there plain real dirs =
      let runs = root_runs_on ne dirs in
      let inside : rel root root ≡ [] =
        ap (rel root) (sym (append-nil root)) ∙ rel-append root [] in
      resolve_lem view fuel root supplied true
      ∙ rw (r, r', here, append-nil) (ground (arith, there, plain, real, runs, inside))
