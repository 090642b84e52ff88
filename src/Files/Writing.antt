-- ===== src/Files/Writing.antt =====
-- `Write` of internal/app/files.go.
use mathlib.Core.List.{append_assoc}
use chat2work_mcp.Prelude.{
  ℕ, ◌≤◌, ◌≡◌, ◌≢◌, ◌∙◌, ◌⊎◌, refl, sym, ap, inl, inr, Bool, true, false, Option, none, some, List,
  [], ◌∷◌, ◌++◌, arith, All, length, has_prefix, Text, Result, Result-cases, ok, err, Error,
  not_exist, failure, os as os_error, tool, content_too_large, reject_if,
}
use chat2work_mcp.Prelude.Int.{pos, leb_ℤ, ltb_ℤ}
use chat2work_mcp.Paths.{AbsPath, View, FileInfo, resolve, workspace_root, is_not_exist}
use chat2work_mcp.Paths.Parents.{IsPlain}
use chat2work_mcp.Paths.Missing.{parts_of, resolve-true, resolve_total}
use chat2work_mcp.Quota.{Files}
use chat2work_mcp.Disk.{Os, Bytes, asks, ◌>>=◌}
use chat2work_mcp.Disk.Steps.{After, After-imp}
use chat2work_mcp.Disk.Lawful.{Keeps, IsDirect, IsLawful, temp_prefix}
use chat2work_mcp.Disk.Keeping.{
  Keeps-refl, Keeps-trans, Keeps-more, IsDirect-append, IsDirect-child, IsDirect-before,
  IsDirect-Keeps,
}
use chat2work_mcp.Files.{must_be_missing, may_write, root_of, resolved, replace_file, write}
use chat2work_mcp.Files.Replacing.{Replaced, replace_file-Replaced}
use chat2work_mcp.Files.Opening.{After-lift, After-asks, After-root, After-resolved}

pub is_not_exist-eq : (e : Error) → is_not_exist e ≡ true → e ≡ os_error not_exist
unfolding is_not_exist
is_not_exist-eq (os_error not_exist) h = refl
is_not_exist-eq (os_error (failure n)) h = cc
is_not_exist-eq _ h = cc

snoc_ne : (pre : AbsPath) (name : Text) → pre ++ name ∷ [] ≢ []
snoc_ne [] name e = cc
snoc_ne (x ∷ pre) name e = cc

pub not-root :
    (path : Text) (pre : AbsPath) (name : Text)
    → parts_of path ≡ pre ++ name ∷ []
    → parts_of path ≢ []
not-root path pre name e e' = snoc_ne pre name (sym e ∙ e')

must_be_missing-ok :
    (r : Result FileInfo) → must_be_missing r ≡ ok tt → r ≡ err (os_error not_exist)
must_be_missing-ok (ok info) h = cc
must_be_missing-ok (err e) h = ap err (is_not_exist-eq e (ground arith))

module _ {D : Type 0} (os : Os D) (content : D → AbsPath → Option Bytes)
    (lawful : IsLawful os content) (fuel : ℕ) (f : Files) where
  -- What a successful call has checked, and what every call leaves.
  abbrev pub Wrote : AbsPath → D → AbsPath → Bytes → Bool → Result (Unit {0}) → D → Type 0
  Wrote dir d target bytes overwrite (ok a) d' =
      (leb_ℤ (pos (length bytes)) f.max_bytes ≡ true)
      × ((overwrite ≡ true) ⊎ (content d target ≡ none))
      × IsDirect (os.view d) target
      × Replaced os content lawful dir d target bytes (ok a) d'
  Wrote dir d target bytes overwrite (err e) d' =
      Replaced os content lawful dir d target bytes (err e) d'

  may_write-missing :
      (root target : AbsPath) (bytes : Bytes) (overwrite : Bool) (d : D)
      → may_write os fuel f root target bytes overwrite d ≡ ok tt
      → (overwrite ≡ true) ⊎ ((os.view d).lstat target ≡ err (os_error not_exist))
  unfolding may_write
  may_write-missing root target bytes true d h = inl refl
  may_write-missing root target bytes false d h =
      elim (Result-cases (must_be_missing ((os.view d).lstat target))) [
        | inl (_, e) ↦ inr (must_be_missing-ok ((os.view d).lstat target) e)
        | inr (e, p) ↦ absurd (ground (arith, p))
      ]

  fresh-before :
      (d d1 : D) (dir : AbsPath) (left : List AbsPath)
      → Keeps os content [] d d1
      → All (λ t. (content d1 t ≡ none) × ((name : Text) × (t ≡ dir ++ name ∷ []))) left
      → All (λ t. (content d t ≡ none) × ((name : Text) × (t ≡ dir ++ name ∷ []))) left
  fresh-before d d1 dir [] k h = tt
  fresh-before d d1 dir (t ∷ left) k ((fresh, at), h) =
      ((sym (k.same t tt) ∙ fresh, at), fresh-before d d1 dir left k h)

  -- Replacing a file on a disk that differs from the first in no file
  pub Replaced-after :
      (d d1 d2 : D) (dir target : AbsPath) (bytes : Bytes) (r : Result (Unit {0}))
      → Keeps os content [] d d1
      → Replaced os content lawful dir d1 target bytes r d2
      → Replaced os content lawful dir d target bytes r d2
  Replaced-after d d1 d2 dir target bytes (ok _) k (left, fresh, (has, k')) = (
    left,
    fresh-before d d1 dir left k fresh,
    (
      has,
      Keeps-trans os content (target ∷ left) d d1 d2 (Keeps-more os content (target ∷ left) d d1 k)
          k',
    ),
  )
  Replaced-after d d1 d2 dir target bytes (err e) k (left, fresh, k') = (
    left,
    fresh-before d d1 dir left k fresh,
    Keeps-trans os content left d d1 d2 (Keeps-more os content left d d1 k) k',
  )

  plain-before :
      (view : View) (root parts : AbsPath) (name : Text) (pre post : AbsPath)
      → ((pre post : AbsPath) (c : Text) → parts ≡ pre ++ c ∷ post → IsPlain view (root ++ pre))
      → parts ≡ (pre ++ post) ++ name ∷ []
      → IsPlain view (root ++ pre)
  plain-before view root parts name pre [] plain e =
      plain pre [] name (e ∙ append_assoc pre [] (name ∷ []))
  plain-before view root parts name pre (x ∷ post) plain e =
      plain pre (post ++ name ∷ []) x (e ∙ append_assoc pre (x ∷ post) (name ∷ []))

  -- Neither the workspace's directory, nor any directory below it down to the target's, is a link.
  pub target-IsDirect :
      (d : D) (root p : AbsPath) (path : Text) (pre : AbsPath) (name : Text)
      → IsDirect (os.view d) root
      → parts_of path ≡ pre ++ name ∷ []
      → resolve (os.view d) fuel root path true ≡ some (ok p)
      → (p ≡ (root ++ pre) ++ name ∷ [])
        × IsDirect (os.view d) (root ++ pre)
        × IsDirect (os.view d) ((root ++ pre) ++ name ∷ [])
  target-IsDirect d root p path pre name direct at found =
      let (same_p, names, plain_p, plain) = resolve-true (os.view d) fuel root path p found in
      let same_target : p ≡ (root ++ pre) ++ name ∷ [] =
        same_p ∙ ap (λ (x : AbsPath). root ++ x) at ∙ sym (append_assoc root pre (name ∷ [])) in
      let direct' : IsDirect (os.view d) (root ++ pre) =
        IsDirect-append (os.view d) root pre direct (λ a b e.
          plain-before (os.view d) root (parts_of path) name a b plain
            (at ∙ ap (λ (x : AbsPath). x ++ name ∷ []) e)) in
      (
        same_target,
        direct',
        IsDirect-child (os.view d) (root ++ pre) name direct' (rw same_target at plain_p),
      )

  Wrote-after :
      (d d1 d2 : D) (dir target : AbsPath) (bytes : Bytes) (overwrite : Bool)
      (r : Result (Unit {0}))
      → leb_ℤ (pos (length bytes)) f.max_bytes ≡ true
      → (overwrite ≡ true) ⊎ (content d target ≡ none)
      → IsDirect (os.view d1) target
      → Keeps os content [] d d1
      → Replaced os content lawful dir d1 target bytes r d2
      → Wrote dir d target bytes overwrite r d2
  Wrote-after d d1 d2 dir target bytes overwrite (ok a) small new there k h = (
    small,
    new,
    IsDirect-before os content d d1 target k there,
    Replaced-after d d1 d2 dir target bytes (ok a) k h,
  )
  Wrote-after d d1 d2 dir target bytes overwrite (err e) small new there k h =
      Replaced-after d d1 d2 dir target bytes (err e) k h

  missing-before :
      (d d1 : D) (target : AbsPath) (overwrite : Bool)
      → Keeps os content [] d d1
      → (overwrite ≡ true) ⊎ ((os.view d1).lstat target ≡ err (os_error not_exist))
      → (overwrite ≡ true) ⊎ (content d target ≡ none)
  missing-before d d1 target overwrite k (inl e) = inl e
  missing-before d d1 target overwrite k (inr e) =
      inr (sym (k.same target tt) ∙ lawful.lstat d1 target e)

  -- `Write` once the workspace's directory is there
  written :
      (d d1 : D) (path : Text) (bytes : Bytes) (overwrite : Bool) (root pre p : AbsPath)
      (name : Text)
      → leb_ℤ (pos (length bytes)) f.max_bytes ≡ true
      → Keeps os content [] d d1
      → IsDirect (os.view d1) root
      → parts_of path ≡ pre ++ name ∷ []
      → has_prefix temp_prefix name ≡ false
      → resolve (os.view d1) fuel root path true ≡ some (ok p)
      → After
          ((asks (may_write os fuel f root p bytes overwrite) >>= λ _. replace_file os p bytes) d1)
          (Wrote (root ++ pre) d ((root ++ pre) ++ name ∷ []) bytes overwrite)
  written d d1 path bytes overwrite root pre p name small k direct at visible found =
      let (same_p, direct', there) = target-IsDirect d1 root p path pre name direct at found in
      let target : AbsPath = (root ++ pre) ++ name ∷ [] in
      rw same_p (
        After-asks (Wrote (root ++ pre) d target bytes overwrite)
          (λ _. replace_file os target bytes) d1 (may_write os fuel f root target bytes overwrite)
          (λ _ allowed.
            let new =
              missing-before d d1 target overwrite k
                (may_write-missing root target bytes overwrite d1 allowed) in
            After-imp (Replaced os content lawful (root ++ pre) d1 target bytes)
              (Wrote (root ++ pre) d target bytes overwrite) (replace_file os target bytes d1)
              (replace_file-Replaced os content lawful d1 (root ++ pre) name bytes direct' visible)
              (λ r d2 h.
                Wrote-after d d1 d2 (root ++ pre) target bytes overwrite r small new there k h))
          (λ e _. ([], tt, k)))

  -- The operating system obeys IsLawful, no link leads to the workspace's directory, the path names
  -- something below it whose name does not begin with ".chat2work-", and the fuel is one unit for each
  -- component. Then `Write` returns. If it succeeds, the content is within the limit, the call was to
  -- overwrite or no regular file was there, no link leads to the target, the target has the whole new
  -- content, and every other file its old one. If it fails, at whichever call, no file has changed.
  -- The exceptions are files in the target's directory that were not there before.
  pub write-Wrote :
      (d : D) (tenant path : Text) (bytes : Bytes) (overwrite : Bool) (root pre : AbsPath)
      (name : Text)
      → workspace_root f.base tenant ≡ ok root
      → IsDirect (os.view d) root
      → parts_of path ≡ pre ++ name ∷ []
      → has_prefix temp_prefix name ≡ false
      → length (parts_of path) ≤ fuel
      → After
          (write os fuel f tenant path bytes overwrite d)
          (Wrote (root ++ pre) d ((root ++ pre) ++ name ∷ []) bytes overwrite)
  unfolding write
  write-Wrote d tenant path bytes overwrite root pre name at direct parts visible enough =
      let Q = Wrote (root ++ pre) d ((root ++ pre) ++ name ∷ []) bytes overwrite in
      After-lift Q
        (λ _. root_of os fuel f tenant >>= λ root. resolved os fuel f root path true >>= λ p.
          asks (may_write os fuel f root p bytes overwrite) >>= λ _. replace_file os p bytes)
        d (reject_if (ltb_ℤ f.max_bytes (pos (length bytes))) (tool content_too_large))
        (λ _ small.
          After-root os fuel f content lawful Q
            (λ root. resolved os fuel f root path true >>= λ p.
              asks (may_write os fuel f root p bytes overwrite) >>= λ _. replace_file os p bytes)
            d tenant root at direct
            (λ d1 k.
              After-resolved os fuel f content lawful Q
                (λ p. asks (may_write os fuel f root p bytes overwrite) >>= λ _.
                  replace_file os p bytes)
                d1 root path true
                (resolve_total (os.view d1) fuel root path true (not-root path pre name parts)
                  enough)
                (λ p found.
                  written d d1 path bytes overwrite root pre p name (ground (arith, small)) k
                    (IsDirect-Keeps os content [] d d1 root k direct) parts visible found)
                (λ e. ([], tt, k)))
            (λ e d1 k. ([], tt, k)))
        (λ e _. ([], tt, Keeps-refl os content d))
