-- ===== src/Documents/Creating.antt =====
-- `docCreate` of internal/app/server.go.

use chat2work_mcp.Prelude.{
  ℕ, ◌≤◌, ◌≡◌, ◌≢◌, ◌⊎◌, inl, inr, refl, sym, Bool, true, false, not, ◌&&◌, Bool-cases, Option, [],
  ◌∷◌, ◌++◌, split, arith, length, Text, codes, Result, if◌then◌else◌, ok, err, Error, reject_if,
  tool, document_exists,
}
use chat2work_mcp.Prelude.Int.{ℤ}
use chat2work_mcp.Paths.{AbsPath, FileInfo, join, workspace_root}
use chat2work_mcp.Paths.Missing.{parts_of, resolve_total}
use chat2work_mcp.Quota.{Files}
use chat2work_mcp.Access.{WorkspaceGrant}
use chat2work_mcp.Disk.{Os, Bytes, lift, pure, asks, defer, ◌>>=◌}
use chat2work_mcp.Disk.Steps.{After, After-bind, After-defer}
use chat2work_mcp.Disk.Lawful.{Keeps, IsDirect, IsLawful}
use chat2work_mcp.Disk.Keeping.{Keeps-refl, Keeps-trans, Keeps-more, IsDirect-Keeps}
use chat2work_mcp.Files.Opening.{After-lift, After-asks, After-root, After-resolved}
use chat2work_mcp.Files.Replacing.{Removed-Keeps}
use chat2work_mcp.Files.Writing.{target-IsDirect, not-root}
use chat2work_mcp.Server.{App, CallToolRequest, app_grant}
use chat2work_mcp.Tools.{clean_path, granted}
use chat2work_mcp.Documents.{
  Engine, DocCreateInput, DocReply, temp_document_path, temp_abs, batch_args, has_ops, exists,
  office_run, write_allowed, create_copy, doc_create,
}
use chat2work_mcp.Documents.Copying.{
  IsTame, quiet, IsRegular, Ran, office_run-Ran, write_allowed-Keeps,
}
use chat2work_mcp.Documents.Running.{
  IsDirect-above, Staged, Staged-around, IsDirect-Staged, publish-Staged,
}

-- The temporary document is another path than the document, and no link leads to it.
pub record IsApart {D : Type 0} (os : Os D) (target t : AbsPath) (d : D) : Type 0 where
  pub dir : AbsPath
  pub name : Text
  pub at : t ≡ dir ++ name ∷ []
  pub direct : IsDirect (os.view d) t
  pub apart : target ≢ t

not-exists : (r : Result FileInfo) → exists r ≡ false → (e : Error) × (r ≡ err e)
not-exists (ok info) h = cc
not-exists (err e) h = (e, refl)

same_answer : {A : Type 0} {a : A} (b : A) → ok a ≡ ok b → a ≡ b
same_answer b e = cc

module _ {D : Type 0} (os : Os D) (content : D → AbsPath → Option Bytes)
    (lawful : IsLawful os content) (fuel : ℕ) (f : Files) (engine : Engine D) (app : App)
    (tame : IsTame os content engine) (now : ℤ) (req : CallToolRequest) (nanos : ℕ) where
  -- OfficeCLI has made the copy that replaces the document, and there was none or it was to be
  -- replaced; or no file has changed but the copy.
  abbrev pub Created : {A : Type 0} → AbsPath → AbsPath → Bool → D → Result A → D → Type 0
  Created t target overwrite d (ok a) d' =
      ((overwrite ≡ true)
        ⊎ ((d1 : D) × (e : Error) × Keeps os content [] d d1 × ((os.view d1).stat target ≡ err e)))
      × Staged os content lawful fuel f engine app tame t target d (ok tt) d'
  Created t target overwrite d (err e) d' = Keeps os content (t ∷ []) d d'

  ops-Ran :
      (tenant : Text) (root t : AbsPath) (rel_path : Text) (ops : Bytes) (d d1 : D)
      → workspace_root f.base tenant ≡ ok root
      → IsDirect (os.view d) root
      → IsDirect (os.view d) t
      → t ≡ join root (split b'/' rel_path)
      → IsRegular os content lawful fuel f engine app tame t d1
      → Keeps os content (t ∷ []) d d1
      → After
          ((if has_ops ops
              then office_run os fuel f engine app tenant (batch_args rel_path ops)
              else pure [])
            d1)
          (Ran os content lawful fuel f engine app tame t d)
  ops-Ran tenant root t rel_path ops d d1 at direct direct_t where_t regular k =
      elim (Bool-cases (has_ops ops)) [
        | inl given ↦ rw given (
            office_run-Ran os content lawful fuel f engine app tame d d1 tenant root t
              (codes "batch") rel_path (codes "--commands" ∷ ops ∷ []) at direct direct_t where_t k)
        | inr absent ↦ rw absent (regular, k)
      ]

  create_copy-Staged :
      (tenant : Text) (root dir dir' : AbsPath) (name name' rel_path : Text) (ops : Bytes)
      (is_new : Bool) (d : D)
      → workspace_root f.base tenant ≡ ok root
      → IsDirect (os.view d) root
      → IsDirect (os.view d) (dir ++ name ∷ [])
      → IsDirect (os.view d) dir'
      → dir ++ name ∷ [] ≡ join root (split b'/' rel_path)
      → After
          (create_copy os fuel f engine app now req nanos tenant
            (dir' ++ name' ∷ [])
            (dir ++ name ∷ [])
            rel_path
            ops
            is_new
            d)
          (Staged os content lawful fuel f engine app tame
            (dir ++ name ∷ [])
            (dir' ++ name' ∷ [])
            d)
  unfolding create_copy
  create_copy-Staged tenant root dir dir' name name' rel_path ops is_new d at direct direct_t above'
        where_t =
      let t : AbsPath = dir ++ name ∷ [] in
      let p : AbsPath = dir' ++ name' ∷ [] in
      let ran = Ran os content lawful fuel f engine app tame t d in
      let Q = Staged os content lawful fuel f engine app tame t p d in
      After-bind ran Q _ _ d
        (office_run-Ran os content lawful fuel f engine app tame d d tenant root t (codes "create")
          rel_path [] at direct direct_t where_t
          (Keeps-more os content (t ∷ []) d d (Keeps-refl os content d)))
        (λ _ d1 (regular, k1).
          After-bind ran Q _ _ d1
            (ops-Ran tenant root t rel_path ops d d1 at direct direct_t where_t regular k1)
            (λ _ d2 (regular2, k2).
              publish-Staged os content lawful fuel f engine app tame tenant root dir dir' name
                name' d d2 is_new at direct (IsDirect-above (os.view d) t dir name refl direct_t)
                above' k2 regular2)
            (λ e d2 k2. k2))
        (λ e d1 k1. k1)

  Created-after :
      (t target : AbsPath) (overwrite : Bool) (d d1 : D) (r : Result (Unit {0})) (d' : D)
      → Keeps os content [] d d1
      → (overwrite ≡ true) ⊎ ((e : Error) × ((os.view d1).stat target ≡ err e))
      → Staged os content lawful fuel f engine app tame t target d r d'
      → Created t target overwrite d r d'
  Created-after t target overwrite d d1 (ok a) d' k (inl forced) staged = (inl forced, staged)
  Created-after t target overwrite d d1 (ok a) d' k (inr (e, missing)) staged =
      (inr (d1, e, k, missing), staged)
  Created-after t target overwrite d d1 (err e) d' k new staged = staged

  -- the last step of `doc_create`, which removes the copy
  Created-copy :
      (tenant : Text) (root dir' : AbsPath) (name' rel_path : Text) (ops : Bytes)
      (is_new overwrite : Bool) (d d1 d2 : D)
      (s : IsApart os (dir' ++ name' ∷ []) (join root (split b'/' rel_path)) d)
      → workspace_root f.base tenant ≡ ok root
      → IsDirect (os.view d) root
      → Keeps os content [] d d1
      → (overwrite ≡ true) ⊎ ((e : Error) × ((os.view d1).stat (dir' ++ name' ∷ []) ≡ err e))
      → Keeps os content [] d1 d2
      → IsDirect (os.view d1) dir'
      → After
          (defer
            (os.remove (join root (split b'/' rel_path)))
            (create_copy os fuel f engine app now req nanos tenant
              (dir' ++ name' ∷ [])
              (join root (split b'/' rel_path))
              rel_path
              ops
              is_new)
            d2)
          (Created (join root (split b'/' rel_path)) (dir' ++ name' ∷ []) overwrite d)
  Created-copy tenant root dir' name' rel_path ops is_new overwrite d d1 d2 s at direct k1 new k2
        above' =
      let t : AbsPath = join root (split b'/' rel_path) in
      let p : AbsPath = dir' ++ name' ∷ [] in
      let k : Keeps os content [] d d2 = Keeps-trans os content [] d d1 d2 k1 k2 in
      let direct_t : IsDirect (os.view d2) t = IsDirect-Keeps os content [] d d2 t k s.direct in
      let above : IsDirect (os.view d2) s.dir =
        IsDirect-above (os.view d2) t s.dir s.name s.at direct_t in
      After-defer (Staged os content lawful fuel f engine app tame t p d2) (Created t p overwrite d)
        (os.remove t)
        (create_copy os fuel f engine app now req nanos tenant p t rel_path ops is_new) d2
        (rw s.at (
          create_copy-Staged tenant root s.dir dir' s.name name' rel_path ops is_new d2 at
            (IsDirect-Keeps os content [] d d2 root k direct) (rw s.at at direct_t)
            (IsDirect-Keeps os content [] d1 d2 dir' k2 above') (sym s.at)))
        (λ r d3 staged. Created-after t p overwrite d d1 r (os.remove t d3).1 k1 new (
          Staged-around os content lawful fuel f engine app tame t p d d2 d3 (os.remove t d3).1 r
            s.apart (Keeps-more os content (t ∷ []) d d2 k) staged
            (Removed-Keeps os content lawful d3 t (os.remove t d3).0 (os.remove t d3).1 (
              rw s.at (
                lawful.remove d3 s.dir s.name (
                  IsDirect-Staged os content lawful fuel f engine app tame t p d2 r d3 s.dir staged
                    above))))))

  -- what the handler has checked when it goes on
  may_create :
      (target : AbsPath) (overwrite : Bool) (d1 : D)
      → reject_if (not overwrite && exists ((os.view d1).stat target)) (tool document_exists)
        ≡ ok tt
      → (overwrite ≡ true) ⊎ ((e : Error) × ((os.view d1).stat target ≡ err e))
  may_create target true d1 h = inl refl
  may_create target false d1 h = inr (not-exists ((os.view d1).stat target) (ground (arith, h)))

  -- `doc_create` once the path is resolved
  new_document :
      (tenant : Text) (root dir' : AbsPath) (name' rel_path : Text) (ops : Bytes) (overwrite : Bool)
      (reply : DocReply) (d d1 : D)
      (s : IsApart os (dir' ++ name' ∷ []) (join root (split b'/' rel_path)) d)
      → workspace_root f.base tenant ≡ ok root
      → IsDirect (os.view d) root
      → Keeps os content [] d d1
      → IsDirect (os.view d1) dir'
      → After
          ((asks (λ d. ok (exists ((os.view d).stat (dir' ++ name' ∷ [])))) >>= λ there.
              lift (reject_if (not overwrite && there) (tool document_exists)) >>= λ _.
              write_allowed os fuel f engine app tenant (not there) >>= λ _.
              defer (os.remove (join root (split b'/' rel_path))) (
                create_copy os fuel f engine app now req nanos tenant
                  (dir' ++ name' ∷ [])
                  (join root (split b'/' rel_path))
                  rel_path
                  ops
                  (not there))
              >>= λ _. pure reply)
            d1)
          (Created (join root (split b'/' rel_path)) (dir' ++ name' ∷ []) overwrite d)
  new_document tenant root dir' name' rel_path ops overwrite reply d d1 s at direct k direct' =
      let t : AbsPath = join root (split b'/' rel_path) in
      let target : AbsPath = dir' ++ name' ∷ [] in
      let Q : Result DocReply → D → Type 0 = Created t target overwrite d in
      After-asks Q _ d1 (λ d. ok (exists ((os.view d).stat target)))
        (λ there known.
          After-lift Q _ d1 _
            (λ _ new.
              After-bind (λ _ d2. Keeps os content [] d1 d2) Q _ _ d1
                (write_allowed-Keeps os content lawful fuel f engine app tame d1 tenant root
                  (not there) at (IsDirect-Keeps os content [] d d1 root k direct))
                (λ _ d2 k2.
                  After-bind (Created t target overwrite d) Q _ _ d2
                    (Created-copy tenant root dir' name' rel_path ops (not there) overwrite d d1 d2
                      s at direct k
                      (may_create target overwrite d1 (rw (← same_answer there known) at new)) k2
                      direct')
                    (λ _ d' h. h) (λ e d' h. h))
                (λ e d2 k2.
                  quiet os content lawful d d1 d2 t (Keeps-more os content (t ∷ []) d d1 k) k2))
            (λ e _. Keeps-more os content (t ∷ []) d d1 k))
        (λ e _. Keeps-more os content (t ∷ []) d d1 k)

  -- The operating system obeys IsLawful, OfficeCLI changes only its document (IsTame), the caller may
  -- write to the workspace, no link leads to its directory, the path is below it with enough fuel, and
  -- the temporary path is another one that no link leads to. Then `docCreate` returns. If it succeeds,
  -- the call was to overwrite or Stat of the target failed before any file changed, the target has the
  -- content that the temporary document had when it passed `checkOfficeInput`, and no file has changed
  -- but the two. If it fails, no file has changed but the temporary one.
  pub doc_create-Created :
      (in_ : DocCreateInput) (g : WorkspaceGrant) (root pre : AbsPath) (name : Text) (d : D)
      → app_grant app now req in_.workspace true false ≡ ok g
      → workspace_root f.base g.id ≡ ok root
      → IsDirect (os.view d) root
      → parts_of in_.path ≡ pre ++ name ∷ []
      → length (parts_of in_.path) ≤ fuel
      → IsApart os ((root ++ pre) ++ name ∷ []) (temp_abs root nanos in_.path) d
      → After
          (doc_create os fuel f engine app now req nanos in_ d)
          (Created (temp_abs root nanos in_.path) ((root ++ pre) ++ name ∷ []) in_.overwrite d)
  unfolding doc_create granted temp_abs
  doc_create-Created in_ g root pre name d may at direct parts enough s =
      let t : AbsPath = temp_abs root nanos in_.path in
      let target : AbsPath = (root ++ pre) ++ name ∷ [] in
      let Q : Result DocReply → D → Type 0 = Created t target in_.overwrite d in
      let still = Keeps-more os content (t ∷ []) d d (Keeps-refl os content d) in
      After-lift Q _ d (app_grant app now req in_.workspace true false)
        (λ g' found.
          let same_g : g' ≡ g = cc (may, found) in
          rw same_g (
            After-lift Q _ d _
              (λ _ _.
                After-lift Q _ d _
                  (λ _ _.
                    After-root os fuel f content lawful Q _ d g.id root at direct
                      (λ d1 k.
                        After-resolved os fuel f content lawful Q _ d1 root in_.path true
                          (resolve_total (os.view d1) fuel root in_.path true
                            (not-root in_.path pre name parts) enough)
                          (λ q found'.
                            let (same_q, direct', _) =
                              target-IsDirect os content lawful fuel f d1 root q in_.path pre name
                                (IsDirect-Keeps os content [] d d1 root k direct) parts found' in
                            rw same_q (
                              new_document g.id root (root ++ pre) name
                                (temp_document_path nanos (clean_path in_.path)) in_.ops
                                in_.overwrite _ d d1 s at direct k direct'))
                          (λ e. Keeps-more os content (t ∷ []) d d1 k))
                      (λ e d1 k. Keeps-more os content (t ∷ []) d d1 k))
                  (λ e _. still))
              (λ e _. still)))
        (λ e _. still)
