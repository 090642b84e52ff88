-- ===== src/Files/Opening.antt =====
-- How the file tools of internal/app/files.go begin: the workspace's directory, and the path in it.
use chat2work_mcp.Prelude.{
  ◌++◌, ℕ, ◌≡◌, ◌≢◌, refl, Bool, Option, none, some, [], Text, Result, ok, err, Error,
}
use chat2work_mcp.Paths.{AbsPath, resolve, workspace_root}
use chat2work_mcp.Paths.Missing.{parts_of}
use chat2work_mcp.Paths.Within.{IsWithin}
use chat2work_mcp.Quota.{Files}
use chat2work_mcp.Disk.{
  Os, Bytes, Action, pure, lift, asks, call, continue, ◌>>=◌, friendly_path_error,
}
use chat2work_mcp.Disk.Steps.{After, After-bind}
use chat2work_mcp.Disk.Lawful.{Keeps, IsDirect, IsLawful}
use chat2work_mcp.Files.{root_of, resolved}

-- The path within the directory that the argument leads to, through links, before any file has changed
pub record IsTarget {D : Type 0} (os : Os D) (content : D → AbsPath → Option Bytes) (root : AbsPath)
    (path : Text) (d : D) (p : AbsPath) : Type 0 where
  pub inside : IsWithin root p
  pub before : D
  pub still : Keeps os content [] d before
  pub real : (os.view before).eval_symlinks (root ++ parts_of path) ≡ ok p

module _ {D A B : Type 0} (Q : Result B → D → Type 0) (f : A → Action D B) (d : D) where
  After-answer :
      (r : Result A)
      → ((a : A) → r ≡ ok a → After (f a d) Q)
      → ((e : Error) → r ≡ err e → Q (err e) d)
      → After (continue f (some (r, d))) Q
  After-answer (ok a) good bad = good a refl
  After-answer (err e) good bad = bad e refl

  pub After-lift :
      (r : Result A)
      → ((a : A) → r ≡ ok a → After (f a d) Q)
      → ((e : Error) → r ≡ err e → Q (err e) d)
      → After ((lift r >>= f) d) Q
  unfolding ◌>>=◌
  After-lift r good bad = After-answer r good bad

  pub After-asks :
      (g : D → Result A)
      → ((a : A) → g d ≡ ok a → After (f a d) Q)
      → ((e : Error) → g d ≡ err e → Q (err e) d)
      → After ((asks g >>= f) d) Q
  unfolding ◌>>=◌
  After-asks g good bad = After-answer (g d) good bad

friendly-ok : {A : Type 0} (r : Result A) (a : A) → friendly_path_error r ≡ ok a → r ≡ ok a
friendly-ok (ok b) a h = h
friendly-ok (err e) a h = cc

module _ {D : Type 0} (os : Os D) (fuel : ℕ) (f : Files) (content : D → AbsPath → Option Bytes)
    (lawful : IsLawful os content) {B : Type 0} (Q : Result B → D → Type 0) where
  abbrev Opened : AbsPath → D → Result AbsPath → D → Type 0
  Opened root d (ok p) d' = (p ≡ root) × (d' ≡ (os.mkdir_all root d).1) × Keeps os content [] d d'
  Opened root d (err e) d' = Keeps os content [] d d'

  opened :
      (d : D) (root : AbsPath)
      → IsDirect (os.view d) root
      → After ((call (os.mkdir_all root) >>= λ _. pure root) d) (Opened root d)
  opened d root direct =
      After-bind (λ r d'. (d' ≡ (os.mkdir_all root d).1) × Keeps os content [] d d') (Opened root d)
        (call (os.mkdir_all root)) (λ _. pure root) d (refl, lawful.mkdir_all d root direct)
        (λ _ d' (same_disk, k). (refl, same_disk, k)) (λ e d' (_, k). k)

  -- The directory is there, and no file has changed.
  pub After-opened :
      (g : AbsPath → Action D B) (d : D) (tenant : Text) (root : AbsPath)
      → workspace_root f.base tenant ≡ ok root
      → IsDirect (os.view d) root
      → ((d' : D) → d' ≡ (os.mkdir_all root d).1 → Keeps os content [] d d' → After (g root d') Q)
      → ((e : Error) (d' : D) → Keeps os content [] d d' → Q (err e) d')
      → After ((root_of os fuel f tenant >>= g) d) Q
  unfolding root_of
  After-opened g d tenant root at direct good bad =
      After-bind (Opened root d) Q (root_of os fuel f tenant) g d
        (After-lift (Opened root d) (λ p. call (os.mkdir_all p) >>= λ _. pure p) d
          (workspace_root f.base tenant)
          (λ p found.
            let same_root : p ≡ root = cc (at, found) in rw same_root (opened d root direct))
          (λ e found. cc (at, found)))
        (λ p d' (same_root, same_disk, k). rw same_root (good d' same_disk k))
        (λ e d' k. bad e d' k)

  pub After-root :
      (g : AbsPath → Action D B) (d : D) (tenant : Text) (root : AbsPath)
      → workspace_root f.base tenant ≡ ok root
      → IsDirect (os.view d) root
      → ((d' : D) → Keeps os content [] d d' → After (g root d') Q)
      → ((e : Error) (d' : D) → Keeps os content [] d d' → Q (err e) d')
      → After ((root_of os fuel f tenant >>= g) d) Q
  After-root g d tenant root at direct good bad =
      After-opened g d tenant root at direct (λ d' _ k. good d' k) bad

  resolved-any :
      (g : AbsPath → Action D B) (d : D) (found : Option (Result AbsPath))
      → found ≢ none
      → ((p : AbsPath) → found ≡ some (ok p) → After (g p d) Q)
      → ((e : Error) → Q (err e) d)
      → After (continue g (elim found [ none ↦ none | some r ↦ some (friendly_path_error r, d) ])) Q
  resolved-any g d none returns good bad = absurd (returns refl)
  resolved-any g d (some (ok p)) returns good bad = good p refl
  resolved-any g d (some (err e)) returns good bad = bad _

  -- `resolve` returns, and changes nothing.
  pub After-resolved :
      (g : AbsPath → Action D B) (d : D) (root : AbsPath) (path : Text) (allow_missing : Bool)
      → resolve (os.view d) fuel root path allow_missing ≢ none
      → ((p : AbsPath)
          → resolve (os.view d) fuel root path allow_missing ≡ some (ok p)
          → After (g p d) Q)
      → ((e : Error) → Q (err e) d)
      → After ((resolved os fuel f root path allow_missing >>= g) d) Q
  unfolding resolved ◌>>=◌
  After-resolved g d root path allow_missing returns good bad =
      resolved-any g d (resolve (os.view d) fuel root path allow_missing) returns good bad
