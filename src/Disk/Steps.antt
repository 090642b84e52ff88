-- ===== src/Disk/Steps.antt =====
-- What holds when a method has returned, one rule for each way to build a method.
use chat2work_mcp.Prelude.{Option, none, some, Result, ok, err, Error}
use chat2work_mcp.Disk.{Call, Action, continue, ◌>>=◌, defer, on_error}

-- The method returns, and its result and disk are as `Q` says.
abbrev pub After : {D A : Type 0} → Option (Result A × D) → (Result A → D → Type 0) → Type 0
After none Q = ⊥
After (some (r, d)) Q = Q r d

module _ {D A : Type 0} (P Q : Result A → D → Type 0) where
  pub After-imp :
      (o : Option (Result A × D)) → After o P → ((r : Result A) (d : D) → P r d → Q r d) → After o Q
  After-imp none h f = h
  After-imp (some (r, d)) h f = f r d h

  pub After-defer :
      (c : Call D (Unit {0})) (m : Action D A) (d : D)
      → After (m d) P
      → ((r : Result A) (d' : D) → P r d' → Q r (c d').1)
      → After (defer c m d) Q
  unfolding defer
  After-defer c m d h f = deferred (m d) h
    where
      deferred :
          (o : Option (Result A × D))
          → After o P
          → After (elim o [ none ↦ none | some (r, d') ↦ some (r, (c d').1) ]) Q
      deferred none h = h
      deferred (some (r, d')) h = f r d' h

module _ {D A B : Type 0} (P : Result A → D → Type 0) (Q : Result B → D → Type 0) where
  After-continue :
      (o : Option (Result A × D)) (f : A → Action D B)
      → After o P
      → ((a : A) (d : D) → P (ok a) d → After (f a d) Q)
      → ((e : Error) (d : D) → P (err e) d → Q (err e) d)
      → After (continue f o) Q
  After-continue none f h good bad = h
  After-continue (some (ok a, d)) f h good bad = good a d h
  After-continue (some (err e, d)) f h good bad = bad e d h

  pub After-bind :
      (m : Action D A) (f : A → Action D B) (d : D)
      → After (m d) P
      → ((a : A) (d' : D) → P (ok a) d' → After (f a d') Q)
      → ((e : Error) (d' : D) → P (err e) d' → Q (err e) d')
      → After ((m >>= f) d) Q
  unfolding ◌>>=◌
  After-bind m f d h good bad = After-continue (m d) f h good bad

module _ {D A : Type 0} (P Q : Result A → D → Type 0) where
  pub After-on_error :
      (c : Call D (Unit {0})) (m : Action D A) (d : D)
      → After (m d) P
      → ((a : A) (d' : D) → P (ok a) d' → Q (ok a) d')
      → ((e : Error) (d' : D) → P (err e) d' → Q (err e) (c d').1)
      → After (on_error c m d) Q
  unfolding on_error
  After-on_error c m d h good bad = handled (m d) h
    where
      handled :
          (o : Option (Result A × D))
          → After o P
          → After
              (elim o [
                | none ↦ none
                | some (r, d') ↦ elim r [ ok a ↦ some (ok a, d') | err e ↦ some (err e, (c d').1) ]
              ])
              Q
      handled none h = h
      handled (some (ok a, d')) h = good a d' h
      handled (some (err e, d')) h = bad e d' h
