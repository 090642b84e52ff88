-- ===== src/Files/Replacing.antt =====
-- The end of `Write` in internal/app/files.go: a temporary file that is renamed over the target.
use mathlib.Core.List.{reverse-append, reverse-reverse}
use chat2work_mcp.Prelude.{
  ◌≡◌, ◌≢◌, ◌∙◌, refl, sym, ap, Option, none, some, List, [], ◌∷◌, ◌++◌, All, Text, Result, ok, err,
  Error, has_prefix, true, false,
}
use chat2work_mcp.Paths.{AbsPath}
use chat2work_mcp.Disk.{Os, Bytes, call, defer, continue, ◌>>=◌}
use chat2work_mcp.Disk.Steps.{After, After-bind, After-defer, After-on_error}
use chat2work_mcp.Disk.Lawful.{
  Keeps, IsDirect, IsLawful, Filled, Renamed, Removed, Made, temp_prefix,
}
use chat2work_mcp.Disk.Keeping.{
  Keeps-trans, Keeps-more, Keeps-cons, Keeps-swap, IsDirect-child, IsDirect-Keeps,
}
use chat2work_mcp.Files.{fill, replace_in, replace_file, dir_of}

pub dir_of-append : (dir : AbsPath) (name : Text) → dir_of (dir ++ name ∷ []) ≡ dir
unfolding dir_of
dir_of-append dir name = rw (reverse-append dir (name ∷ [])) (reverse-reverse dir)

module _ {D : Type 0} (os : Os D) (content : D → AbsPath → Option Bytes)
    (lawful : IsLawful os content) where
  -- The target has the new content and only the listed paths differ; or nothing else has changed.
  abbrev pub Stored : List AbsPath → D → AbsPath → Bytes → Result (Unit {0}) → D → Type 0
  Stored touched d target bytes (ok _) d' =
      (content d' target ≡ some bytes) × Keeps os content (target ∷ touched) d d'
  Stored touched d target bytes (err e) d' = Keeps os content touched d d'

  Filled-both :
      (d : D) (p : AbsPath) (bytes : Bytes) (r : Result (Unit {0})) (d' : D)
      → content d' p ≡ some bytes
      → Keeps os content (p ∷ []) d d'
      → Filled os content d p bytes r d'
  Filled-both d p bytes (ok _) d' has k = (has, k)
  Filled-both d p bytes (err e) d' has k = k

  -- A call that touches nothing keeps what is filled.
  Filled-quiet :
      (d : D) (p : AbsPath) (bytes : Bytes) (r : Result (Unit {0})) (d' d'' : D)
      → content d' p ≡ some bytes
      → Keeps os content (p ∷ []) d d'
      → Keeps os content [] d' d''
      → Filled os content d p bytes r d''
  Filled-quiet d p bytes r d' d'' has k quiet =
      Filled-both d p bytes r d'' (quiet.same p tt ∙ has)
        (Keeps-trans os content (p ∷ []) d d' d'' k (Keeps-more os content (p ∷ []) d' d'' quiet))

  pub Renamed-Stored :
      (d d' : D) (t target : AbsPath) (bytes : Bytes) (r : Result (Unit {0})) (d'' : D)
      → Keeps os content (t ∷ []) d d'
      → Renamed os content d' t target bytes r d''
      → Stored (t ∷ []) d target bytes r d''
  Renamed-Stored d d' t target bytes (ok _) d'' k (has, renamed) = (
    has,
    Keeps-trans os content (target ∷ t ∷ []) d d' d'' (Keeps-cons os content target (t ∷ []) d d' k)
        (Keeps-swap os content t target [] d' d'' renamed),
  )
  Renamed-Stored d d' t target bytes (err e) d'' k renamed =
      Keeps-trans os content (t ∷ []) d d' d'' k (Keeps-more os content (t ∷ []) d' d'' renamed)

  failed-close :
      (d : D) (t : AbsPath) (e : Error) (d' : D)
      → Keeps os content (t ∷ []) d d'
      → Keeps os content (t ∷ []) d (os.close t d').1
  failed-close d t e d' k =
      Keeps-trans os content (t ∷ []) d d' (os.close t d').1 k
        (Keeps-more os content (t ∷ []) d' (os.close t d').1 (lawful.close d' t))

  -- `fill` leaves the target as it was, or with the whole new content.
  fill-Stored :
      (d : D) (dir dir' : AbsPath) (name name' : Text) (bytes : Bytes)
      → IsDirect (os.view d) (dir ++ name ∷ [])
      → IsDirect (os.view d) dir
      → IsDirect (os.view d) dir'
      → After
          (fill os (dir ++ name ∷ []) (dir' ++ name' ∷ []) bytes d)
          (Stored ((dir ++ name ∷ []) ∷ []) d (dir' ++ name' ∷ []) bytes)
  unfolding fill
  fill-Stored d dir dir' name name' bytes direct_t direct direct' =
      let t : AbsPath = dir ++ name ∷ [] in
      let target : AbsPath = dir' ++ name' ∷ [] in
      let filled = Filled os content d t bytes in
      let stored = Stored (t ∷ []) d target bytes in
      After-bind filled stored _ _ d
        (After-on_error filled filled (os.close t) (call (os.write t bytes)) d
          (lawful.write d t bytes direct_t) (λ a d' p. p) (failed-close d t))
        (λ _ d1 (has1, k1).
          After-bind filled stored _ _ d1
            (After-on_error filled filled (os.close t) (call (os.chmod t)) d1
              (Filled-quiet d t bytes (os.chmod t d1).0 d1 (os.chmod t d1).1 has1 k1
                (lawful.chmod d1 t))
              (λ a d' p. p) (failed-close d t))
            (λ _ d2 (has2, k2).
              After-bind filled stored _ _ d2
                (Filled-quiet d t bytes (os.close t d2).0 d2 (os.close t d2).1 has2 k2
                  (lawful.close d2 t))
                (λ _ d3 (has3, k3).
                  Renamed-Stored d d3 t target bytes (os.rename t target d3).0
                    (os.rename t target d3).1 k3
                    (lawful.rename d3 dir dir' name name' bytes
                      (IsDirect-Keeps os content (t ∷ []) d d3 dir k3 direct)
                      (IsDirect-Keeps os content (t ∷ []) d d3 dir' k3 direct') has3))
                (λ e d' k. k))
            (λ e d' k. k))
        (λ e d' k. k)

  -- Nothing but the target has changed, or a file left over that was not there before.
  abbrev pub Replaced : AbsPath → D → AbsPath → Bytes → Result (Unit {0}) → D → Type 0
  Replaced dir d target bytes r d' =
      (left : List AbsPath) × All
        (λ t. (content d t ≡ none) × ((name : Text) × (t ≡ dir ++ name ∷ []))) left
      × Stored left d target bytes r d'

  pub Removed-Keeps :
      (d : D) (t : AbsPath) (r : Result (Unit {0})) (d' : D)
      → Removed os content d t r d'
      → Keeps os content (t ∷ []) d d'
  Removed-Keeps d t (ok _) d' (gone, k) = k
  Removed-Keeps d t (err e) d' k = Keeps-more os content (t ∷ []) d d' k

  -- Behind `Stored`, and before what changes nothing, a change of the temporary file only.
  pub Stored-around :
      (d d1 d2 d3 : D) (t target : AbsPath) (bytes : Bytes) (r : Result (Unit {0}))
      → target ≢ t
      → Keeps os content (t ∷ []) d d1
      → Stored (t ∷ []) d1 target bytes r d2
      → Keeps os content (t ∷ []) d2 d3
      → Stored (t ∷ []) d target bytes r d3
  Stored-around d d1 d2 d3 t target bytes (ok _) ne before (has, k) after = (
    after.same target (ne, tt) ∙ has,
    Keeps-trans os content (target ∷ t ∷ []) d d2 d3
        (Keeps-trans os content (target ∷ t ∷ []) d d1 d2
          (Keeps-cons os content target (t ∷ []) d d1 before) k)
        (Keeps-cons os content target (t ∷ []) d2 d3 after),
  )
  Stored-around d d1 d2 d3 t target bytes (err e) ne before k after =
      Keeps-trans os content (t ∷ []) d d2 d3 (Keeps-trans os content (t ∷ []) d d1 d2 before k)
        after

  IsDirect-Stored :
      (touched : List AbsPath) (d : D) (target : AbsPath) (bytes : Bytes) (r : Result (Unit {0}))
      (d' : D) (dir : AbsPath)
      → Stored touched d target bytes r d'
      → IsDirect (os.view d) dir
      → IsDirect (os.view d') dir
  IsDirect-Stored touched d target bytes (ok _) d' dir (has, k) =
      IsDirect-Keeps os content (target ∷ touched) d d' dir k
  IsDirect-Stored touched d target bytes (err e) d' dir k =
      IsDirect-Keeps os content touched d d' dir k

  temp-ne :
      (dir : AbsPath) (a b : Text)
      → has_prefix temp_prefix a ≡ true
      → has_prefix temp_prefix b ≡ false
      → dir ++ b ∷ [] ≢ dir ++ a ∷ []
  temp-ne [] a b ha hb e = let same_name : b ≡ a = cc in cc (ap (has_prefix temp_prefix) same_name)
  temp-ne (x ∷ dir) a b ha hb e = temp-ne dir a b ha hb (cc)

  -- The rest of `replace_file` once the temporary file is there.
  filled-Replaced :
      (d d1 d2 : D) (dir : AbsPath) (name name' : Text) (bytes : Bytes)
      → IsDirect (os.view d) dir
      → has_prefix temp_prefix name' ≡ false
      → Keeps os content [] d d1
      → Made os content d1 dir (ok (dir ++ name ∷ [])) d2
      → has_prefix temp_prefix name ≡ true
      → After
          (defer
            (os.remove (dir ++ name ∷ []))
            (fill os (dir ++ name ∷ []) (dir ++ name' ∷ []) bytes)
            d2)
          (Replaced dir d (dir ++ name' ∷ []) bytes)
  filled-Replaced d d1 d2 dir name name' bytes direct visible k1 (_, fresh, plain, k2) hidden =
      let t : AbsPath = dir ++ name ∷ [] in
      let target : AbsPath = dir ++ name' ∷ [] in
      let direct2 : IsDirect (os.view d2) dir =
        IsDirect-Keeps os content (t ∷ []) d1 d2 dir k2
          (IsDirect-Keeps os content [] d d1 dir k1 direct) in
      After-defer (Stored (t ∷ []) d2 target bytes) (Replaced dir d target bytes) (os.remove t)
        (fill os t target bytes) d2
        (fill-Stored d2 dir dir name name' bytes
          (IsDirect-child (os.view d2) dir name direct2 plain) direct2 direct2)
        (λ r d3 stored. (
          t ∷ [],
          ((sym (k1.same t tt) ∙ fresh, (name, refl)), tt),
          Stored-around d d2 d3 (os.remove t d3).1 t target bytes r
              (temp-ne dir name name' hidden visible)
              (Keeps-trans os content (t ∷ []) d d1 d2 (Keeps-more os content (t ∷ []) d d1 k1) k2)
              stored
              (Removed-Keeps d3 t (os.remove t d3).0 (os.remove t d3).1 (
                lawful.remove d3 dir name
                  (IsDirect-Stored (t ∷ []) d2 target bytes r d3 dir stored direct2))),
        ))

  Made-Replaced :
      (d d1 : D) (dir : AbsPath) (name' : Text) (bytes : Bytes)
      → IsDirect (os.view d) dir
      → has_prefix temp_prefix name' ≡ false
      → Keeps os content [] d d1
      → (r : Result AbsPath) (d2 : D) → Made os content d1 dir r d2
      → After
          (continue
            (λ tmp. defer (os.remove tmp) (fill os tmp (dir ++ name' ∷ []) bytes))
            (some (r, d2)))
          (Replaced dir d (dir ++ name' ∷ []) bytes)
  Made-Replaced d d1 dir name' bytes direct visible k1 (ok t) d2
        ((name, at, hidden), fresh, plain, k2) =
      let made : Made os content d1 dir (ok t) d2 = ((name, at, hidden), fresh, plain, k2) in
      rw at (filled-Replaced d d1 d2 dir name name' bytes direct visible k1 (rw at at made) hidden)
  Made-Replaced d d1 dir name' bytes direct visible k1 (err e) d2 k2 =
      ([], tt, Keeps-trans os content [] d d1 d2 k1 k2)

  replace_in-Replaced :
      (d : D) (dir : AbsPath) (name' : Text) (bytes : Bytes)
      → IsDirect (os.view d) dir
      → has_prefix temp_prefix name' ≡ false
      → After
          (replace_in os dir (dir ++ name' ∷ []) bytes d)
          (Replaced dir d (dir ++ name' ∷ []) bytes)
  unfolding replace_in ◌>>=◌
  replace_in-Replaced d dir name' bytes direct visible =
      After-bind (λ r d1. Keeps os content [] d d1) (Replaced dir d (dir ++ name' ∷ []) bytes)
        (call (os.mkdir_all dir))
        (λ _. call (os.create_temp dir) >>= λ tmp.
          defer (os.remove tmp) (fill os tmp (dir ++ name' ∷ []) bytes))
        d (lawful.mkdir_all d dir direct)
        (λ _ d1 k1.
          Made-Replaced d d1 dir name' bytes direct visible k1 (os.create_temp dir d1).0
            (os.create_temp dir d1).1
            (lawful.create_temp d1 dir (IsDirect-Keeps os content [] d d1 dir k1 direct)))
        (λ e d1 k1. ([], tt, k1))

  -- Whatever fails, `replace_file` leaves the target as it was or with the whole new content.
  pub replace_file-Replaced :
      (d : D) (dir : AbsPath) (name' : Text) (bytes : Bytes)
      → IsDirect (os.view d) dir
      → has_prefix temp_prefix name' ≡ false
      → After
          (replace_file os (dir ++ name' ∷ []) bytes d)
          (Replaced dir d (dir ++ name' ∷ []) bytes)
  unfolding replace_file
  replace_file-Replaced d dir name' bytes direct visible =
      rw (dir_of-append dir name') (replace_in-Replaced d dir name' bytes direct visible)
