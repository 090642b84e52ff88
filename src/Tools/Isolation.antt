-- ===== src/Tools/Isolation.antt =====
-- What a call of a file tool can change, and where.
use mathlib.Core.List.{append_assoc}
use chat2work_mcp.Prelude.{
  ℕ, ◌≡◌, ◌≢◌, ◌∙◌, ap, Bool, Option, none, List, [], ◌∷◌, ◌++◌, All, Text, Result, ok, err,
}
use chat2work_mcp.Paths.{AbsPath}
use chat2work_mcp.Paths.Within.{IsWithin}
use chat2work_mcp.Quota.{Files}
use chat2work_mcp.Disk.{Os, Bytes}
use chat2work_mcp.Disk.Lawful.{Keeps, IsLawful}
use chat2work_mcp.Files.Replacing.{Replaced}
use chat2work_mcp.Files.Writing.{Wrote}
use chat2work_mcp.Files.Editing.{Edited}
use chat2work_mcp.Files.Removing.{Deleted}
use chat2work_mcp.Files.Moving.{Moved}

module _ {D : Type 0} (os : Os D) (content : D → AbsPath → Option Bytes)
    (lawful : IsLawful os content) (fuel : ℕ) (f : Files) where
  -- No file outside the directory has changed.
  pub record Confined (root : AbsPath) (d d' : D) : Type 0 where
    pub outside : (q : AbsPath) → ((rest : AbsPath) → q ≢ root ++ rest) → content d' q ≡ content d q

  Keeps-Confined :
      (root : AbsPath) (touched : List AbsPath) (d d' : D)
      → All (λ p. IsWithin root p) touched
      → Keeps os content touched d d'
      → Confined root d d'
  Keeps-Confined root touched d d' inside k = record {
    outside = λ q out. k.same q (apart q out touched inside);
  }
    where
      apart :
          (q : AbsPath)
          → ((rest : AbsPath) → q ≢ root ++ rest)
          → (touched : List AbsPath) → All (λ p. IsWithin root p) touched
          → All (λ p. q ≢ p) touched
      apart q out [] h = tt
      apart q out (p ∷ touched) ((rest, at), h) = ((λ e. out rest (e ∙ at)), apart q out touched h)

  left-IsWithin :
      (root pre : AbsPath) (d : D) (left : List AbsPath)
      → All (λ t. (content d t ≡ none) × ((name : Text) × (t ≡ (root ++ pre) ++ name ∷ []))) left
      → All (λ p. IsWithin root p) left
  left-IsWithin root pre d [] h = tt
  left-IsWithin root pre d (t ∷ left) ((_, (name, at)), h) =
      ((pre ++ name ∷ [], at ∙ append_assoc root pre (name ∷ [])), left-IsWithin root pre d left h)

  Replaced-Confined :
      (root pre : AbsPath) (d : D) (name : Text) (bytes : Bytes) (r : Result (Unit {0})) (d' : D)
      → Replaced os content lawful (root ++ pre) d ((root ++ pre) ++ name ∷ []) bytes r d'
      → Confined root d d'
  Replaced-Confined root pre d name bytes (ok a) d' (left, h, (has, k)) =
      Keeps-Confined root (((root ++ pre) ++ name ∷ []) ∷ left) d d'
        ((pre ++ name ∷ [], append_assoc root pre (name ∷ [])), left-IsWithin root pre d left h) k
  Replaced-Confined root pre d name bytes (err e) d' (left, h, k) =
      Keeps-Confined root left d d' (left-IsWithin root pre d left h) k

  pub Wrote-Confined :
      (root pre : AbsPath) (d : D) (name : Text) (bytes : Bytes) (overwrite : Bool)
      (r : Result (Unit {0})) (d' : D)
      → Wrote os content lawful fuel f
          (root ++ pre)
          d
          ((root ++ pre) ++ name ∷ [])
          bytes
          overwrite
          r
          d'
      → Confined root d d'
  Wrote-Confined root pre d name bytes overwrite (ok a) d' (_, _, _, h) =
      Replaced-Confined root pre d name bytes (ok a) d' h
  Wrote-Confined root pre d name bytes overwrite (err e) d' h =
      Replaced-Confined root pre d name bytes (err e) d' h

  pub Edited-Confined :
      (root pre : AbsPath) (name path : Text) (old_text new_text : Bytes) (d : D)
      (r : Result (Unit {0})) (d' : D)
      → Edited os content lawful fuel f root pre name path old_text new_text d r d'
      → Confined root d d'
  Edited-Confined root pre name path old_text new_text d (ok a) d' (_, bytes', _, _, h) =
      Replaced-Confined root pre d name bytes' (ok a) d' h
  Edited-Confined root pre name path old_text new_text d (err e) d' h =
      Replaced-Confined root pre d name [] (err e) d' h

  pub Deleted-Confined :
      (root : AbsPath) (path : Text) (confirm : Bool) (d : D) (r : Result (Unit {0})) (d' : D)
      → Deleted os content lawful fuel f root path confirm d r d'
      → Confined root d d'
  Deleted-Confined root path confirm d (ok _) d' (_, _, p, target, _, _, _, _, k) =
      Keeps-Confined root (p ∷ []) d d' (target.inside, tt) k
  Deleted-Confined root path confirm d (err e) d' k = Keeps-Confined root [] d d' tt k

  pub Moved-Confined :
      (root pre : AbsPath) (src name : Text) (d : D) (r : Result (Unit {0})) (d' : D)
      → Moved os content lawful fuel f root src ((root ++ pre) ++ name ∷ []) d r d'
      → Confined root d d'
  Moved-Confined root pre src name d (ok _) d' (p, d1, e, source, _, _, moved) = record {
    outside = λ q out.
        let (below, at) = source.inside in
        moved.others q
          (λ rest here.
            out (below ++ rest)
              (here ∙ ap (λ (x : AbsPath). x ++ rest) at ∙ append_assoc root below rest))
          (λ rest here. out ((pre ++ name ∷ []) ++ rest) (
            here
            ∙ ap (λ (x : AbsPath). x ++ rest) (append_assoc root pre (name ∷ []))
            ∙ append_assoc root (pre ++ name ∷ []) rest));
  }
  Moved-Confined root pre src name d (err e) d' k = Keeps-Confined root [] d d' tt k
