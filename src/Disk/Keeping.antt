-- ===== src/Disk/Keeping.antt =====
-- How the effects of several calls add up.
use mathlib.Core.List.{append-nil}
use chat2work_mcp.Prelude.{◌≡◌, ◌∙◌, ◌⊎◌, refl, sym, inl, inr, Option, List, [], ◌∷◌, ◌++◌, Text}
use chat2work_mcp.Paths.{AbsPath, View}
use chat2work_mcp.Paths.Parents.{IsPlain}
use chat2work_mcp.Disk.{Os, Bytes}
use chat2work_mcp.Disk.Lawful.{Keeps, IsDirect}

-- Two ways to cut one path in two: one cut is not behind the other.
pub append-cases :
    (xs ys front back : AbsPath)
    → xs ++ ys ≡ front ++ back
    → ((m : AbsPath) × (xs ≡ front ++ m)) ⊎ ((m : AbsPath) × (front ≡ xs ++ m) × (ys ≡ m ++ back))
append-cases xs ys [] back e = inl (xs, refl)
append-cases [] ys (a ∷ front) back e = inr (a ∷ front, refl, e)
append-cases (x ∷ xs) ys (a ∷ front) back e = elim (append-cases xs ys front back (cc)) [
  | inl (m, p) ↦ inl (m, cc)
  | inr (m, p, q) ↦ inr (m, cc, q)
]

-- Below a directory that is reached without links, down names that are no links.
pub IsDirect-append :
    (view : View) (root parts : AbsPath)
    → IsDirect view root
    → ((pre post : AbsPath) → parts ≡ pre ++ post → IsPlain view (root ++ pre))
    → IsDirect view (root ++ parts)
IsDirect-append view root parts direct plain pre post e =
    elim (append-cases root parts pre post e) [
      | inl (m, p) ↦ direct pre m p
      | inr (m, p, q) ↦ rw p (plain m post q)
    ]

pub IsDirect-child :
    (view : View) (dir : AbsPath) (name : Text)
    → IsDirect view dir
    → IsPlain view (dir ++ name ∷ [])
    → IsDirect view (dir ++ name ∷ [])
IsDirect-child view dir name direct plain = IsDirect-append view dir (name ∷ []) direct cut
  where
    cut : (pre post : AbsPath) → name ∷ [] ≡ pre ++ post → IsPlain view (dir ++ pre)
    cut [] post e = rw (append-nil dir) (direct dir [] (sym (append-nil dir)))
    cut (x ∷ []) post e = let same_name : name ≡ x = cc in rw (← same_name) plain
    cut (x ∷ y ∷ pre) post e = cc

module _ {D : Type 0} (os : Os D) (content : D → AbsPath → Option Bytes) where
  pub Keeps-refl : (d : D) → Keeps os content [] d d
  Keeps-refl d = record { same = λ q h. refl; plain = λ p h. h; links = λ q h l. l }

  pub Keeps-trans :
      (touched : List AbsPath) (d d' d'' : D)
      → Keeps os content touched d d'
      → Keeps os content touched d' d''
      → Keeps os content touched d d''
  Keeps-trans touched d d' d'' k k' = record {
    same = λ q h. k'.same q h ∙ k.same q h;
    plain = λ p h. k'.plain p (k.plain p h);
    links = λ q h l. k.links q h (k'.links q h l);
  }

  -- What changes nothing, after or before what touches some files.
  pub Keeps-more :
      (touched : List AbsPath) (d d' : D) → Keeps os content [] d d' → Keeps os content touched d d'
  Keeps-more touched d d' k = record {
    same = λ q h. k.same q tt;
    plain = k.plain;
    links = λ q h. k.links q tt;
  }

  pub Keeps-cons :
      (p : AbsPath) (touched : List AbsPath) (d d' : D)
      → Keeps os content touched d d'
      → Keeps os content (p ∷ touched) d d'
  Keeps-cons p touched d d' k = record {
    same = λ q (_, h). k.same q h;
    plain = k.plain;
    links = λ q (_, h). k.links q h;
  }

  pub Keeps-swap :
      (p p' : AbsPath) (touched : List AbsPath) (d d' : D)
      → Keeps os content (p ∷ p' ∷ touched) d d'
      → Keeps os content (p' ∷ p ∷ touched) d d'
  Keeps-swap p p' touched d d' k = record {
    same = λ q (a, (b, h)). k.same q (b, (a, h));
    plain = k.plain;
    links = λ q (a, (b, h)). k.links q (b, (a, h));
  }

  pub IsDirect-Keeps :
      (touched : List AbsPath) (d d' : D) (p : AbsPath)
      → Keeps os content touched d d'
      → IsDirect (os.view d) p
      → IsDirect (os.view d') p
  IsDirect-Keeps touched d d' p k direct pre post e = k.plain pre (direct pre post e)

  -- Backwards over what touches nothing
  pub IsDirect-before :
      (d d' : D) (p : AbsPath)
      → Keeps os content [] d d'
      → IsDirect (os.view d') p
      → IsDirect (os.view d) p
  IsDirect-before d d' p k direct pre post e = k.links pre tt (direct pre post e)
