-- ===== src/Disk/Memory/Moves.antt =====
-- What a rename does to the disk in memory.
use mathlib.Core.List.{append-nil}
use chat2work_mcp.Prelude.{
  Bool, true, ◌&&◌, same_iff, inl, inr, Bool-cases, ◌≡◌, ◌≢◌, ◌∙◌, refl, sym, ap, false, Option,
  none, some, [], ◌∷◌, ◌++◌, arith, Text, ok, err, Error,
}
use chat2work_mcp.Prelude.Map.{lookup, insert, delete, lookup-insert, lookup-delete}
use chat2work_mcp.Paths.{AbsPath, same_path}
use chat2work_mcp.Paths.Parents.{same_path_iff}
use chat2work_mcp.Disk.{Bytes}
use chat2work_mcp.Disk.Lawful.{Renamed}
use chat2work_mcp.Disk.Memory.{
  path_key, Disk, below, bare, renamed, memory, content, Kept, kept, unchanged, found,
}

below-append : (a rest : AbsPath) → below a (a ++ rest) ≡ some rest
below-append [] rest = refl
below-append (x ∷ a) rest = ground (arith, same_iff x x, below-append a rest)

below-none : (a q rest : AbsPath) → below a q ≡ none → a ++ rest ≢ q
below-none a q rest h e =
    let there : below a q ≡ some rest = ap (below a) (sym e) ∙ below-append a rest in cc

bare-lookup :
    (p : AbsPath) (x : Text) (rest : AbsPath) (d : Disk)
    → bare p d ≡ true
    → lookup (p ++ x ∷ rest) d ≡ none
unfolding lookup
bare-lookup p x rest [] h = refl
bare-lookup p x rest ((q, bytes) ∷ d) h = elim (Bool-cases (same_path q (p ++ x ∷ rest))) [
  | inr other ↦ rw other (bare-lookup p x rest d (ground (arith, h)))
  | inl this ↦
      let at : q ≡ p ++ x ∷ rest = (same_path_iff q (p ++ x ∷ rest)).0 this in
      let there : below p q ≡ some (x ∷ rest) = ap (below p) at ∙ below-append p (x ∷ rest) in
      absurd (ground (arith, h, there))
]

longer_ne : (p : AbsPath) (x : Text) (rest : AbsPath) → p ++ x ∷ rest ≢ p
longer_ne [] x rest e = cc
longer_ne (y ∷ p) x rest e = longer_ne p x rest (cc)

lookup-moved :
    (a b rest : AbsPath) (bytes : Bytes) (d : Disk)
    → lookup a d ≡ some bytes
    → bare a d ≡ true
    → bare b d ≡ true
    → lookup (b ++ rest) (insert b bytes (delete a d)) ≡ lookup (a ++ rest) d
lookup-moved a b [] bytes d here h h' =
    rw (append-nil a, append-nil b) (found b bytes (delete a d) ∙ sym here)
lookup-moved a b (x ∷ rest) bytes d here h h' =
    let gone = bare-lookup a x rest d h in
    let free = bare-lookup b x rest d h' in
    let longer = longer_ne b x rest in
    ground (
      arith,
      gone,
      free,
      longer,
      same_path_iff b (b ++ x ∷ rest),
      lookup-insert b (b ++ x ∷ rest) bytes (delete a d),
      lookup-delete a (b ++ x ∷ rest) d,
    )

lookup-left :
    (a b rest : AbsPath) (bytes : Bytes) (d : Disk)
    → below a b ≡ none
    → bare a d ≡ true
    → lookup (a ++ rest) (insert b bytes (delete a d)) ≡ none
lookup-left a b rest bytes d apart h =
    let ne = below-none a b rest apart in
    let gone = deleted_below a rest d h in
    ground
      (arith, ne, gone, same_path_iff b (a ++ rest), lookup-insert b (a ++ rest) bytes (delete a d))
  where
    deleted_below :
        (a rest : AbsPath) (d : Disk) → bare a d ≡ true → lookup (a ++ rest) (delete a d) ≡ none
    deleted_below a [] d h =
        rw (append-nil a) (ground (arith, same_path_iff a a, lookup-delete a a d))
    deleted_below a (x ∷ rest) d h =
        let gone = bare-lookup a x rest d h in
        ground (arith, gone, lookup-delete a (a ++ x ∷ rest) d)

pub moved_at :
    (d : Disk) (a b rest : AbsPath) (o : Option Bytes) (u : Option AbsPath) (free : Bool)
    → lookup a d ≡ o
    → below a b ≡ u
    → (bare a d && bare b d) ≡ free
    → (renamed a b d o u free).0 ≡ ok tt
    → (lookup (b ++ rest) (renamed a b d o u free).1 ≡ lookup (a ++ rest) d)
      × (lookup (a ++ rest) (renamed a b d o u free).1 ≡ none)
moved_at d a b rest (some bytes) none true here h free done = (
  lookup-moved a b rest bytes d here (ground (arith, free)) (ground (arith, free)),
  lookup-left a b rest bytes d h (ground (arith, free)),
)
moved_at d a b rest (some bytes) none false here h free done = cc
moved_at d a b rest (some bytes) (some _) v here h free done = cc
moved_at d a b rest none u v here h free done = cc

pub moved :
    (d : Disk) (a b : AbsPath) (bytes : Bytes) (o : Option Bytes) (u : Option AbsPath) (v : Bool)
    → o ≡ some bytes
    → Renamed memory content d a b bytes (renamed a b d o u v).0 (renamed a b d o u v).1
moved d a b bytes none u v e = cc
moved d a b bytes (some bytes') (some _) v e = unchanged d
moved d a b bytes (some bytes') none false e = unchanged d
moved d a b bytes (some bytes') none true e =
    let same_bytes : bytes' ≡ bytes = cc in
    (
      found b bytes' (delete a d) ∙ ap some same_bytes,
      kept (a ∷ b ∷ []) d (insert b bytes' (delete a d)) (λ q (ne, (ne', _)). ground (
        arith,
        ne,
        ne',
        same_path_iff b q,
        same_path_iff a q,
        lookup-insert b q bytes' (delete a d),
        lookup-delete a q d,
      )),
    )

pub others :
    (d : Disk) (a b q : AbsPath) (o : Option Bytes) (u : Option AbsPath) (v : Bool)
    → q ≢ a
    → q ≢ b
    → lookup q (renamed a b d o u v).1 ≡ lookup q d
others d a b q (some bytes) none true ne ne' = ground (
  arith,
  ne,
  ne',
  same_path_iff b q,
  same_path_iff a q,
  lookup-insert b q bytes (delete a d),
  lookup-delete a q d,
)
others d a b q (some bytes) none false ne ne' = refl
others d a b q (some bytes) (some _) v ne ne' = refl
others d a b q none u v ne ne' = refl

pub move_failed :
    (d : Disk) (a b : AbsPath) (e : Error) (o : Option Bytes) (u : Option AbsPath) (v : Bool)
    → (renamed a b d o u v).0 ≡ err e
    → Kept [] d (renamed a b d o u v).1
move_failed d a b e (some bytes) none true h = cc
move_failed d a b e (some bytes) none false h = unchanged d
move_failed d a b e (some bytes) (some _) v h = unchanged d
move_failed d a b e none u v h = unchanged d
