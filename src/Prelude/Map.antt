-- ===== src/Prelude/Map.antt =====
-- Go's `map[K]V` as an association list without repeated keys, for the keys that the program uses.
-- The program's own order of iteration is never relied on, so the order of entries stands for any.
use Prim.Native.Nat.{ℕ, ◌+◌, ◌≤◌, ◌<◌}
use mathlib.Core.Path.{◌≡◌, refl}
use mathlib.Core.Logic.{◌↔◌}
use mathlib.Core.Bool.{Bool, true}
use mathlib.Core.Option.{Option, none, some}
use mathlib.Core.List.{List, [], ◌∷◌}
use native.Mathlib.Omega.{arith}
use chat2work_mcp.Prelude.Tests.{◌==◌ as nat_eq, ==_iff, if◌then◌else◌}
use chat2work_mcp.Prelude.Lists.{length}
use chat2work_mcp.Prelude.Texts.{same, same_iff}
use chat2work_mcp.Prelude.Results.{Text}

pub record Key (K : Type 0) : Type 0 where
  pub eq : K → K → Bool
  pub eq_iff : (a b : K) → (eq a b ≡ true) ↔ (a ≡ b)

instance abbrev pub text_key : Key Text
text_key = record { eq = same; eq_iff = same_iff }

instance abbrev pub nat_key : Key ℕ
nat_key = record { eq = nat_eq; eq_iff = ==_iff }

module _ {K V : Type 0} ⦃e : Key K⦄ where
  -- delete(m, k)
  unfoldable pub delete : K → List (K × V) → List (K × V)
  delete k [] = []
  delete k ((j, w) ∷ m) = if e.eq j k then delete k m else (j, w) ∷ delete k m

  -- m[k] = v
  unfoldable pub insert : K → V → List (K × V) → List (K × V)
  insert key new [] = (key, new) ∷ []
  insert key new ((at, old) ∷ rest) =
      if e.eq at key then (key, new) ∷ rest else (at, old) ∷ insert key new rest

  -- m[k], with the `ok` of the comma-ok form
  unfoldable pub lookup : K → List (K × V) → Option V
  lookup key [] = none
  lookup key ((at, held) ∷ rest) = if e.eq at key then some held else lookup key rest

  pub lookup-delete :
      (k j : K) (m : List (K × V)) → lookup j (delete k m) ≡ (if e.eq k j then none else lookup j m)
  unfolding lookup delete
  lookup-delete k j [] = ground arith
  lookup-delete k j ((i, w) ∷ m) =
      ground (arith, lookup-delete k j m, e.eq_iff i j, e.eq_iff i k, e.eq_iff k j)

  pub lookup-insert :
      (key other : K) (new : V) (m : List (K × V))
      → lookup other (insert key new m) ≡ (if e.eq key other then some new else lookup other m)
  unfolding insert lookup
  lookup-insert key other new [] = refl
  lookup-insert key other new ((at, old) ∷ rest) = ground (
    arith,
    lookup-insert key other new rest,
    e.eq_iff at key,
    e.eq_iff at other,
    e.eq_iff key other,
  )

  pub length-delete-le : (k : K) (m : List (K × V)) → length (delete k m) ≤ length m
  unfolding delete
  length-delete-le k [] = omega arith
  length-delete-le k ((j, w) ∷ m) = ground (arith, length-delete-le k m)

  pub length-insert-le : (k : K) (v : V) (m : List (K × V)) → length (insert k v m) ≤ length m + 1
  unfolding insert
  length-insert-le k v [] = omega arith
  length-insert-le k v ((j, w) ∷ m) = ground (arith, length-insert-le k v m)

  -- No key stands twice.
  abbrev pub Unique : List (K × V) → Type 0
  Unique [] = Unit
  Unique ((k, v) ∷ m) = (lookup k m ≡ none) × Unique m

  pub insert-Unique : (k : K) (v : V) (m : List (K × V)) → Unique m → Unique (insert k v m)
  unfolding insert lookup
  insert-Unique k v [] h = (refl, tt)
  insert-Unique k v ((j, w) ∷ m) (a, h) =
      ground (arith, insert-Unique k v m h, lookup-insert k j v m, e.eq_iff j k, e.eq_iff k j)

  pub delete-Unique : (k : K) (m : List (K × V)) → Unique m → Unique (delete k m)
  unfolding delete
  delete-Unique k [] h = tt
  delete-Unique k ((j, w) ∷ m) (a, h) = ground (arith, delete-Unique k m h, lookup-delete k j m)

  pub length-delete-lt :
      (k : K) (v : V) (m : List (K × V)) → lookup k m ≡ some v → length (delete k m) < length m
  unfolding delete lookup
  length-delete-lt k v [] h = absurd (ground arith)
  length-delete-lt k v ((j, w) ∷ m) h = ground (arith, length-delete-lt k v m, length-delete-le k m)
