-- ===== src/Prelude/Separators.antt =====
-- A text that is put together around a separator is taken apart in one way.
use mathlib.Core.List.{[], ◌∷◌, ◌++◌, reverse, reverse-append, reverse-reverse, append_assoc}
use Prim.Native.Nat.{ℕ}
use mathlib.Core.Path.{◌≡◌, refl, sym, ap, ◌∙◌}
use mathlib.Core.Logic.{◌≢◌}
use chat2work_mcp.Prelude.Lists.{All, All-append}
use chat2work_mcp.Prelude.Decimal.{decimal, decimal-IsDigit, IsDigit}
use chat2work_mcp.Prelude.Results.{Text}

abbrev pub Lacks : ℕ → Text → Type 0
Lacks c = All (λ d. d ≢ c)

-- Apart at the first separator.
pub first_apart :
    (c : ℕ) (a b x y : Text) → Lacks c a → Lacks c b → a ++ c ∷ x ≡ b ++ c ∷ y → (a ≡ b) × (x ≡ y)
first_apart c [] [] x y ha hb e = (refl, cc)
first_apart c [] (d ∷ b) x y ha (hd, hb) e = absurd (hd (cc))
first_apart c (d ∷ a) [] x y (hd, ha) hb e = absurd (hd (cc))
first_apart c (d ∷ a) (d' ∷ b) x y (hd, ha) (hd', hb) e =
    let (p, q) = first_apart c a b x y ha hb (cc) in (cc, q)

Lacks-reverse : (c : ℕ) (s : Text) → Lacks c s → Lacks c (reverse s)
Lacks-reverse c [] h = tt
Lacks-reverse c (d ∷ s) (hd, h) =
    rw (reverse-append (d ∷ []) s)
      (All-append (λ x. x ≢ c) (reverse s) (d ∷ []) (Lacks-reverse c s h) (hd, tt))

reverse-around : (c : ℕ) (x a : Text) → reverse (x ++ c ∷ a) ≡ reverse a ++ c ∷ reverse x
reverse-around c x a =
    reverse-append x (c ∷ a)
    ∙ ap (λ (s : Text). s ++ reverse x) (reverse-append (c ∷ []) a)
    ∙ append_assoc (reverse a) (c ∷ []) (reverse x)

-- Apart at the last separator.
pub last_apart :
    (c : ℕ) (a b x y : Text) → Lacks c a → Lacks c b → x ++ c ∷ a ≡ y ++ c ∷ b → (x ≡ y) × (a ≡ b)
last_apart c a b x y ha hb e =
    let (p, q) =
      first_apart c (reverse a) (reverse b) (reverse x) (reverse y) (Lacks-reverse c a ha)
        (Lacks-reverse c b hb) (sym (reverse-around c x a) ∙ ap reverse e ∙ reverse-around c y b) in
    (
      sym (reverse-reverse x) ∙ ap reverse q ∙ reverse-reverse y,
      sym (reverse-reverse a) ∙ ap reverse p ∙ reverse-reverse b,
    )

digits-Lacks : (c : ℕ) (s : Text) → ((d : ℕ) → IsDigit d → d ≢ c) → All IsDigit s → Lacks c s
digits-Lacks c [] other h = tt
digits-Lacks c (d ∷ s) other (hd, h) = (other d hd, digits-Lacks c s other h)

-- A decimal number holds no character that is no digit.
pub decimal-Lacks : (c n : ℕ) → ((d : ℕ) → IsDigit d → d ≢ c) → Lacks c (decimal n)
decimal-Lacks c n other = digits-Lacks c (decimal n) other (decimal-IsDigit n)
