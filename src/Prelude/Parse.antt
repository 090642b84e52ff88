-- ===== src/Prelude/Parse.antt =====
-- What the program uses of package strconv, over the code points of a text.
use Prim.Native.Nat.{ℕ, ◌+◌, ◌-◌, ◌*◌, ◌^◌}
use Prim.Native.Nat.{◌<◌}
use native.Mathlib.Omega.{arith}
use mathlib.Core.Logic.{◌≢◌}
use chat2work_mcp.Prelude.Lists.{All}
use chat2work_mcp.Prelude.Decimal.{
  decimal, value, IsDigit, decimal-IsDigit, value-decimal, decimal-ne-empty,
}
use mathlib.Core.Path.{◌≡◌, refl, ap, ◌∙◌}
use mathlib.Core.Bool.{Bool, true, false, ◌||◌}
use mathlib.Core.Option.{Option, none, some}
use mathlib.Core.List.{[], ◌∷◌}
use chat2work_mcp.Prelude.Tests.{ltb, leb, ◌==◌, if◌then◌else◌}
use chat2work_mcp.Prelude.Results.{Text}
use chat2work_mcp.Prelude.Texts.{codes, same}
use chat2work_mcp.Prelude.Int.{ℤ, pos, negsuc}

-- The value of a run of digits behind `n`.
read_digits : ℕ → Text → Option ℕ
read_digits n [] = some n
read_digits n (c ∷ s) =
    if ltb c b'0' || ltb b'9' c then none else read_digits (n * 10 + (c - b'0')) s

unfoldable pub read_number : Text → Option ℕ
unfolding read_digits
read_number [] = none
read_number (c ∷ s) = read_digits 0 (c ∷ s)

negated : ℕ → ℤ
negated n = if n == 0 then pos 0 else negsuc (n - 1)

-- strconv.ParseInt(s, 10, 64), and strconv.Atoi where int has 64 bits
unfoldable pub parse_int : Text → Option ℤ
unfolding read_number negated
parse_int [] = none
parse_int (c ∷ s) =
    if c == b'-'
    then elim (read_number s) [
      | none ↦ none
      | some n ↦ if leb n (2 ^ 63) then some (negated n) else none
    ]
    else elim (read_number (if c == b'+' then s else c ∷ s)) [
      | none ↦ none
      | some n ↦ if ltb n (2 ^ 63) then some (pos n) else none
    ]

-- strconv.ParseBool
unfoldable pub parse_bool : Text → Option Bool
parse_bool s =
    if same s (codes "1")
      || (same s (codes "t")
          || (same s (codes "T")
              || (same s (codes "TRUE") || (same s (codes "true") || same s (codes "True")))))
    then some true
    else if same s (codes "0")
        || (same s (codes "f")
            || (same s (codes "F")
                || (same s (codes "FALSE") || (same s (codes "false") || same s (codes "False")))))
    then some false
    else none

parse_int_tests :
    (parse_int (codes "-12") ≡ some (negsuc 11))
    × (parse_int (codes "+7") ≡ some (pos 7))
    × (parse_int (codes "9223372036854775808") ≡ none)
    × (parse_int (codes "1x") ≡ none)
unfolding parse_int
parse_int_tests = (refl, refl, refl, refl)

read_digits-value : (n : ℕ) (s : Text) → All IsDigit s → read_digits n s ≡ some (value n s)
unfolding read_digits value
read_digits-value n [] h = refl
read_digits-value n (c ∷ s) (hc, h) =
    ground (arith, hc, read_digits-value (n * 10 + (c - b'0')) s h)

parse_int-digits :
    (s : Text) → s ≢ [] → All IsDigit s → value 0 s < 2 ^ 63 → parse_int s ≡ some (pos (value 0 s))
unfolding parse_int read_number
parse_int-digits [] ne h small = absurd (ne refl)
parse_int-digits (c ∷ s) ne (hc, h) small =
    ground (arith, hc, small, read_digits-value 0 (c ∷ s) (hc, h))

-- A printed number is read back.
pub parse_int-decimal : (n : ℕ) → n < 2 ^ 63 → parse_int (decimal n) ≡ some (pos n)
parse_int-decimal n h =
    parse_int-digits (decimal n) (decimal-ne-empty n) (decimal-IsDigit n)
      (omega (arith, value-decimal n))
    ∙ ap (λ v. some (pos v)) (value-decimal n)
