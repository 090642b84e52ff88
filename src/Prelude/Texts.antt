-- ===== src/Prelude/Texts.antt =====
-- Go strings as lists of code points, and what the program uses of package strings.
use Prim.Native.Nat.{ℕ, ◌+◌}
use Prim.Native.Char.{code}
use Prim.Native.String.{String}
use mathlib.Core.Path.{◌≡◌, refl}
use mathlib.Core.Logic.{◌↔◌}
use mathlib.Core.Bool.{Bool, true, false, ◌&&◌, ◌||◌}
use mathlib.Core.List.{List, [], ◌∷◌, ◌++◌, reverse}
use native.Mathlib.Omega.{arith}
use chat2work_mcp.Prelude.Tests.{ltb, leb, ◌==◌, if◌then◌else◌}
use chat2work_mcp.Prelude.Results.{Text}

abbrev pub codes : String → Text
codes String.[] = []
codes (String.◌∷◌ c s) = code c ∷ codes s

unfoldable pub same : Text → Text → Bool
same [] [] = true
same (a ∷ s) (b ∷ t) = a == b && same s t
same _ _ = false

pub same_iff : (s t : Text) → (same s t ≡ true) ↔ (s ≡ t)
unfolding same
same_iff [] [] = (λ _. refl, λ _. refl)
same_iff [] (b ∷ t) = (λ h. cc, λ h. cc)
same_iff (a ∷ s) [] = (λ h. cc, λ h. cc)
same_iff (a ∷ s) (b ∷ t) =
    (λ h. ground (arith, (same_iff s t).0), λ h. ground (arith, (same_iff s t).1))

pub same_refl : (s : Text) → same s s ≡ true
same_refl s = (same_iff s s).1 refl

-- strings.HasPrefix(s, p), with the prefix first
unfoldable pub has_prefix : Text → Text → Bool
has_prefix [] s = true
has_prefix (a ∷ p) (b ∷ s) = a == b && has_prefix p s
has_prefix _ [] = false

pub has_prefix-append : (p s : Text) → has_prefix p (p ++ s) ≡ true
unfolding has_prefix
has_prefix-append [] s = refl
has_prefix-append (a ∷ p) s = ground (arith, has_prefix-append p s)

-- strings.TrimPrefix(s, p)
unfoldable pub trim_prefix : Text → Text → Text
trim_prefix [] s = s
trim_prefix (a ∷ p) [] = []
trim_prefix (a ∷ p) (b ∷ s) = if has_prefix (a ∷ p) (b ∷ s) then trim_prefix p s else b ∷ s

-- strings.ContainsRune, ContainsAny
unfoldable pub contains_rune : Text → ℕ → Bool
contains_rune [] c = false
contains_rune (a ∷ s) c = a == c || contains_rune s c

unfoldable pub contains_any : Text → Text → Bool
contains_any [] chars = false
contains_any (a ∷ s) chars = contains_rune chars a || contains_any s chars

-- unicode.IsSpace
unfoldable pub is_space : ℕ → Bool
is_space c =
    leb 9 c && leb c 13
    || (c == 0x20
        || (c == 0x85
            || (c == 0xa0
                || (c == 0x1680
                    || (leb 0x2000 c && leb c 0x200a
                        || (c == 0x2028
                            || (c == 0x2029 || (c == 0x202f || (c == 0x205f || c == 0x3000)))))))))

unfoldable pub trim_left : Text → Text
unfolding is_space
trim_left [] = []
trim_left (c ∷ s) = if is_space c then trim_left s else c ∷ s

-- strings.TrimSpace
unfoldable pub trim_space : Text → Text
unfolding trim_left
trim_space s = reverse (trim_left (reverse (trim_left s)))

-- strings.Split(s, sep) for a separator of one character; `cur` is the part that is being read
unfoldable pub split_from : ℕ → Text → Text → List Text
split_from sep cur [] = cur ∷ []
split_from sep cur (c ∷ s) = elim (c == sep) [
  | true ↦ cur ∷ split_from sep [] s
  | false ↦ split_from sep (cur ++ c ∷ []) s
]

unfoldable pub split : ℕ → Text → List Text
unfolding split_from
split sep s = split_from sep [] s

-- strings.ToLower, exact wherever the result is compared with ASCII text: besides A to Z only
-- U+0130 and U+212A have an ASCII lower case.
unfoldable pub to_lower_rune : ℕ → ℕ
to_lower_rune c =
    if leb b'A' c && leb c b'Z'
    then c + 32
    else if c == 0x130
    then b'i'
    else if c == 0x212a
    then b'k'
    else c

unfoldable pub to_lower : Text → Text
unfolding to_lower_rune
to_lower [] = []
to_lower (c ∷ s) = to_lower_rune c ∷ to_lower s

-- The representative of a character's simple case folding, exact for ASCII: besides A to Z only
-- U+017F and U+212A fold to ASCII letters.
unfoldable pub fold_rune : ℕ → ℕ
fold_rune c =
    if leb b'A' c && leb c b'Z'
    then c + 32
    else if c == 0x17f
    then b's'
    else if c == 0x212a
    then b'k'
    else c

-- strings.EqualFold(s, t) for an ASCII text t
unfoldable pub equal_fold : Text → Text → Bool
unfolding fold_rune
equal_fold [] [] = true
equal_fold (a ∷ s) (b ∷ t) = fold_rune a == fold_rune b && equal_fold s t
equal_fold _ _ = false

-- The order of Go strings, which UTF-8 makes the order of the code points.
unfoldable pub text_lt : Text → Text → Bool
text_lt s [] = false
text_lt [] (b ∷ t) = true
text_lt (a ∷ s) (b ∷ t) = ltb a b || (a == b && text_lt s t)
