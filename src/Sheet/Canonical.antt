-- ===== src/Sheet/Canonical.antt =====
-- `normalizeCellAddress` of internal/app/server.go keeps the addresses that it makes.
use mathlib.Core.List.{reverse, reverse-reverse, reverse-append}
use chat2work_mcp.Prelude.{
  ℕ, ◌+◌, ◌-◌, ◌*◌, ◌≤◌, ◌<◌, ◌≡◌, ◌≢◌, refl, ap, ◌∙◌, false, [], ◌∷◌, ◌++◌, arith, All, All-append,
  Text, same, same_iff, same_refl, is_space, trim_left, trim_space, ok,
}
use chat2work_mcp.Prelude.Decimal.{decimal, decimal-IsDigit, IsDigit, value, value-decimal}
use chat2work_mcp.Sheet.{
  span_letters, upper_letters, skip_dollar, read_column, read_row, with_row, normalize_cell_address,
  max_excel_column, max_excel_row,
}
use chat2work_mcp.Sheet.Address.{IsUpper, column_number, IsCell, normalize-IsCell}

abbrev NoSpace : ℕ → Type 0
NoSpace c = is_space c ≡ false

upper-NoSpace : (s : Text) → All IsUpper s → All NoSpace s
unfolding is_space
upper-NoSpace [] h = tt
upper-NoSpace (c ∷ s) (u, h) = (ground arith, upper-NoSpace s h)

digits-NoSpace : (s : Text) → All IsDigit s → All NoSpace s
unfolding is_space
digits-NoSpace [] h = tt
digits-NoSpace (c ∷ s) (u, h) = (ground arith, digits-NoSpace s h)

trim_left-NoSpace : (s : Text) → All NoSpace s → trim_left s ≡ s
unfolding trim_left
trim_left-NoSpace [] h = refl
trim_left-NoSpace (c ∷ s) (n, h) = ground arith

reverse-NoSpace : (s : Text) → All NoSpace s → All NoSpace (reverse s)
reverse-NoSpace [] h = tt
reverse-NoSpace (c ∷ s) (n, h) =
    rw (reverse-append (c ∷ []) s)
      (All-append NoSpace (reverse s) (c ∷ []) (reverse-NoSpace s h) (n, tt))

trim_space-NoSpace : (s : Text) → All NoSpace s → trim_space s ≡ s
unfolding trim_space
trim_space-NoSpace s h =
    rw (trim_left-NoSpace s h, trim_left-NoSpace (reverse s) (reverse-NoSpace s h))
      (reverse-reverse s)

span_letters-digits : (s : Text) → All IsDigit s → span_letters s ≡ ([], s)
unfolding span_letters
span_letters-digits [] h = refl
span_letters-digits (c ∷ s) (d, h) = ground arith

span_letters-upper :
    (column s : Text)
    → All IsUpper column
    → All IsDigit s
    → span_letters (column ++ s) ≡ (column, s)
unfolding span_letters
span_letters-upper [] s h d = span_letters-digits s d
span_letters-upper (c ∷ column) s (u, h) d = ground (arith, span_letters-upper column s h d)

upper_letters-upper : (column : Text) → All IsUpper column → upper_letters column ≡ column
unfolding upper_letters
upper_letters-upper [] h = refl
upper_letters-upper (c ∷ column) (u, h) = ground (arith, upper_letters-upper column h)

skip_dollar-upper :
    (column s : Text) → All IsUpper column → column ≢ [] → skip_dollar (column ++ s) ≡ column ++ s
unfolding skip_dollar
skip_dollar-upper [] s h ne = absurd (ne refl)
skip_dollar-upper (c ∷ column) s (u, h) ne = ground arith

skip_dollar-digits : (s : Text) → All IsDigit s → skip_dollar s ≡ s
unfolding skip_dollar
skip_dollar-digits [] h = refl
skip_dollar-digits (c ∷ s) (d, h) = ground arith

le-column_number : (n : ℕ) (s : Text) → n ≤ column_number n s
unfolding column_number
le-column_number n [] = omega arith
le-column_number n (c ∷ s) = omega (arith, le-column_number (n * 26 + (c - b'A' + 1)) s)

read_column_complete :
    (n : ℕ) (s : Text)
    → column_number n s ≤ max_excel_column
    → read_column n s ≡ ok (column_number n s)
unfolding read_column column_number
read_column_complete n [] h = refl
read_column_complete n (c ∷ s) h =
    let m = n * 26 + (c - b'A' + 1) in
    ground (arith, read_column_complete m s h, le-column_number m s)

le-value : (n : ℕ) (s : Text) → n ≤ value n s
unfolding value
le-value n [] = omega arith
le-value n (c ∷ s) = omega (arith, le-value (n * 10 + (c - b'0')) s)

read_row_complete :
    (n : ℕ) (s : Text) → All IsDigit s → value n s ≤ max_excel_row → read_row n s ≡ ok (value n s)
unfolding read_row value
read_row_complete n [] d h = refl
read_row_complete n (c ∷ s) (d, ds) h =
    let m = n * 10 + (c - b'0') in ground (arith, read_row_complete m s ds h, le-value m s)

value-nil : value 0 [] ≡ 0
unfolding value
value-nil = refl

decimal-ne-nil : (n : ℕ) → 0 < n → decimal n ≢ []
decimal-ne-nil n p e = omega (arith, value-decimal n, ap (value 0) e, value-nil)

with_row-cell :
    (column : Text) (row : ℕ)
    → column_number 0 column ≤ max_excel_column
    → 0 < row
    → row ≤ max_excel_row
    → with_row column (decimal row) ≡ ok (column ++ decimal row)
unfolding with_row
with_row-cell column row column_le row_pos row_le =
    let digits = decimal-IsDigit row in
    let row_read : read_row 0 (decimal row) ≡ ok row =
      read_row_complete 0 (decimal row) digits (omega (arith, value-decimal row))
      ∙ ap ok (value-decimal row) in
    let not_empty : same (decimal row) [] ≡ false =
      ground (arith, same_iff (decimal row) [], decimal-ne-nil row row_pos) in
    rw
      (
        skip_dollar-digits (decimal row) digits,
        not_empty,
        read_column_complete 0 column column_le,
        row_read,
      )
      (ground arith)

append-ne-nil : (s t : Text) → s ≢ [] → s ++ t ≢ []
append-ne-nil [] t h e = h refl
append-ne-nil (c ∷ s) t h e = cc

differs : (s : Text) → s ≢ [] → same s [] ≡ false
differs s h = ground (arith, same_iff s [])

-- A cell's address is returned as it is.
pub normalize-cell : (address : Text) → IsCell address → normalize_cell_address address ≡ ok address
unfolding normalize_cell_address
normalize-cell address cell =
    let column = cell.column in
    let digits = decimal-IsDigit cell.row in
    let text = column ++ decimal cell.row in
    let clean : All NoSpace text =
      All-append NoSpace column (decimal cell.row) (upper-NoSpace column cell.upper)
        (digits-NoSpace (decimal cell.row) digits) in
    rw cell.spelled (
      rw (
        trim_space-NoSpace text clean,
        skip_dollar-upper column (decimal cell.row) cell.upper cell.some_letters,
        span_letters-upper column (decimal cell.row) cell.upper digits,
        upper_letters-upper column cell.upper,
        with_row-cell column cell.row cell.column_le cell.row_pos cell.row_le,
        differs text (append-ne-nil column (decimal cell.row) cell.some_letters),
        differs column cell.some_letters,
        same_refl text,
      ))

-- Normalizing twice is normalizing once.
pub normalize_idem :
    (address r : Text) → normalize_cell_address address ≡ ok r → normalize_cell_address r ≡ ok r
normalize_idem address r h = normalize-cell r (normalize-IsCell address r h)
