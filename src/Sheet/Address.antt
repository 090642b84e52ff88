-- ===== src/Sheet/Address.antt =====
-- What `normalizeCellAddress` of internal/app/server.go returns.
use chat2work_mcp.Prelude.{
  ℕ, ◌+◌, ◌-◌, ◌*◌, ◌≤◌, ◌<◌, ◌≡◌, ◌≢◌, inl, inr, [], ◌∷◌, ◌++◌, arith, All, Text, same_iff, ok,
  Result-cases,
}
use chat2work_mcp.Prelude.Decimal.{decimal, IsDigit, value}
use chat2work_mcp.Sheet.{
  span_letters, upper_letters, skip_dollar, read_column, read_row, with_row, normalize_cell_address,
  max_excel_column, max_excel_row,
}

abbrev pub IsUpper : ℕ → Type 0
IsUpper c = (b'A' ≤ c) × (c ≤ b'Z')

-- The number of a column: A is 1, Z is 26, AA is 27.
unfoldable pub column_number : ℕ → Text → ℕ
column_number n [] = n
column_number n (c ∷ s) = column_number (n * 26 + (c - b'A' + 1)) s

span_letters-IsUpper : (s : Text) → All IsUpper (upper_letters (span_letters s).0)
unfolding span_letters upper_letters
span_letters-IsUpper [] = tt
span_letters-IsUpper (b ∷ s) = ground (arith, span_letters-IsUpper s)

read_column-ok :
    (n k : ℕ) (s : Text)
    → n ≤ max_excel_column
    → read_column n s ≡ ok k
    → (k ≡ column_number n s) × (k ≤ max_excel_column)
unfolding read_column column_number
read_column-ok n k [] le h = ground arith
read_column-ok n k (b ∷ s) le h = ground (arith, read_column-ok (n * 26 + (b - b'A' + 1)) k s)

read_row-ok :
    (n k : ℕ) (s : Text)
    → n ≤ max_excel_row
    → read_row n s ≡ ok k
    → (k ≡ value n s) × (k ≤ max_excel_row) × All IsDigit s
unfolding read_row value
read_row-ok n k [] le h = ground arith
read_row-ok n k (b ∷ s) le h = ground (arith, read_row-ok (n * 10 + (b - b'0')) k s)

-- A cell's address in the form that Excel shows: capital letters that spell a column from A to XFD,
-- then a row from 1 to 1048576 in decimal.
pub record IsCell (address : Text) : Type 0 where
  pub column : Text
  pub row : ℕ
  pub spelled : address ≡ column ++ decimal row
  pub upper : All IsUpper column
  pub some_letters : column ≢ []
  pub column_le : column_number 0 column ≤ max_excel_column
  pub row_pos : 0 < row
  pub row_le : row ≤ max_excel_row

with_row-IsCell :
    (column rest r : Text)
    → All IsUpper column
    → column ≢ []
    → with_row column rest ≡ ok r
    → IsCell r
unfolding with_row
with_row-IsCell column rest r up some_letters h = elim (Result-cases (read_column 0 column)) [
  | inr (e, bad) ↦ absurd (ground (arith, bad))
  | inl (n, good) ↦ elim (Result-cases (read_row 0 (skip_dollar rest))) [
    | inr (e, bad) ↦ absurd (ground (arith, good, bad))
    | inl (m, fine) ↦
        let (n_eq, n_le) = read_column-ok 0 n column (omega arith) good in
        let (m_eq, m_le, _) = read_row-ok 0 m (skip_dollar rest) (omega arith) fine in
        record {
          column = column;
          row = m;
          spelled = ground (arith, good, fine);
          upper = up;
          some_letters = some_letters;
          column_le = omega arith;
          row_pos = ground (arith, good, fine);
          row_le = m_le;
        }
  ]
]

upper_letters-ne-nil : (s : Text) → s ≢ [] → upper_letters s ≢ []
unfolding upper_letters
upper_letters-ne-nil [] h e = h e
upper_letters-ne-nil (b ∷ s) h e = cc

-- Whatever `normalizeCellAddress` accepts it returns as a cell's address in the form that Excel shows:
-- capital letters for a column from A to XFD, then a row from 1 to 1048576 in decimal.
pub normalize-IsCell : (address r : Text) → normalize_cell_address address ≡ ok r → IsCell r
unfolding normalize_cell_address
normalize-IsCell address r h =
    let parts = span_letters (skip_dollar address) in
    with_row-IsCell (upper_letters parts.0) parts.1 r (span_letters-IsUpper (skip_dollar address))
      (upper_letters-ne-nil parts.0 (λ e. ground (arith, same_iff parts.0 []))) (ground arith)
