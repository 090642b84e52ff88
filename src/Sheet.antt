-- ===== src/Sheet.antt =====
-- The cell batches of sheet_set_cells in internal/app/server.go.
pub mod Address
pub mod Canonical
pub mod Batch
pub mod Tests
use chat2work_mcp.Prelude.{
  ℕ, zero, suc, ◌+◌, ◌-◌, ◌*◌, Bool, true, false, ◌&&◌, ◌||◌, not, Option, none, some, List, [],
  ◌∷◌, ◌++◌, ltb, leb, ◌==◌, if◌then◌else◌, length, Text, codes, same, contains_rune, trim_space,
  equal_fold, Result, ok, err, Error, ◌>>=◌, ◌>>◌, reject_if, bad_sheet_length, bad_sheet_segment,
  bad_sheet_character, bad_address, column_too_large, row_too_large, row_zero, no_cells,
  too_many_cells, cell_address, cell_duplicate, cell_empty, cell_value_prop,
}
use chat2work_mcp.Prelude.Decimal.{decimal}
use chat2work_mcp.Prelude.Map.{text_key, lookup, insert}

abbrev pub max_sheet_set_cells : ℕ
max_sheet_set_cells = 1000

abbrev pub max_excel_column : ℕ
max_excel_column = 16384

abbrev pub max_excel_row : ℕ
max_excel_row = 1048576

-- `Value` is a pointer: `none` is nil.
pub record SheetSetCell : Type 0 where
  pub address : Text
  pub value : Option Text
  pub props : List (Text × Text)

abbrev pub is_letter : ℕ → Bool
is_letter b = leb b'A' b && leb b b'Z' || leb b'a' b && leb b b'z'

-- the loop that stops at the first byte that is no letter: the letters, and the rest
unfoldable pub span_letters : Text → Text × Text
span_letters [] = ([], [])
span_letters (b ∷ s) =
    let (letters, rest) = span_letters s in if is_letter b then (b ∷ letters, rest) else ([], b ∷ s)

-- strings.ToUpper on letters
unfoldable pub upper_letters : Text → Text
upper_letters [] = []
upper_letters (b ∷ s) = (if leb b'a' b then b - 32 else b) ∷ upper_letters s

-- an optional "$"
unfoldable pub skip_dollar : Text → Text
skip_dollar [] = []
skip_dollar (b ∷ s) = if b == b'$' then s else b ∷ s

unfoldable pub read_column : ℕ → Text → Result ℕ
read_column number [] = ok number
read_column number (b ∷ s) =
    let number' = number * 26 + (b - b'A' + 1) in
    let rest = read_column number' s in
    if ltb max_excel_column number' then err column_too_large else rest

unfoldable pub read_row : ℕ → Text → Result ℕ
read_row row [] = ok row
read_row row (r ∷ s) =
    let row' = row * 10 + (r - b'0') in
    let rest = read_row row' s in
    if ltb r b'0' || ltb b'9' r
    then err bad_address
    else if ltb max_excel_row row'
    then err row_too_large
    else rest

-- the part of `normalizeCellAddress` behind the column's letters
unfoldable pub with_row : Text → Text → Result Text
with_row column rest =
    let digits = skip_dollar rest in
    if same digits [] then err bad_address else do
      number ← read_column 0 column
      row ← read_row 0 digits
      if row == 0 then err row_zero else ok (column ++ decimal row)

unfoldable pub normalize_cell_address : Text → Result Text
normalize_cell_address address =
    let (letters, rest) = span_letters (skip_dollar address) in
    if same address [] || not (same (trim_space address) address)
    then err bad_address
    else if same letters []
    then err bad_address
    else with_row (upper_letters letters) rest

-- unicode.IsControl
abbrev is_control : ℕ → Bool
is_control r = ltb r 0x20 || leb 0x7f r && leb r 0x9f

valid_sheet_runes : Text → Bool
valid_sheet_runes [] = true
valid_sheet_runes (r ∷ s) =
    not (contains_rune (codes "/\\:*?[]") r || is_control r) && valid_sheet_runes s

unfoldable pub validate_sheet_name : Text → Result (Unit {0})
unfolding valid_sheet_runes
validate_sheet_name sheet =
    if same sheet [] || ltb 255 (length sheet)
    then err bad_sheet_length
    else if same sheet (codes ".") || same sheet (codes "..")
    then err bad_sheet_segment
    else if valid_sheet_runes sheet
    then ok tt
    else err bad_sheet_character

-- a command: `"command": "set"`, the path and the properties
pub record Command : Type 0 where
  pub path : Text
  pub props : List (Text × Text)

unfoldable pub has_value_key : List (Text × Text) → Bool
has_value_key [] = false
has_value_key ((key, value) ∷ props) = equal_fold key (codes "value") || has_value_key props

abbrev pub is_empty {ℓ} : {A : Type ℓ} → List A → Bool
is_empty [] = true
is_empty (x ∷ xs) = false

abbrev pub is_nil {ℓ} : {A : Type ℓ} → Option A → Bool
is_nil none = true
is_nil (some a) = false

abbrev pub with_value : Option Text → List (Text × Text) → List (Text × Text)
with_value none props = props
with_value (some value) props = insert (codes "value") value props

abbrev pub contains : Text → List Text → Bool
contains a [] = false
contains a (b ∷ bs) = same b a || contains a bs

abbrev pub address_error : ℕ → Result Text → Result Text
address_error i (ok address) = ok address
address_error i (err e) = err (cell_address i e)

-- one round of the loop: the normalized address and the command
unfoldable pub cell_command : Text → ℕ → List Text → SheetSetCell → Result (Text × Command)
cell_command sheet i seen cell = do
  address ← address_error i (normalize_cell_address cell.address)
  reject_if (contains address seen) (cell_duplicate i)
  reject_if (is_nil cell.value && is_empty cell.props) (cell_empty i)
  reject_if (has_value_key cell.props) (cell_value_prop i)
  ok (
    address,
    record {
      path = codes "/" ++ (sheet ++ (codes "/" ++ address));
      props = with_value cell.value cell.props;
    },
  )

-- the loop from cell `i` on, with the addresses that it has seen
unfoldable pub cell_commands : Text → ℕ → List Text → List SheetSetCell → Result (List Command)
cell_commands sheet i seen [] = ok []
cell_commands sheet i seen (cell ∷ cells) = elim (cell_command sheet i seen cell) [
  | err e ↦ err e
  | ok (address, command) ↦ elim (cell_commands sheet (i + 1) (address ∷ seen) cells) [
    | err e ↦ err e
    | ok commands ↦ ok (command ∷ commands)
  ]
]

unfoldable pub sheet_set_cell_commands : Text → List SheetSetCell → Result (List Command)
sheet_set_cell_commands sheet cells = do
  validate_sheet_name sheet
  reject_if (is_empty cells) no_cells
  reject_if (ltb max_sheet_set_cells (length cells)) too_many_cells
  cell_commands sheet 0 [] cells
