-- ===== src/Sheet/Tests.antt =====
-- Addresses and a batch of two cells.
use chat2work_mcp.Prelude.{
  ◌≤◌, ◌<◌, ◌≡◌, refl, some, [], ◌∷◌, Text, codes, same, contains_rune, trim_space, ok, err,
  bad_address, column_too_large, row_too_large, row_zero, cell_duplicate,
}
use chat2work_mcp.Prelude.Decimal.{decimal}
use chat2work_mcp.Prelude.Map.{insert}
use chat2work_mcp.Sheet.{
  SheetSetCell, Command, span_letters, upper_letters, skip_dollar, read_column, read_row, with_row,
  normalize_cell_address, validate_sheet_name, has_value_key, cell_command, cell_commands,
  sheet_set_cell_commands, max_sheet_set_cells,
}
use chat2work_mcp.Sheet.Address.{IsCell, normalize-IsCell}
use chat2work_mcp.Sheet.Batch.{SetsAll, Distinct, sheet_set_cell_commands-Sets}

abbrev plain : Text → SheetSetCell
plain address = record { address = address; value = some (codes "1"); props = [] }

abbrev set_one : Text → Command
set_one path = record { path = path; props = (codes "value", codes "1") ∷ [] }

normalize_tests :
    (normalize_cell_address (codes "$b$12") ≡ ok (codes "B12"))
    × (normalize_cell_address (codes "XFD1048576") ≡ ok (codes "XFD1048576"))
    × (normalize_cell_address (codes "XFE1") ≡ err column_too_large)
    × (normalize_cell_address (codes "A1048577") ≡ err row_too_large)
    × (normalize_cell_address (codes "A0") ≡ err row_zero)
    × (normalize_cell_address (codes "A1:B2") ≡ err bad_address)
    × (normalize_cell_address (codes " A1") ≡ err bad_address)
unfolding normalize_cell_address with_row span_letters upper_letters skip_dollar read_column
    read_row trim_space same decimal
normalize_tests = (refl, refl, refl, refl, refl, refl, refl)

normalize-IsCell_example : IsCell (codes "B12")
normalize-IsCell_example = normalize-IsCell (codes "$b$12") (codes "B12") normalize_tests.0

batch_ok :
    sheet_set_cell_commands (codes "S") (plain (codes "a1") ∷ plain (codes "$B2") ∷ [])
    ≡ ok (set_one (codes "/S/A1") ∷ set_one (codes "/S/B2") ∷ [])
unfolding sheet_set_cell_commands cell_commands cell_command validate_sheet_name has_value_key
    contains_rune insert normalize_cell_address with_row span_letters upper_letters skip_dollar
    read_column read_row trim_space same decimal
batch_ok = refl

batch_duplicate :
    sheet_set_cell_commands (codes "S") (plain (codes "a1") ∷ plain (codes "$A$1") ∷ [])
    ≡ err (cell_duplicate 1)
unfolding sheet_set_cell_commands cell_commands cell_command validate_sheet_name has_value_key
    contains_rune insert normalize_cell_address with_row span_letters upper_letters skip_dollar
    read_column read_row trim_space same decimal
batch_duplicate = refl

sheet_set_cell_commands-Sets_example :
    (0 < 2)
    × (2 ≤ max_sheet_set_cells)
    × SetsAll
        (codes "S")
        (plain (codes "a1") ∷ plain (codes "$B2") ∷ [])
        (set_one (codes "/S/A1") ∷ set_one (codes "/S/B2") ∷ [])
    × Distinct (set_one (codes "/S/A1") ∷ set_one (codes "/S/B2") ∷ [])
sheet_set_cell_commands-Sets_example =
    sheet_set_cell_commands-Sets (codes "S") (plain (codes "a1") ∷ plain (codes "$B2") ∷ [])
      (set_one (codes "/S/A1") ∷ set_one (codes "/S/B2") ∷ []) batch_ok
