-- ===== src/Office.antt =====
-- `checkOfficeInput` of internal/app/office.go and the checks of a document's path in
-- internal/app/server.go. The archive is what zip.OpenReader makes of the file: the sizes that its
-- entries declare, or `none` where the file is no ZIP archive.
pub mod Expansion
pub mod Tests
use mathlib.Core.List.{reverse}
use chat2work_mcp.Prelude.{
  ℕ, ◌+◌, ◌%◌, ◌^◌, Bool, true, false, not, ◌&&◌, ◌||◌, Option, none, some, List, [], ◌∷◌, ltb,
  ◌==◌, if◌then◌else◌, Text, codes, same, trim_prefix, trim_space, to_lower, Result, ok, err,
  document_too_large, expands_too_far, bad_extension, kind_mismatch, ◌>>=◌,
}
use chat2work_mcp.Prelude.Int.{ℤ, pos, pos_part, ltb_ℤ, is_pos}
use chat2work_mcp.Paths.{FileInfo}

-- The loop over the entries. `total` is a uint64, and `max` is positive where it is compared.
unfoldable pub check_entries : ℤ → ℕ → List ℕ → Result (Unit {0})
check_entries max total [] = ok tt
check_entries max total (size ∷ rest) =
    let total' = (total + size) % 2 ^ 64 in
    let more = check_entries max total' rest in
    if is_pos max && ltb (pos_part max) total' then err expands_too_far else more

unfoldable pub check_office_input : Result FileInfo → Option (List ℕ) → ℤ → ℤ → Result (Unit {0})
unfolding check_entries
check_office_input stat archive max_bytes max_uncompressed = stat >>= λ info.
    if is_pos max_bytes && ltb_ℤ max_bytes (pos info.size)
    then err document_too_large
    else if info.size == 0
    then ok tt
    else elim archive [ none ↦ ok tt | some sizes ↦ check_entries max_uncompressed 0 sizes ]

-- filepath.Ext: from the last "." behind the last "/"; `back` is the path from its end
unfoldable pub ext_from : Text → Text → Text
ext_from [] found = []
ext_from (c ∷ back) found =
    if c == b'/' then [] else if c == b'.' then c ∷ found else ext_from back (c ∷ found)

unfoldable pub ext : Text → Text
unfolding ext_from
ext path = ext_from (reverse path) []

unfoldable pub validate_document_path : Text → Text → Result (Unit {0})
validate_document_path path kind =
    let extension = trim_prefix (codes ".") (to_lower (ext path)) in
    let kind' = to_lower (trim_space kind) in
    if not (same extension (codes "docx"))
      && (not (same extension (codes "xlsx")) && not (same extension (codes "pptx")))
    then err bad_extension
    else if not (same kind' []) && not (same kind' extension)
    then err kind_mismatch
    else ok tt
