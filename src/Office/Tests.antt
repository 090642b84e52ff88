-- ===== src/Office/Tests.antt =====
-- Documents within and past the limits.
use chat2work_mcp.Prelude.{
  ◌+◌, ◌-◌, ◌^◌, ◌≡◌, refl, false, some, none, [], ◌∷◌, arith, ltb, if◌then◌else◌, ok, err, codes,
  same, has_prefix, trim_prefix, trim_space, to_lower, document_too_large, expands_too_far,
  bad_extension, kind_mismatch,
}
use chat2work_mcp.Prelude.Int.{pos}
use chat2work_mcp.Paths.{FileInfo}
use chat2work_mcp.Office.{check_entries, check_office_input, ext, validate_document_path}
use chat2work_mcp.Office.Expansion.{expanded, check_entries-exact, check_entries-wraps}

abbrev document : FileInfo
document = record { size = 10; is_dir = false; is_symlink = false }

check_office_input_tests :
    (check_office_input (ok document) (some (20 ∷ 30 ∷ [])) (pos 10) (pos 50) ≡ ok tt)
    × (check_office_input (ok document) (some (20 ∷ 31 ∷ [])) (pos 10) (pos 50)
        ≡ err expands_too_far)
    × (check_office_input (ok document) none (pos 9) (pos 50) ≡ err document_too_large)
unfolding check_office_input
check_office_input_tests = (refl, refl, refl)

validate_document_path_tests :
    (validate_document_path (codes "a.b/C.DOCX") (codes " docx ") ≡ ok tt)
    × (validate_document_path (codes "a.docx/C") [] ≡ err bad_extension)
    × (validate_document_path (codes "a.docx") (codes "xlsx") ≡ err kind_mismatch)
unfolding validate_document_path ext same has_prefix trim_prefix trim_space to_lower
validate_document_path_tests = (refl, refl, refl)

expanded_fifty : expanded (20 ∷ 30 ∷ []) ≡ 50
unfolding expanded
expanded_fifty = refl

check_entries-exact_example :
    check_entries (pos 50) 0 (20 ∷ 30 ∷ [])
    ≡ (if ltb 50 (expanded (20 ∷ 30 ∷ [])) then err expands_too_far else ok tt)
check_entries-exact_example =
    check_entries-exact 50 (20 ∷ 30 ∷ []) (omega arith) (omega (arith, expanded_fifty))

check_entries-wraps_example :
    check_entries (pos 50) 0 (1 ∷ 18446744073709551615 ∷ 7 ∷ [])
    ≡ check_entries (pos 50) (1 + 18446744073709551615 - 2 ^ 64) (7 ∷ [])
check_entries-wraps_example =
    check_entries-wraps 50 1 18446744073709551615 (7 ∷ []) (omega arith) (omega arith) (omega arith)
      (omega arith)
