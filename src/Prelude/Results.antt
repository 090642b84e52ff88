-- ===== src/Prelude/Results.antt =====
-- Errors as values. A Go function that returns `(T, error)` returns a `Result T`; `do` blocks chain
-- the `if err != nil { return … }` ladders.
use Prim.Native.Nat.{ℕ}
use mathlib.Core.Path.{◌≡◌, refl}
use mathlib.Core.Logic.{◌⊎◌, inl, inr}
use mathlib.Core.Bool.{Bool, true, false}
use mathlib.Core.List.{List}

abbrev pub Text : Type 0
Text = List ℕ

-- What an error of the operating system says of itself: `os.ErrNotExist`, or another cause.
pub data OsError : Type 0 where
  not_exist : OsError
  failure : ℕ → OsError

-- The messages of the file and document tools
pub data ToolError : Type 0 where
  content_too_large read_limit file_exists destination_exists not_found : ToolError
  path_is_directory path_not_directory directory_deletion : ToolError
  empty_old_text old_text_missing old_text_ambiguous : ToolError
  deletion_disabled needs_confirm bad_pattern pattern_required : ToolError
  ops_not_array document_exists not_xlsx : ToolError
  office : ℕ → ToolError

-- One constructor for each message of the source, with the values that the message shows.
pub data Error : Type 0 where
  no_access needs_owner read_only invalid_workspace_id duplicate_workspace_id invalid_member :
      Text → Error
  invalid_tenant absolute_path path_escapes symlink_path symlink_escapes : Error
  storage_quota file_count_quota : Error
  document_too_large expands_too_far : Error
  bad_sheet_length bad_sheet_segment bad_sheet_character : Error
  bad_address column_too_large row_too_large row_zero : Error
  no_cells too_many_cells : Error
  cell_address : ℕ → Error → Error
  cell_duplicate cell_empty cell_value_prop : ℕ → Error
  bad_extension kind_mismatch : Error
  malformed_context invalid_context expired_context : Error
  authorization_failed : Error → Error
  context_required stdio_not_numeric : Error
  links_not_configured invalid_link link_expired : Error
  missing_secret missing_token : Error
  bad_duration : Text → Error
  tool : ToolError → Error
  os : OsError → Error

pub data Result {u} (T : Type u) : Type u where
  err : Error → Result T
  ok : T → Result T

-- `v, err := …; if err != nil { return err }`, and the same without a value
infixl 5 ◌>>◌ ◌>>=◌
abbrev pub ◌>>=◌ {u v} : {S : Type u} {T : Type v} → Result S → (S → Result T) → Result T
err cause >>= next = err cause
ok value >>= next = next value

abbrev pub ◌>>◌ {v} : {T : Type v} → Result (Unit {0}) → Result T → Result T
err cause >> next = err cause
ok done >> next = next

-- `if b { return e }`
abbrev pub reject_if : Bool → Error → Result (Unit {0})
reject_if true e = err e
reject_if false e = ok tt

-- A call returned a value, or it failed.
pub Result-cases {u} :
    {T : Type u} (call : Result T)
    → ((value : T) × (call ≡ ok value)) ⊎ ((cause : Error) × (call ≡ err cause))
Result-cases (err cause) = inr (cause, refl)
Result-cases (ok value) = inl (value, refl)
