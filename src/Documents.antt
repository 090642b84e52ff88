-- ===== src/Documents.antt =====
-- The handlers of the document tools in internal/app/server.go, on a disk, and what they use of
-- internal/app/office.go. Each runs under the workspace's lock from the first change on.
pub mod Copying
pub mod Running
pub mod Handling
pub mod Creating
pub mod Tests
use chat2work_mcp.Prelude.{
  ℕ, ◌-◌, Bool, true, false, not, ◌&&◌, ◌||◌, Option, List, [], ◌∷◌, ◌++◌, ltb, leb, length, take,
  map, if◌then◌else◌, Text, codes, same, has_prefix, equal_fold, split, trim_space, Result, ok, err,
  reject_if, tool, ops_not_array, document_exists, not_xlsx,
}
use chat2work_mcp.Prelude.Decimal.{decimal}
use chat2work_mcp.Paths.{AbsPath, FileInfo, join}
use chat2work_mcp.Quota.{Files, no_caps, check_write_allowed, check_office_output_allowed}
use chat2work_mcp.Office.{check_office_input, validate_document_path, ext}
use chat2work_mcp.Sheet.{SheetSetCell, Command, sheet_set_cell_commands}
use chat2work_mcp.Disk.{
  Os, Bytes, Call, Action, pure, lift, asks, call, defer, on_error, ◌>>=◌, ◌>>◌,
}
use chat2work_mcp.Files.{root_of, resolved}
use chat2work_mcp.Server.{App, CallToolRequest}
use chat2work_mcp.Tools.{granted, clean_path}
use chat2work_mcp.Prelude.Int.{ℤ}

-- OfficeCLI, run in a directory with arguments; package archive/zip: the sizes that an archive
-- declares; and package encoding/json: json.Valid, and json.Marshal of the commands.
pub record Engine (D : Type 0) : Type 0 where
  pub execute : AbsPath → List Bytes → Call D Text
  pub archive : D → AbsPath → Option (List ℕ)
  pub valid_json : Bytes → Bool
  pub marshal : List Command → Result Bytes

pub record DocCreateInput : Type 0 where
  pub workspace : Text
  pub path : Text
  pub kind : Text
  pub overwrite : Bool
  pub ops : Bytes

pub record DocEditInput : Type 0 where
  pub workspace : Text
  pub path : Text
  pub ops : Bytes

pub record DocQueryInput : Type 0 where
  pub workspace : Text
  pub path : Text
  pub selector : Text

pub record SheetSetCellsInput : Type 0 where
  pub workspace : Text
  pub path : Text
  pub sheet : Text
  pub cells : List SheetSetCell

pub data DocReply : Type 0 where
  created edited : Text → DocReply
  cells_set : Text → Text → ℕ → DocReply
  output : Text → DocReply

-- `tempDocumentPath`; `nanos` is the clock. The extension is the end of the path.
unfoldable pub temp_document_path : ℕ → Text → Text
temp_document_path nanos path =
    take (length path - length (ext path)) path ++ codes ".chat2work-" ++ decimal nanos ++ ext path

-- `tempAbs`
unfoldable pub temp_abs : AbsPath → ℕ → Text → AbsPath
unfolding temp_document_path clean_path
temp_abs root nanos path = join root (split b'/' (temp_document_path nanos (clean_path path)))

unfoldable pub is_json_array : (Bytes → Bool) → Bytes → Bool
is_json_array valid_json raw =
    valid_json raw && (ltb 0 (length raw) && has_prefix (codes "[") (trim_space raw))

abbrev pub has_ops : Bytes → Bool
has_ops ops = ltb 0 (length ops) && not (same ops (codes "null"))

abbrev pub exists : Result FileInfo → Bool
exists (ok _) = true
exists (err _) = false

-- the arguments of a batch
abbrev pub batch_args : Text → Bytes → List Bytes
batch_args rel_path commands = codes "batch" ∷ rel_path ∷ codes "--commands" ∷ commands ∷ []

module _ {D : Type 0} (os : Os D) where
  -- io.Copy from the open source
  unfoldable pub copied : AbsPath → AbsPath → Action D (Unit {0})
  copied src dst = do bytes ← asks (λ d. os.read_file d src); call (os.write dst bytes)

  unfoldable pub copy_file : AbsPath → AbsPath → Action D (Unit {0})
  unfolding copied
  copy_file src dst = do
    asks (λ d. os.open_file d src)
    call (os.create dst)
    on_error (os.close dst) (copied src dst)
    call (os.close dst)

module _ {D : Type 0} (os : Os D) (fuel : ℕ) (f : Files) (engine : Engine D) (app : App) where
  unfoldable pub office_run : Text → List Bytes → Action D Text
  unfolding root_of
  office_run workspace args = do root ← root_of os fuel f workspace; call (engine.execute root args)

  -- `checkOfficeInput` with the limits of the configuration
  unfoldable pub check_input : AbsPath → D → Result (Unit {0})
  check_input path d =
      check_office_input ((os.view d).stat path) (engine.archive d path) app.config.max_file_bytes
        app.config.max_uncompressed_bytes

  unfoldable pub write_allowed : Text → Bool → Action D (Unit {0})
  write_allowed tenant is_new = if no_caps f then pure tt else do
    root ← root_of os fuel f tenant
    asks (λ d. check_write_allowed f (map (λ e. e.visit) (os.walk d root)) is_new)

  -- `CheckOfficeOutputAllowed`
  unfoldable pub output_allowed : Text → AbsPath → AbsPath → Bool → Action D (Unit {0})
  output_allowed tenant final temp is_new = if no_caps f then pure tt else do
    root ← root_of os fuel f tenant
    asks (λ d.
        check_office_output_allowed f (os.view d).stat (map (λ e. e.visit) (os.walk d root)) final
          temp is_new)

  -- the end of the three handlers: both checks, and the rename over the document
  unfoldable pub publish : Text → AbsPath → AbsPath → Bool → Action D (Unit {0})
  unfolding check_input output_allowed
  publish tenant final temp is_new = do
    asks (check_input temp)
    output_allowed tenant final temp is_new
    call (os.rename temp final)

  -- `docEdit` and `sheetSetCells` from the copy on
  unfoldable pub edit_copy : Text → AbsPath → AbsPath → Text → Bytes → Action D (Unit {0})
  unfolding office_run publish copy_file
  edit_copy tenant final temp temp_rel commands = do
    copy_file os final temp
    office_run tenant (batch_args temp_rel commands)
    publish tenant final temp false

  module _ (now : ℤ) (req : CallToolRequest) (nanos : ℕ) where
    -- what `docEdit` and `sheetSetCells` have in common
    unfoldable pub edit_document : Text → Text → Bytes → Action D (Unit {0})
    unfolding edit_copy root_of resolved check_input temp_abs
    edit_document tenant path commands = do
      root ← root_of os fuel f tenant
      final ← resolved os fuel f root path false
      asks (check_input final)
      defer (os.remove (temp_abs root nanos path)) (
          edit_copy tenant final (temp_abs root nanos path)
            (temp_document_path nanos (clean_path path)) commands)

    unfoldable pub doc_edit : DocEditInput → Action D DocReply
    unfolding edit_document granted
    doc_edit in_ = do
      g ← granted os fuel f app now req in_.workspace true false
      lift (reject_if (not (is_json_array engine.valid_json in_.ops)) (tool ops_not_array))
      edit_document g.id in_.path in_.ops
      pure (edited (clean_path in_.path))

    unfoldable pub sheet_set_cells : SheetSetCellsInput → Action D DocReply
    unfolding edit_document granted
    sheet_set_cells in_ = do
      g ← granted os fuel f app now req in_.workspace true false
      lift (reject_if (not (equal_fold (ext in_.path) (codes ".xlsx"))) (tool not_xlsx))
      commands ← lift (sheet_set_cell_commands in_.sheet in_.cells)
      encoded ← lift (engine.marshal commands)
      edit_document g.id in_.path encoded
      pure (cells_set (clean_path in_.path) in_.sheet (length in_.cells))

    -- `docCreate` under the lock
    unfoldable pub create_copy :
        Text → AbsPath → AbsPath → Text → Bytes → Bool → Action D (Unit {0})
    unfolding office_run publish
    create_copy tenant final temp temp_rel ops is_new = do
      office_run tenant (codes "create" ∷ temp_rel ∷ [])
      if has_ops ops then office_run tenant (batch_args temp_rel ops) else pure []
      publish tenant final temp is_new

    unfoldable pub doc_create : DocCreateInput → Action D DocReply
    unfolding create_copy granted root_of resolved write_allowed temp_abs
    doc_create in_ = do
      g ← granted os fuel f app now req in_.workspace true false
      lift (validate_document_path in_.path in_.kind)
      lift (
          reject_if (has_ops in_.ops && not (is_json_array engine.valid_json in_.ops))
            (tool ops_not_array))
      root ← root_of os fuel f g.id
      final ← resolved os fuel f root in_.path true
      there ← asks (λ d. ok (exists ((os.view d).stat final)))
      lift (reject_if (not in_.overwrite && there) (tool document_exists))
      write_allowed g.id (not there)
      defer (os.remove (temp_abs root nanos in_.path)) (
          create_copy g.id final (temp_abs root nanos in_.path)
            (temp_document_path nanos (clean_path in_.path)) in_.ops (not there))
      pure (created (clean_path in_.path))

    unfoldable pub doc_query : DocQueryInput → Action D DocReply
    unfolding granted root_of resolved check_input office_run
    doc_query in_ = do
      g ← granted os fuel f app now req in_.workspace false false
      root ← root_of os fuel f g.id
      final ← resolved os fuel f root in_.path false
      asks (check_input final)
      found ←
          office_run g.id (codes "query" ∷ clean_path in_.path ∷ in_.selector ∷ codes "--json" ∷ [])
      pure (output found)
