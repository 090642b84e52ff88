-- ===== src/Audit.antt =====
-- internal/app/audit.go: what the log records of a call, and which calls are answered from the cache.
-- A text is its bytes.
pub mod Log
pub mod Event
pub mod Once
pub mod Rotation
pub mod Size
pub mod Tests
use chat2work_mcp.Prelude.{
  ℕ, zero, suc, ◌+◌, ◌-◌, Bool, true, false, not, ◌&&◌, ◌||◌, Option, none, some, List, [], ◌∷◌,
  ◌++◌, ltb, if◌then◌else◌, Text, codes, same, length, take, Result, ok, err,
}
use chat2work_mcp.Prelude.Int.{ℤ, pos, is_pos, pos_part, ltb_ℤ}
use chat2work_mcp.Prelude.Decimal.{decimal}
use chat2work_mcp.Auth.{Identity}
use chat2work_mcp.Idempotency.{string_key}
use chat2work_mcp.Server.{App, CallToolRequest, app_identity}
use chat2work_mcp.Tools.{
  ListInput, ReadInput, WriteInput, EditInput, MoveInput, DeleteInput, SearchInput, LinkInput,
}
use chat2work_mcp.Documents.{DocCreateInput, DocEditInput, DocQueryInput, SheetSetCellsInput}

-- the field `Time` is set by `Record`, and is not part of the model
pub record AuditEvent : Type 0 where
  pub request_id : Text
  pub user_id : ℕ
  pub workspace : Text
  pub tool_name : Text
  pub path : Text
  pub outcome : Text
  pub error : Text
  pub duration_ms : ℕ
  pub result_bytes : ℕ
  pub deduplicated : Bool

-- mcp.Content and mcp.CallToolResult
pub data Content : Type 0 where
  text_content : Text → Content
  other_content : Content

pub record CallToolResult : Type 0 where
  pub is_error : Bool
  pub contents : List Content

-- the inputs of the tools, that of workspace_list last
pub data ToolInput : Type 0 where
  for_list : ListInput → ToolInput
  for_read : ReadInput → ToolInput
  for_write : WriteInput → ToolInput
  for_edit : EditInput → ToolInput
  for_move : MoveInput → ToolInput
  for_delete : DeleteInput → ToolInput
  for_search : SearchInput → ToolInput
  for_link : LinkInput → ToolInput
  for_create : DocCreateInput → ToolInput
  for_document : DocEditInput → ToolInput
  for_query : DocQueryInput → ToolInput
  for_cells : SheetSetCellsInput → ToolInput
  for_workspaces : ToolInput

-- `auditTarget`, where the input has it, and two empty texts where it has not
unfoldable pub audit_target : ToolInput → Text × Text
audit_target (for_list i) = (i.workspace, i.path)
audit_target (for_read i) = (i.workspace, i.path)
audit_target (for_write i) = (i.workspace, i.path)
audit_target (for_edit i) = (i.workspace, i.path)
audit_target (for_move i) = (i.workspace, i.source)
audit_target (for_delete i) = (i.workspace, i.path)
audit_target (for_search i) = (i.workspace, i.path)
audit_target (for_link i) = (i.workspace, i.path)
audit_target (for_create i) = (i.workspace, i.path)
audit_target (for_document i) = (i.workspace, i.path)
audit_target (for_query i) = (i.workspace, i.path)
audit_target (for_cells i) = (i.workspace, i.path)
audit_target for_workspaces = ([], [])

unfoldable pub result_size : List Content → ℕ
result_size [] = 0
result_size (text_content text ∷ rest) = length text + result_size rest
result_size (other_content ∷ rest) = result_size rest

unfoldable pub first_text : List Content → Text
first_text [] = []
first_text (text_content text ∷ rest) = if ltb 300 (length text) then take 300 text else text
first_text (other_content ∷ rest) = first_text rest

unfoldable pub mutating_tool : Text → Bool
mutating_tool name =
    same name (codes "fs_write")
    || (same name (codes "fs_edit")
        || (same name (codes "fs_move")
            || (same name (codes "fs_delete")
                || (same name (codes "doc_create")
                    || (same name (codes "doc_edit") || same name (codes "sheet_set_cells"))))))

-- the outcome, the error's text and the size, from the result and the error that the handler returns
unfoldable pub outcome_of : Option CallToolResult → Option Text → Text × Text × ℕ
unfolding result_size first_text
outcome_of none none = (codes "ok", [], 0)
outcome_of none (some e) = (codes "error", e, 0)
outcome_of (some r) (some e) = (codes "error", e, result_size r.contents)
outcome_of (some r) none =
    if r.is_error
    then (codes "error", first_text r.contents, result_size r.contents)
    else (codes "ok", [], result_size r.contents)

-- the user and the request id of an event; `context_id` is that of the HTTP request
unfoldable pub event_caller : Result Identity → Text → ℕ × Text
event_caller (err _) context_id = (0, context_id)
event_caller (ok identity) context_id =
    (identity.user_id, if same identity.request_id [] then context_id else identity.request_id)

-- the event of `instrument`
unfoldable pub audit_event :
    App
    → ℤ
    → CallToolRequest
    → Text
    → Text
    → ToolInput
    → Option CallToolResult
    → Option Text
    → Bool
    → ℕ
    → AuditEvent
unfolding audit_target outcome_of event_caller
audit_event app now req context_id name input result error deduplicated duration =
    let (user, request) = event_caller (app_identity app now req) context_id in
    let (outcome, message, size) = outcome_of result error in
    record {
      request_id = request;
      user_id = user;
      workspace = (audit_target input).0;
      tool_name = name;
      path = (audit_target input).1;
      outcome = outcome;
      error = message;
      duration_ms = duration;
      result_bytes = size;
      deduplicated = deduplicated;
    }

-- `idempotencyKey`; `hash` is the SHA-256 of the input's canonical JSON in hexadecimal, or `none`
unfoldable pub idempotency_key :
    (ToolInput → Option Text) → ℕ → Text → Text → ToolInput → Option Text
idempotency_key hash user request tool input = elim (hash input) [
  | none ↦ none
  | some h ↦ some (string_key user request tool h)
]

-- the key of a caller that is known
abbrev pub caller_key : (ToolInput → Option Text) → Text → ToolInput → Result Identity → Option Text
caller_key hash name input (err _) = none
caller_key hash name input (ok identity) =
    if same identity.request_id []
    then none
    else idempotency_key hash identity.user_id identity.request_id name input

-- `deduplicate`: the key under which a call goes through the cache; `none` where it runs at once
unfoldable pub deduplication_key :
    (ToolInput → Option Text) → App → ℤ → CallToolRequest → Text → ToolInput → Option Text
unfolding mutating_tool
deduplication_key hash app now req name input =
    if not (mutating_tool name) then none else caller_key hash name input (app_identity app now req)
