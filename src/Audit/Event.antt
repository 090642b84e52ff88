-- ===== src/Audit/Event.antt =====
-- What an event of internal/app/audit.go can show of a call.
use chat2work_mcp.Prelude.{
  ℕ, zero, suc, ◌≤◌, ◌≡◌, refl, arith, Bool, false, none, some, List, [], ◌∷◌, ltb, length, take,
  Text, Bool-cases, inl, inr,
}
use chat2work_mcp.Prelude.Int.{ℤ}
use chat2work_mcp.Server.{App, CallToolRequest}
use chat2work_mcp.Audit.{
  Content, text_content, other_content, CallToolResult, ToolInput, audit_target, result_size,
  first_text, outcome_of, audit_event, for_list, for_read, for_write, for_edit, for_move,
  for_delete, for_search, for_link, for_create, for_document, for_query, for_cells, for_workspaces,
}
use chat2work_mcp.Tools.{
  ListInput, ReadInput, WriteInput, EditInput, MoveInput, DeleteInput, SearchInput, LinkInput,
}
use chat2work_mcp.Documents.{DocCreateInput, DocEditInput, DocQueryInput, SheetSetCellsInput}

take-length-le : {A : Type 0} (n : ℕ) (xs : List A) → length (take n xs) ≤ n
take-length-le zero xs = omega arith
take-length-le (suc n) [] = omega arith
take-length-le (suc n) (x ∷ xs) = let ih = take-length-le n xs in omega (arith, ih)

first_text-le : (contents : List Content) → length (first_text contents) ≤ 300
unfolding first_text
first_text-le [] = omega arith
first_text-le (text_content text ∷ rest) = elim (Bool-cases (ltb 300 (length text))) [
  | inl long ↦ rw long (take-length-le 300 text)
  | inr short ↦ rw short (ground (arith, short))
]
first_text-le (other_content ∷ rest) = first_text-le rest

-- The inputs are of one tool and have the same workspace and path, for fs_move the same source. All
-- their other fields may differ: contents, texts, edits, destinations, patterns, commands, cells.
pub data SameButContent : ToolInput → ToolInput → Type 0 where
  list_inputs :
      (i j : ListInput)
      → i.workspace ≡ j.workspace
      → i.path ≡ j.path
      → SameButContent (for_list i) (for_list j)
  read_inputs :
      (i j : ReadInput)
      → i.workspace ≡ j.workspace
      → i.path ≡ j.path
      → SameButContent (for_read i) (for_read j)
  write_inputs :
      (i j : WriteInput)
      → i.workspace ≡ j.workspace
      → i.path ≡ j.path
      → SameButContent (for_write i) (for_write j)
  edit_inputs :
      (i j : EditInput)
      → i.workspace ≡ j.workspace
      → i.path ≡ j.path
      → SameButContent (for_edit i) (for_edit j)
  move_inputs :
      (i j : MoveInput)
      → i.workspace ≡ j.workspace
      → i.source ≡ j.source
      → SameButContent (for_move i) (for_move j)
  delete_inputs :
      (i j : DeleteInput)
      → i.workspace ≡ j.workspace
      → i.path ≡ j.path
      → SameButContent (for_delete i) (for_delete j)
  search_inputs :
      (i j : SearchInput)
      → i.workspace ≡ j.workspace
      → i.path ≡ j.path
      → SameButContent (for_search i) (for_search j)
  link_inputs :
      (i j : LinkInput)
      → i.workspace ≡ j.workspace
      → i.path ≡ j.path
      → SameButContent (for_link i) (for_link j)
  create_inputs :
      (i j : DocCreateInput)
      → i.workspace ≡ j.workspace
      → i.path ≡ j.path
      → SameButContent (for_create i) (for_create j)
  document_inputs :
      (i j : DocEditInput)
      → i.workspace ≡ j.workspace
      → i.path ≡ j.path
      → SameButContent (for_document i) (for_document j)
  query_inputs :
      (i j : DocQueryInput)
      → i.workspace ≡ j.workspace
      → i.path ≡ j.path
      → SameButContent (for_query i) (for_query j)
  cells_inputs :
      (i j : SheetSetCellsInput)
      → i.workspace ≡ j.workspace
      → i.path ≡ j.path
      → SameButContent (for_cells i) (for_cells j)
  workspaces_inputs : SameButContent for_workspaces for_workspaces

-- The results have texts of the same lengths at the same places.
pub data SameLengths : List Content → List Content → Type 0 where
  no_contents : SameLengths [] []
  same_texts :
      (a b : Text) (r r' : List Content)
      → length a ≡ length b
      → SameLengths r r'
      → SameLengths (text_content a ∷ r) (text_content b ∷ r')
  same_others :
      (r r' : List Content)
      → SameLengths r r'
      → SameLengths (other_content ∷ r) (other_content ∷ r')

audit_target-same :
    (input input' : ToolInput)
    → SameButContent input input'
    → audit_target input ≡ audit_target input'
unfolding audit_target
audit_target-same _ _ (list_inputs i j w p) = cc
audit_target-same _ _ (read_inputs i j w p) = cc
audit_target-same _ _ (write_inputs i j w p) = cc
audit_target-same _ _ (edit_inputs i j w p) = cc
audit_target-same _ _ (move_inputs i j w p) = cc
audit_target-same _ _ (delete_inputs i j w p) = cc
audit_target-same _ _ (search_inputs i j w p) = cc
audit_target-same _ _ (link_inputs i j w p) = cc
audit_target-same _ _ (create_inputs i j w p) = cc
audit_target-same _ _ (document_inputs i j w p) = cc
audit_target-same _ _ (query_inputs i j w p) = cc
audit_target-same _ _ (cells_inputs i j w p) = cc
audit_target-same _ _ workspaces_inputs = refl

result_size-same : (r r' : List Content) → SameLengths r r' → result_size r ≡ result_size r'
unfolding result_size
result_size-same _ _ no_contents = refl
result_size-same _ _ (same_texts a b r r' e h) =
    let ih = result_size-same r r' h in omega (arith, e, ih)
result_size-same _ _ (same_others r r' h) = result_size-same r r' h

module _ (app : App) (now : ℤ) (req : CallToolRequest) (context_id name : Text) where
  -- Two successful calls of a tool by one caller, whose inputs have the same workspace and path (for
  -- fs_move the same source) and differ in whatever else, and whose results have texts of the same
  -- lengths, have the same event (but for its time) if they take equally long and are equally
  -- deduplicated: the event shows nothing of the other input nor of the texts of the result but their
  -- lengths.
  pub audit_event-blind :
      (input input' : ToolInput) (r r' : CallToolResult) (deduplicated : Bool) (duration : ℕ)
      → SameButContent input input'
      → r.is_error ≡ false
      → r'.is_error ≡ false
      → SameLengths r.contents r'.contents
      → audit_event app now req context_id name input (some r) none deduplicated duration
        ≡ audit_event app now req context_id name input' (some r') none deduplicated duration
  unfolding audit_event outcome_of
  audit_event-blind input input' r r' deduplicated duration inputs good good' sizes =
      rw (audit_target-same input input' inputs, good, good')
        (rw (result_size-same r.contents r'.contents sizes) refl)

  -- The error of an event is at most 300 bytes of the result, where the handler returns no error.
  pub audit_event-short :
      (input : ToolInput) (r : CallToolResult) (deduplicated : Bool) (duration : ℕ)
      → length
          (audit_event app now req context_id name input (some r) none deduplicated duration).error
        ≤ 300
  unfolding audit_event outcome_of
  audit_event-short input r deduplicated duration =
      let short = first_text-le r.contents in
      elim (Bool-cases r.is_error) [
        | inl failed ↦ rw failed short
        | inr good ↦ rw good (omega arith)
      ]
