-- ===== src/Audit/Tests.antt =====
-- The audit log over stdio and on files in memory.
use chat2work_mcp.Prelude.{
  ℕ, ◌+◌, ◌≤◌, ◌≡◌, ◌≢◌, refl, ap, take, arith, true, false, Option, none, some, List, [], ◌∷◌,
  ◌++◌, length, Text, codes, same, split, trim_space, same_iff, Result, ok,
}
use chat2work_mcp.Prelude.Int.{pos}
use chat2work_mcp.Prelude.Decimal.{decimal}
use chat2work_mcp.Prelude.Map.{text_key, lookup, insert, delete, lookup-insert, lookup-delete}
use chat2work_mcp.Prelude.Separators.{Lacks}
use chat2work_mcp.Auth.{Identity, identity_from_request, resolve_identity}
use chat2work_mcp.Access.{new_access_manager}
use chat2work_mcp.Config.Sample.{config}
use chat2work_mcp.Idempotency.{string_key}
use chat2work_mcp.Server.{App, CallToolRequest, app_identity}
use chat2work_mcp.Tools.Sample.{app, request}
use chat2work_mcp.Audit.{
  AuditEvent, CallToolResult, text_content, other_content, ToolInput, for_read, for_write,
  audit_event, deduplication_key, idempotency_key, mutating_tool,
}
use chat2work_mcp.Audit.Log.{LogOs, Auditor, slot, rotate, record_event}
use chat2work_mcp.Audit.Event.{
  write_inputs, same_texts, same_others, no_contents, audit_event-blind,
}
use chat2work_mcp.Audit.Once.{deduplication_key-same}
use chat2work_mcp.Audit.Rotation.{IsReliable, IsRotated, rotate-IsRotated}
use chat2work_mcp.Audit.Size.{IsAppending, IsTracked, record_event-IsTracked}

abbrev Logs : Type 0
Logs = List (Text × Text)

abbrev opened_at : Text → Logs → Option Text → Result ℕ × Logs
opened_at p d none = (ok 0, insert p [] d)
opened_at p d (some bytes) = (ok (length bytes), d)

abbrev bytes_at : Option Text → Text
bytes_at none = []
bytes_at (some bytes) = bytes

abbrev moved_to : Text → Text → Logs → Option Text → Logs
moved_to a b d none = d
moved_to a b d (some bytes) = insert b bytes (delete a d)

abbrev logs : LogOs Logs
logs = record {
  open_log = λ p d. opened_at p d (lookup p d);
  close_log = λ p d. d;
  append = λ p line d. (length line, insert p (bytes_at (lookup p d) ++ line) d);
  remove_log = λ p d. delete p d;
  rename_log = λ a b d. moved_to a b d (lookup a d);
}

abbrev content : Logs → Text → Option Text
content d p = lookup p d

moved_to-there :
    (d : Logs) (a b bytes : Text) (o : Option Text)
    → o ≡ some bytes
    → lookup b (moved_to a b d o) ≡ some bytes
moved_to-there d a b bytes none h = cc
moved_to-there d a b bytes (some bytes') h =
    ground (arith, h, same_iff b b, lookup-insert b b bytes' (delete a d))

moved_to-vacated :
    (d : Logs) (a b : Text) (o : Option Text)
    → lookup a d ≡ o
    → a ≢ b
    → lookup a (moved_to a b d o) ≡ none
moved_to-vacated d a b none h ne = h
moved_to-vacated d a b (some bytes) h ne = ground (
  arith,
  ne,
  same_iff b a,
  same_iff a a,
  lookup-insert b a bytes (delete a d),
  lookup-delete a a d,
)

moved_to-missing :
    (d : Logs) (a b q : Text) (o : Option Text)
    → o ≡ none
    → lookup q (moved_to a b d o) ≡ lookup q d
moved_to-missing d a b q none h = refl
moved_to-missing d a b q (some bytes) h = cc

moved_to-others :
    (d : Logs) (a b q : Text) (o : Option Text)
    → q ≢ a
    → q ≢ b
    → lookup q (moved_to a b d o) ≡ lookup q d
moved_to-others d a b q none ne ne' = refl
moved_to-others d a b q (some bytes) ne ne' = ground (
  arith,
  ne,
  ne',
  same_iff b q,
  same_iff a q,
  lookup-insert b q bytes (delete a d),
  lookup-delete a q d,
)

opened_at-new :
    (d : Logs) (p : Text) (o : Option Text)
    → o ≡ none
    → ((opened_at p d o).0 ≡ ok 0) × (lookup p (opened_at p d o).1 ≡ some [])
opened_at-new d p none h = (refl, ground (arith, same_iff p p, lookup-insert p p [] d))
opened_at-new d p (some bytes) h = cc

opened_at-others :
    (d : Logs) (p q : Text) (o : Option Text) → q ≢ p → lookup q (opened_at p d o).1 ≡ lookup q d
opened_at-others d p q none ne = ground (arith, ne, same_iff p q, lookup-insert p q [] d)
opened_at-others d p q (some bytes) ne = refl

reliable : IsReliable logs content
reliable = record {
  close = λ d p q. refl;
  removed = λ d p. ground (arith, same_iff p p, lookup-delete p p d);
  remove_others = λ d p q ne. ground (arith, ne, same_iff p q, lookup-delete p q d);
  renamed = λ d a b bytes ne h. moved_to-there d a b bytes (lookup a d) h;
  vacated = λ d a b ne. moved_to-vacated d a b (lookup a d) refl ne;
  rename_missing = λ d a b q h. moved_to-missing d a b q (lookup a d) h;
  rename_others = λ d a b q ne ne'. moved_to-others d a b q (lookup a d) ne ne';
  opened = λ d p h. opened_at-new d p (lookup p d) h;
  open_others = λ d p q ne. opened_at-others d p q (lookup p d) ne;
}

abbrev auditor : Auditor
auditor = record {
  log_path = codes "l";
  enabled = true;
  is_open = true;
  size = 3;
  max_bytes = pos 4;
  max_backups = pos 2;
}

abbrev files : Logs
files = (codes "l", codes "abc") ∷ (codes "l.1", codes "old") ∷ (codes "l.2", codes "gone") ∷ []

rotates :
    (rotate logs auditor files).1
    ≡ (codes "l.2", codes "old") ∷ (codes "l.1", codes "abc") ∷ (codes "l", []) ∷ []
unfolding rotate slot lookup insert delete same decimal
rotates = refl

rotate-IsRotated_example :
    ((rotate logs auditor files).0.is_open ≡ true)
    × ((rotate logs auditor files).0.size ≡ 0)
    × (content (rotate logs auditor files).1 (codes "l") ≡ some [])
    × IsRotated logs content reliable (codes "l") 2 files (rotate logs auditor files).1
rotate-IsRotated_example = rotate-IsRotated logs content reliable auditor files refl

abbrev read_input : ToolInput
read_input = for_read (record { workspace = codes "w"; path = codes "p"; max_bytes = pos 0 })

abbrev write_input : ToolInput
write_input =
    for_write (record {
      workspace = codes "w";
      path = codes "p";
      content = codes "secret";
      overwrite = true;
    })

abbrev shown : CallToolResult
shown = record { is_error = false; contents = text_content (codes "abc") ∷ other_content ∷ [] }

abbrev hidden : CallToolResult
hidden = record { is_error = false; contents = text_content (codes "xyz") ∷ other_content ∷ [] }

line_short : (line : Text) → codes "xy" ≡ line → length line + 1 ≤ 4
line_short line h = rw (← h) (omega arith)

log_there : content files (codes "l") ≡ some (codes "abc")
unfolding lookup same
log_there = refl

abbrev event : AuditEvent
event =
    audit_event app (pos 0) request (codes "c") (codes "fs_read") read_input (some shown) none false
      5

take-all : (xs : Text) → take (length xs) xs ≡ xs
take-all [] = refl
take-all (x ∷ xs) = ap (λ (t : Text). x ∷ t) (take-all xs)

appending : IsAppending logs content
appending = record {
  part = λ d p line. omega arith;
  added = λ d p line bytes h.
      rw (h, take-all line) (ground (arith, same_iff p p, lookup-insert p p (bytes ++ line) d));
}

record_event-IsTracked_example :
    IsTracked logs content reliable appending
      (codes "l")
      (pos 4)
      (record_event logs (λ e. some (codes "xy")) event auditor files).0
      (record_event logs (λ e. some (codes "xy")) event auditor files).1
record_event-IsTracked_example =
    record_event-IsTracked logs content reliable appending (λ e. some (codes "xy")) event auditor
      files refl (λ e line h. line_short line (ground (arith, h)))
      (refl, refl, refl, codes "abc", log_there, refl, omega arith)

abbrev other_write : ToolInput
other_write = for_write (record {
  workspace = codes "w";
  path = codes "p";
  content = codes "another";
  overwrite = false;
})

audit_event-blind_example :
    audit_event app
      (pos 0)
      request
      (codes "c")
      (codes "fs_write")
      write_input
      (some shown)
      none
      false
      5
    ≡ audit_event app
        (pos 0)
        request
        (codes "c")
        (codes "fs_write")
        other_write
        (some hidden)
        none
        false
        5
audit_event-blind_example =
    audit_event-blind app (pos 0) request (codes "c") (codes "fs_write") write_input other_write
      shown hidden false 5 (write_inputs _ _ refl refl) refl refl
      (same_texts (codes "abc") (codes "xyz") (other_content ∷ []) (other_content ∷ []) refl
        (same_others [] [] no_contents))

-- an application with a codec that signs a text with the text itself
abbrev signing_app : App
signing_app = record {
  config = record config { mcp_user_context_secret = codes "k" };
  access = new_access_manager config;
  codec = record {
    mac = λ secret body. secret ++ body;
    decode_base64 = λ s. some s;
    unmarshal = λ s. some (record { user_id = 7; request_id = codes "r"; expires_at = pos 100 });
  };
  scan = λ s. none;
}

abbrev signed_request : CallToolRequest
signed_request = record { header = some (codes "v1.b.kb") }

abbrev no_bars : ToolInput → Option Text
no_bars input = some (codes "00")

no_bars-Lacks : (i : ToolInput) (digest : Text) → no_bars i ≡ some digest → Lacks b'|' digest
no_bars-Lacks i digest h =
    let same_text : codes "00" ≡ digest = cc in rw (← same_text) ((λ e. cc), ((λ e. cc), tt))

abbrev key : Text
key = codes "7|r|fs_write|00"

write_key :
    deduplication_key no_bars signing_app (pos 0) signed_request (codes "fs_write") write_input
    ≡ some key
unfolding deduplication_key idempotency_key app_identity identity_from_request resolve_identity
    split trim_space same string_key decimal
write_key = refl

read_key :
    deduplication_key no_bars signing_app (pos 0) signed_request (codes "fs_read") read_input ≡ none
unfolding deduplication_key same
read_key = refl

deduplication_key-same_example :
    (caller : Identity) × (caller' : Identity) × (app_identity signing_app (pos 0) signed_request
      ≡ ok caller)
    × (app_identity signing_app (pos 0) signed_request ≡ ok caller')
    × (caller.user_id ≡ caller'.user_id)
    × (caller.request_id ≡ caller'.request_id)
    × (caller.request_id ≢ [])
    × (mutating_tool (codes "fs_write") ≡ true)
    × (codes "fs_write" ≡ codes "fs_write")
    × (no_bars write_input ≡ no_bars write_input)
deduplication_key-same_example =
    deduplication_key-same no_bars signing_app (pos 0) (pos 0) signed_request signed_request
      (codes "fs_write") (codes "fs_write") write_input write_input key no_bars-Lacks write_key
      write_key
