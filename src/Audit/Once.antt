-- ===== src/Audit/Once.antt =====
-- Which calls of internal/app/audit.go share an entry of the cache.
use chat2work_mcp.Prelude.{
  ◌≡◌, ◌≢◌, ◌∙◌, refl, sym, ap, arith, Bool, true, false, ◌||◌, Option, some, [], ◌∷◌, Option-cases,
  ◌==◌, Bool-cases, inl, inr, Result-cases, Text, codes, same, same_iff, ok,
}
use chat2work_mcp.Prelude.Int.{ℤ}
use chat2work_mcp.Prelude.Separators.{Lacks}
use chat2work_mcp.Auth.{Identity}
use chat2work_mcp.Idempotency.{string_key}
use chat2work_mcp.Idempotency.Replay.{string_key-injective}
use chat2work_mcp.Server.{App, CallToolRequest, app_identity}
use chat2work_mcp.Audit.{ToolInput, mutating_tool, idempotency_key, deduplication_key}

has_bar : Text → Bool
has_bar [] = false
has_bar (c ∷ text) = c == b'|' || has_bar text

has_bar-Lacks : (text : Text) → has_bar text ≡ false → Lacks b'|' text
unfolding has_bar
has_bar-Lacks [] h = tt
has_bar-Lacks (c ∷ text) h = ((λ e. ground (arith, h, e)), has_bar-Lacks text (ground (arith, h)))

one_of-Lacks :
    (name a : Text) (more : Bool)
    → has_bar a ≡ false
    → (more ≡ true → Lacks b'|' name)
    → (same name a || more) ≡ true
    → Lacks b'|' name
one_of-Lacks name a more free rest h = elim (Bool-cases (same name a)) [
  | inl here ↦ rw ((same_iff name a).0 here) (has_bar-Lacks a free)
  | inr other ↦ rest (ground (arith, h, other))
]

-- no "|" in the names of the tools
mutating-Lacks : (name : Text) → mutating_tool name ≡ true → Lacks b'|' name
unfolding mutating_tool has_bar
mutating-Lacks name h =
    one_of-Lacks name (codes "fs_write") _ refl
      (one_of-Lacks name (codes "fs_edit") _ refl (
        one_of-Lacks name (codes "fs_move") _ refl (
          one_of-Lacks name (codes "fs_delete") _ refl (
            one_of-Lacks name (codes "doc_create") _ refl (
              one_of-Lacks name (codes "doc_edit") _ refl (λ last.
                rw ((same_iff name (codes "sheet_set_cells")).0 last)
                  (has_bar-Lacks (codes "sheet_set_cells") refl)))))))
      h

-- What is known of a call that goes through the cache
pub record IsKeyed (hash : ToolInput → Option Text) (app : App) (now : ℤ) (req : CallToolRequest)
    (name : Text) (input : ToolInput) (key : Text) : Type 0 where
  pub caller : Identity
  pub digest : Text
  pub mutating : mutating_tool name ≡ true
  pub known : app_identity app now req ≡ ok caller
  pub numbered : caller.request_id ≢ []
  pub hashed : hash input ≡ some digest
  pub keyed : key ≡ string_key caller.user_id caller.request_id name digest

pub deduplication_key-IsKeyed :
    (hash : ToolInput → Option Text) (app : App) (now : ℤ) (req : CallToolRequest) (name : Text)
    (input : ToolInput) (key : Text)
    → deduplication_key hash app now req name input ≡ some key
    → IsKeyed hash app now req name input key
unfolding deduplication_key idempotency_key
deduplication_key-IsKeyed hash app now req name input key h =
    elim (Bool-cases (mutating_tool name)) [
      | inr reading ↦ absurd (ground (arith, h, reading))
      | inl mutating ↦ elim (Result-cases (app_identity app now req)) [
        | inr (e, unknown) ↦ absurd (ground (arith, h, mutating, unknown))
        | inl (caller, known) ↦ elim (Bool-cases (same caller.request_id [])) [
          | inl unnumbered ↦ absurd (ground (arith, h, mutating, known, unnumbered))
          | inr numbered ↦ elim (Option-cases (hash input)) [
            | inl unhashed ↦ absurd (ground (arith, h, mutating, known, numbered, unhashed))
            | inr (digest, hashed) ↦ record {
              caller = caller;
              digest = digest;
              mutating = mutating;
              known = known;
              numbered = λ e. ground (arith, numbered, e, same_iff caller.request_id []);
              hashed = hashed;
              keyed = ground (arith, h, mutating, known, numbered, hashed);
            }
          ]
        ]
      ]
    ]

-- Two calls that go through the cache under one key, where the hashes hold no "|": they are calls of
-- one tool that changes files, by one user, with one request id that is not empty, and inputs of the
-- same hash.
pub deduplication_key-same :
    (hash : ToolInput → Option Text) (app : App) (now now' : ℤ) (req req' : CallToolRequest)
    (name name' : Text) (input input' : ToolInput) (key : Text)
    → ((i : ToolInput) (digest : Text) → hash i ≡ some digest → Lacks b'|' digest)
    → deduplication_key hash app now req name input ≡ some key
    → deduplication_key hash app now' req' name' input' ≡ some key
    → (caller : Identity) × (caller' : Identity) × (app_identity app now req ≡ ok caller)
      × (app_identity app now' req' ≡ ok caller')
      × (caller.user_id ≡ caller'.user_id)
      × (caller.request_id ≡ caller'.request_id)
      × (caller.request_id ≢ [])
      × (mutating_tool name ≡ true)
      × (name ≡ name')
      × (hash input ≡ hash input')
deduplication_key-same hash app now now' req req' name name' input input' key free h h' =
    let k = deduplication_key-IsKeyed hash app now req name input key h in
    let k' = deduplication_key-IsKeyed hash app now' req' name' input' key h' in
    let (same_user, same_request, same_name, same_digest) =
      string_key-injective k.caller.user_id k'.caller.user_id k.caller.request_id
        k'.caller.request_id name name' k.digest k'.digest (mutating-Lacks name k.mutating)
        (mutating-Lacks name' k'.mutating) (free input k.digest k.hashed)
        (free input' k'.digest k'.hashed) (sym k.keyed ∙ k'.keyed) in
    (
      k.caller,
      k'.caller,
      k.known,
      k'.known,
      same_user,
      same_request,
      k.numbered,
      k.mutating,
      same_name,
      k.hashed ∙ ap some same_digest ∙ sym k'.hashed,
    )
