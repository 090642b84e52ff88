-- ===== src/Idempotency/Replay.antt =====
-- When a repeated call is answered from the cache of internal/app/idempotency.go.
use mathlib.Core.List.{append_assoc}
use chat2work_mcp.Prelude.{
  ℕ, ◌+◌, ◌<◌, ◌≡◌, ◌≢◌, refl, sym, ◌∙◌, Bool, true, false, Option, none, some, ◌∷◌, ◌++◌, arith,
  Text,
}
use chat2work_mcp.Prelude.Decimal.{decimal, decimal-injective, IsDigit}
use chat2work_mcp.Prelude.Separators.{Lacks, first_apart, last_apart, decimal-Lacks}
use chat2work_mcp.Prelude.Map.{text_key, nat_key, lookup, Unique}
use chat2work_mcp.Idempotency.{
  Entry, Entries, Limits, Outcome, replay, wait, undecodable, alone, start, is_expired,
  remove_expired, acquire, complete, string_key,
}
use chat2work_mcp.Idempotency.Entries.{lookup-remove_expired}
use chat2work_mcp.Idempotency.Kept.{lookup-complete, complete-Unique}
use chat2work_mcp.Idempotency.System.{System, Reach}
use chat2work_mcp.Idempotency.SingleFlight.{Reach-IsSound}

-- The call executes, with or without an entry.
abbrev pub executes : {R : Type 0} → Outcome R → Bool
executes alone = true
executes start = true
executes (replay r) = false
executes (wait n) = false
executes undecodable = false

module _ {R : Type 0} (decode : Text → Option R) (limits : Limits) where
  -- A call executes exactly if its key has no entry, or a completed one that has reached its time to
  -- live.
  pub executes-acquire :
      (now : ℕ) (key : Text) (number : ℕ) (m : Entries)
      → Unique m
      → executes (acquire decode limits now key number m).1
        ≡ elim (lookup key m) [ none ↦ true | some e ↦ is_expired limits.ttl now e ]
  unfolding acquire
  executes-acquire now key number m u = ground (arith, lookup-remove_expired limits.ttl now m key u)

  pub found-replay :
      (now : ℕ) (key : Text) (number : ℕ) (m : Entries) (e : Entry) (at : ℕ) (r : R)
      → Unique m
      → lookup key m ≡ some e
      → e.completed_at ≡ some at
      → now < at + limits.ttl
      → decode e.result ≡ some r
      → (acquire decode limits now key number m).1 ≡ replay r
  unfolding acquire is_expired
  found-replay now key number m e at r u found done early decoded =
      let live : lookup key (remove_expired limits.ttl now m) ≡ some e =
        ground (arith, lookup-remove_expired limits.ttl now m key u, found, done) in
      ground (arith, live, done, decoded)

module _ {R : Type 0} (encode : R → Option Text) (decode : Text → Option R) (limits : Limits)
    (round_trip : (r : R) (result : Text) → encode r ≡ some result → decode result ≢ none) where
  -- A call directly after the result is kept is answered with its copy, before the time to live has
  -- passed.
  keep-replay :
      {s : System} (number : ℕ) (key result : Text) (at : ℕ) (copy : R) (now other : ℕ)
      → Reach encode decode limits s
      → lookup number s.running ≡ some key
      → decode result ≡ some copy
      → now < at + limits.ttl
      → (acquire decode limits now key other (complete number result at s.entries)).1 ≡ replay copy
  keep-replay {s} number key result at copy now other r mine decoded early =
      let sound = Reach-IsSound encode decode limits round_trip r in
      let (e, found, same_number, _) = sound.held number key mine in
      let there : lookup key (complete number result at s.entries)
          ≡ some (record e { result = result; completed_at = some at }) =
        ground (arith, lookup-complete number result at s.entries key, found, same_number) in
      found-replay decode limits now key other (complete number result at s.entries)
        (record e { result = result; completed_at = some at }) at copy
        (complete-Unique number result at s.entries sound.unique) there refl early decoded

bar_free : (d : ℕ) → IsDigit d → d ≢ b'|'
bar_free d h e = omega (arith, e)

-- Calls share a cache entry only if user, request id, tool and parameter hash are all the same, where
-- tools and hashes hold no "|".
pub string_key-injective :
    (user user' : ℕ) (request request' tool tool' hash hash' : Text)
    → Lacks b'|' tool
    → Lacks b'|' tool'
    → Lacks b'|' hash
    → Lacks b'|' hash'
    → string_key user request tool hash ≡ string_key user' request' tool' hash'
    → (user ≡ user') × (request ≡ request') × (tool ≡ tool') × (hash ≡ hash')
unfolding string_key
string_key-injective user user' request request' tool tool' hash hash' t t' h h' e =
    let (same_user, e1) =
      first_apart b'|' (decimal user) (decimal user') _ _ (decimal-Lacks b'|' user bar_free)
        (decimal-Lacks b'|' user' bar_free) e in
    let (e2, same_hash) =
      last_apart b'|' hash hash' (request ++ b'|' ∷ tool) (request' ++ b'|' ∷ tool') h h' (
        append_assoc request (b'|' ∷ tool) (b'|' ∷ hash)
        ∙ e1
        ∙ sym (append_assoc request' (b'|' ∷ tool') (b'|' ∷ hash'))) in
    let (same_request, same_tool) = last_apart b'|' tool tool' request request' t t' e2 in
    (decimal-injective user user' same_user, same_request, same_tool, same_hash)
