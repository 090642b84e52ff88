-- ===== src/Idempotency.antt =====
-- internal/app/idempotency.go: the cache that answers a repeated call with the first call's result.
-- Each function is one critical section of `call`. Times are numbers; a zero `completedAt` is `none`.
-- An entry has a number, as a pointer has an address.
pub mod Entries
pub mod Kept
pub mod System
pub mod Sound
pub mod SingleFlight
pub mod Replay
pub mod Later
pub mod Tests
use chat2work_mcp.Prelude.{
  ℕ, ◌+◌, ◌*◌, ◌^◌, Bool, true, false, not, ◌&&◌, ◌||◌, Option, none, some, List, [], ◌∷◌, ◌++◌,
  ltb, leb, ◌==◌, if◌then◌else◌, length, Text, codes, same,
}
use chat2work_mcp.Prelude.Int.{ℤ, pos, pos_part, is_pos}
use chat2work_mcp.Prelude.Decimal.{decimal}
use chat2work_mcp.Prelude.Map.{text_key, lookup, insert, delete}

pub record Entry : Type 0 where
  pub number : ℕ
  pub result : Text
  pub completed_at : Option ℕ

abbrev pub Entries : Type 0
Entries = List (Text × Entry)

-- the fields of `requestIDCache` that do not change; both are positive
pub record Limits : Type 0 where
  pub ttl : ℕ
  pub limit : ℕ

-- `newRequestIDCache`; durations are nanoseconds
unfoldable pub new_request_id_cache : ℤ → ℤ → Limits
new_request_id_cache ttl limit = record {
  ttl = if is_pos ttl then pos_part ttl else 10 * 60 * 10 ^ 9;
  limit = if is_pos limit then pos_part limit else 1000;
}

-- `!entry.completedAt.IsZero() && now.Sub(entry.completedAt) >= c.ttl`
unfoldable pub is_expired : ℕ → ℕ → Entry → Bool
is_expired ttl now e = elim e.completed_at [ none ↦ false | some at ↦ leb (at + ttl) now ]

unfoldable pub remove_expired : ℕ → ℕ → Entries → Entries
remove_expired ttl now [] = []
remove_expired ttl now ((k, e) ∷ m) =
    let rest = remove_expired ttl now m in if is_expired ttl now e then rest else (k, e) ∷ rest

-- one round of the loop of `removeOldestCompleted`: the key and the time of the oldest so far
unfoldable pub older : Option (Text × ℕ) → Text → Option ℕ → Option (Text × ℕ)
older best k none = best
older none k (some at) = some (k, at)
older (some (j, oldest)) k (some at) = if ltb at oldest then some (k, at) else some (j, oldest)

unfoldable pub oldest_completed : Option (Text × ℕ) → Entries → Option (Text × ℕ)
unfolding older
oldest_completed best [] = best
oldest_completed best ((k, e) ∷ m) = oldest_completed (older best k e.completed_at) m

-- `removeOldestCompleted`: the entries that are left, or `none` where it returns false
unfoldable pub remove_oldest_completed : Entries → Option Entries
remove_oldest_completed m = elim (oldest_completed none m) [
  | none ↦ none
  | some (k, at) ↦ if same k [] then none else some (delete k m)
]

-- How the first critical section of `call` ends.
pub data Outcome (R : Type 0) : Type 0 where
  -- the copy of a completed result
  replay : R → Outcome R
  -- another call executes, under this entry
  wait : ℕ → Outcome R
  -- a completed result that cannot be copied, whose entry is then deleted
  undecodable : Outcome R
  -- the cache is full of executing calls: execute without an entry
  alone : Outcome R
  -- execute under a new entry
  start : Outcome R

module _ {R : Type 0} (decode : Text → Option R) (limits : Limits) where
  abbrev found_completed : Text → Outcome R
  found_completed result = elim (decode result) [ none ↦ undecodable | some r ↦ replay r ]

  abbrev found_entry : Entry → Outcome R
  found_entry e = elim e.completed_at [ none ↦ wait e.number | some at ↦ found_completed e.result ]

  abbrev new_entry : ℕ → Entry
  new_entry number = record { number = number; result = []; completed_at = none }

  -- `acquire now key number m`: from the lock to the unlock or the start of `execute`; `number` is
  -- that of the entry that it may make
  unfoldable pub acquire : ℕ → Text → ℕ → Entries → Entries × Outcome R
  acquire now key number m =
      let live = remove_expired limits.ttl now m in
      elim (lookup key live) [
        | some e ↦ (live, found_entry e)
        | none ↦
            if leb limits.limit (length live)
            then elim (remove_oldest_completed live) [
              | none ↦ (live, alone)
              | some rest ↦ (insert key (new_entry number) rest, start)
            ]
            else (insert key (new_entry number) live, start)
      ]

-- `entry.result = data; entry.completedAt = time.Now()`, for the entry with this number
unfoldable pub complete : ℕ → Text → ℕ → Entries → Entries
complete number data' now [] = []
complete number data' now ((k, e) ∷ m) =
    (k, if e.number == number then record e { result = data'; completed_at = some now } else e)
    ∷ complete number data' now m

-- `stringKey`
unfoldable pub string_key : ℕ → Text → Text → Text → Text
string_key user request tool hash =
    decimal user ++ (codes "|" ++ (request ++ (codes "|" ++ (tool ++ (codes "|" ++ hash)))))
