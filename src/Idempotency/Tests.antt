-- ===== src/Idempotency/Tests.antt =====
-- One call and its repetitions, in a cache for two entries.
use chat2work_mcp.Prelude.{ℕ, ◌≡◌, ◌≢◌, refl, Option, none, some, [], ◌∷◌, arith, Text, codes, same}
use chat2work_mcp.Prelude.Map.{text_key, nat_key, lookup, insert, delete, Unique}
use chat2work_mcp.Idempotency.{
  Entries, Limits, replay, wait, is_expired, remove_expired, oldest_completed,
  remove_oldest_completed, acquire, complete,
}
use chat2work_mcp.Idempotency.System.{
  System, initial, entered, enter, Reach, here, next, stay, more,
}
use chat2work_mcp.Idempotency.Sound.{IsSound}
use chat2work_mcp.Idempotency.SingleFlight.{Reach-IsSound, single_flight}
use chat2work_mcp.Idempotency.Later.{kept_at, keep-replay_later}

abbrev encode : Text → Option Text
encode r = some r

abbrev decode : Text → Option Text
decode s = some s

abbrev limits : Limits
limits = record { ttl = 10; limit = 2 }

round_trip : (r result : Text) → encode r ≡ some result → decode result ≢ none
round_trip r result e f = cc

abbrev key : Text
key = codes "7|r|fs_write|00"

-- the first call executes
abbrev first : System
first = entered key initial (acquire decode limits 100 key 0 [])

first_running : lookup 0 first.running ≡ some key
unfolding acquire remove_expired lookup insert same
first_running = refl

first_reached : Reach encode decode limits first
first_reached = next here (enter initial 100 key)

repeated : (acquire decode limits 101 key 1 first.entries).1 ≡ wait 0
unfolding acquire is_expired remove_expired lookup insert same
repeated = refl

full :
    (acquire decode limits 120 (codes "c") 2 (
      (codes "a", record { number = 0; result = []; completed_at = some 115 })
      ∷ (codes "b", record { number = 1; result = []; completed_at = some 112 })
      ∷ [])).0
    ≡ (codes "a", record { number = 0; result = []; completed_at = some 115 })
      ∷ (codes "c", record { number = 2; result = []; completed_at = none })
      ∷ []
unfolding acquire is_expired remove_expired oldest_completed remove_oldest_completed lookup insert
    delete same
full = refl

Reach-IsSound_example : IsSound decode limits first
Reach-IsSound_example = Reach-IsSound encode decode limits round_trip first_reached

single_flight_example : ◌≡◌ {A = ℕ} 0 0
single_flight_example =
    single_flight encode decode limits round_trip first_reached 0 0 key first_running first_running

-- the first call has returned, and then another key has entered
abbrev kept_first : System
kept_first = kept_at first 0 (codes "ok") 102

abbrev busy : System
busy =
    entered (codes "b") kept_first
      (acquire decode limits 103 (codes "b") kept_first.next kept_first.entries)

kept_entry :
    lookup key busy.entries
    ≡ some (record { number = 0; result = codes "ok"; completed_at = some 102 })
unfolding acquire complete is_expired remove_expired lookup insert same
kept_entry = refl

keep-replay_later_example : (acquire decode limits 104 key 2 busy.entries).1 ≡ replay (codes "ok")
keep-replay_later_example =
    keep-replay_later encode decode limits round_trip 0 (codes "ok") 102 key (codes "ok")
      (codes "ok") (record { number = 0; result = codes "ok"; completed_at = some 102 }) 104 2
      first_reached first_running refl refl (more stay (enter kept_first 103 (codes "b")))
      kept_entry refl (omega arith)

abbrev two : Entries
two =
    (codes "a", record { number = 0; result = []; completed_at = some 115 })
    ∷ (codes "b", record { number = 1; result = []; completed_at = some 112 })
    ∷ []

two-Unique : Unique two
unfolding lookup same
two-Unique = (refl, (refl, tt))

oldest_removed :
    remove_oldest_completed two
    ≡ some ((codes "a", record { number = 0; result = []; completed_at = some 115 }) ∷ [])
unfolding remove_oldest_completed oldest_completed delete same
oldest_removed = refl
