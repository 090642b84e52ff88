-- ===== src/Idempotency/Later.antt =====
-- What a call of internal/app/idempotency.go finds of an earlier result, whatever happened in between.
use chat2work_mcp.Prelude.{
  ℕ, ◌+◌, ◌<◌, ◌≡◌, ◌≢◌, refl, inl, inr, Option, none, some, arith, ◌==◌, Bool-cases, Option-cases,
  Text, same,
}
use chat2work_mcp.Prelude.Map.{text_key, nat_key, lookup, delete, lookup-insert, lookup-delete}
use chat2work_mcp.Idempotency.{
  Entry, Entries, Limits, Outcome, replay, wait, undecodable, alone, start, acquire, complete,
}
use chat2work_mcp.Idempotency.Kept.{
  Started, new_entry, completed, lookup-complete, acquire-start, acquire-other,
}
use chat2work_mcp.Idempotency.System.{
  System, entered, Step, enter, discard, keep, forget, Reach, next, Steps, stay, more, Steps-Reach,
}
use chat2work_mcp.Idempotency.Sound.{IsSound}
use chat2work_mcp.Idempotency.SingleFlight.{Reach-IsSound}
use chat2work_mcp.Idempotency.Replay.{found-replay}

-- The system after an execution has returned a result that is kept.
abbrev pub kept_at : System → ℕ → Text → ℕ → System
kept_at s number result at = record s {
  entries = complete number result at s.entries;
  running = delete number s.running;
}

-- An entry with this number, if there is one, holds this result; and no entry can get the number.
pub record Holds (number : ℕ) (result : Text) (at : ℕ) (s : System) : Type 0 where
  pub same_result :
      (k : Text) (e : Entry)
      → lookup k s.entries ≡ some e
      → e.number ≡ number
      → (e.result ≡ result) × (e.completed_at ≡ some at)
  pub used : number < s.next
  pub ended : lookup number s.running ≡ none

completed-same :
    (number : ℕ) (result : Text) (at : ℕ) (e f : Entry)
    → completed number result at e ≡ f
    → f.number ≡ number
    → (f.result ≡ result) × (f.completed_at ≡ some at)
completed-same number result at e f h mine = elim (Bool-cases (e.number == number)) [
  | inl hit ↦ (ground (arith, h, hit), ground (arith, h, hit))
  | inr miss ↦ absurd (ground (arith, h, miss, mine))
]

completed-other :
    (n : ℕ) (data' : Text) (now number : ℕ) (e f : Entry)
    → completed n data' now e ≡ f
    → f.number ≡ number
    → n ≢ number
    → f ≡ e
completed-other n data' now number e f h mine ne = elim (Bool-cases (e.number == n)) [
  | inl hit ↦ absurd (ground (arith, h, hit, mine, ne))
  | inr miss ↦ ground (arith, h, miss)
]

-- What is found after a completion was there before it.
found-complete :
    (n : ℕ) (data' : Text) (now : ℕ) (m : Entries) (k : Text) (f : Entry)
    → lookup k (complete n data' now m) ≡ some f
    → (e : Entry) × (lookup k m ≡ some e) × (completed n data' now e ≡ f)
found-complete n data' now m k f h = elim (Option-cases (lookup k m)) [
  | inl gone ↦ absurd (ground (arith, h, gone, lookup-complete n data' now m k))
  | inr (e, there) ↦ (e, there, ground (arith, h, there, lookup-complete n data' now m k))
]

module _ {R : Type 0} (encode : R → Option Text) (decode : Text → Option R) (limits : Limits)
    (round_trip : (r : R) (result : Text) → encode r ≡ some result → decode result ≢ none)
    (number : ℕ) (result : Text) (at : ℕ) where
  kept_at-Holds :
      (s : System) (key : Text)
      → IsSound decode limits s
      → lookup number s.running ≡ some key
      → Holds number result at (kept_at s number result at)
  kept_at-Holds s key sound mine = record {
    same_result = λ k f found mine_too.
        let (e, _, done) = found-complete number result at s.entries k f found in
        completed-same number result at e f done mine_too;
    used = sound.numbered number key mine;
    ended = ground (arith, lookup-delete number number s.running);
  }

  -- where the entries are among the former ones
  fewer :
      (s : System) (m : Entries)
      → Holds number result at s
      → ((k : Text) (e : Entry) → lookup k m ≡ some e → lookup k s.entries ≡ some e)
      → Holds number result at (record s { entries = m })
  fewer s m h from = record {
    same_result = λ k e found. h.same_result k e (from k e found);
    used = h.used;
    ended = h.ended;
  }

  deleted-from :
      (key : Text) (m : Entries) (k : Text) (e : Entry)
      → lookup k (delete key m) ≡ some e
      → lookup k m ≡ some e
  deleted-from key m k e found = ground (arith, found, lookup-delete key k m)

  Started-Holds :
      (s : System) (m : Entries) (key : Text)
      → Started limits s.entries m key s.next
      → Holds number result at s
      → Holds number result at (entered {R = R} key s (m, start))
  unfolding lookup
  Started-Holds s m key t h = record {
    same_result = λ k e found mine. elim (Bool-cases (same key k)) [
      | inl this ↦ absurd (
          ground (
            arith,
            found,
            this,
            mine,
            t.added,
            h.used,
            lookup-insert key k (new_entry s.next) t.base,
          ))
      | inr other ↦
          h.same_result k e
            (t.is_kept.from k e (
              ground (arith, found, other, t.added, lookup-insert key k (new_entry s.next) t.base)))
            mine
    ];
    used = ground (arith, h.used);
    ended = ground (arith, h.used, h.ended);
  }

  entered-Holds :
      (s : System) (now : ℕ) (key : Text) (p : Entries × Outcome R)
      → acquire decode limits now key s.next s.entries ≡ p
      → IsSound decode limits s
      → Holds number result at s
      → Holds number result at (entered key s p)
  entered-Holds s now key (m, start) e sound h =
      Started-Holds s m key
        (acquire-start decode limits now key s.next s.entries m sound.unique sound.size e) h
  entered-Holds s now key (m, undecodable) e sound h =
      let g =
        fewer s m h
          (acquire-other decode limits now key s.next s.entries m undecodable sound.unique e
            (λ e. cc)).from in
      record { same_result = g.same_result; used = g.used; ended = g.ended }
  entered-Holds s now key (m, replay r) e sound h =
      fewer s m h
        (acquire-other decode limits now key s.next s.entries m (replay r) sound.unique e
          (λ e. cc)).from
  entered-Holds s now key (m, wait n) e sound h =
      fewer s m h
        (acquire-other decode limits now key s.next s.entries m (wait n) sound.unique e
          (λ e. cc)).from
  entered-Holds s now key (m, alone) e sound h =
      fewer s m h
        (acquire-other decode limits now key s.next s.entries m alone sound.unique e (λ e. cc)).from

  Step-Holds :
      {s t : System}
      → Step encode decode limits s t
      → IsSound decode limits s
      → Holds number result at s
      → Holds number result at t
  Step-Holds (enter s now key) sound h =
      entered-Holds s now key (acquire decode limits now key s.next s.entries) refl sound h
  Step-Holds (discard s front key back e) sound h =
      let g = fewer s (delete key s.entries) h (deleted-from key s.entries) in
      record { same_result = g.same_result; used = g.used; ended = g.ended }
  Step-Holds (keep s n key r data' now mine encoded) sound h =
      let other : n ≢ number = λ e. ground (arith, e, mine, h.ended) in
      record {
        same_result = λ k f found mine_too.
            let (e, there, done) = found-complete n data' now s.entries k f found in
            let unchanged = completed-other n data' now number e f done mine_too other in
            h.same_result k f (rw unchanged there) mine_too;
        used = h.used;
        ended = ground (arith, lookup-delete n number s.running, h.ended);
      }
  Step-Holds (forget s n key mine) sound h =
      let g = fewer s (delete key s.entries) h (deleted-from key s.entries) in
      record {
        same_result = g.same_result;
        used = g.used;
        ended = ground (arith, lookup-delete n number s.running, h.ended);
      }

  Steps-Holds :
      {s t : System}
      → Reach encode decode limits s
      → Holds number result at s
      → Steps encode decode limits s t
      → Holds number result at t
  Steps-Holds r h stay = h
  Steps-Holds r h (more steps step) =
      Step-Holds step
        (Reach-IsSound encode decode limits round_trip (Steps-Reach encode decode limits r steps))
        (Steps-Holds r h steps)

  -- An execution in a reachable state, which has the entry with this number, returns a result that is
  -- encoded and kept at time `at`; then calls with any keys take any number of steps, and the entry is
  -- still in the cache. A call with its key that comes before the time to live has passed is then
  -- answered with a copy of this result, and does not execute.
  pub keep-replay_later :
      {s t : System} (key : Text) (made copy : R) (e : Entry) (now other : ℕ)
      → Reach encode decode limits s
      → lookup number s.running ≡ some key
      → encode made ≡ some result
      → decode result ≡ some copy
      → Steps encode decode limits (kept_at s number result at) t
      → lookup key t.entries ≡ some e
      → e.number ≡ number
      → now < at + limits.ttl
      → (acquire decode limits now key other t.entries).1 ≡ replay copy
  keep-replay_later {s} {t} key made copy e now other r mine encoded decoded steps found same_number
        early =
      let kept : Reach encode decode limits (kept_at s number result at) =
        next r (keep s number key made result at mine encoded) in
      let h =
        Steps-Holds kept
          (kept_at-Holds s key (Reach-IsSound encode decode limits round_trip r) mine) steps in
      let sound =
        Reach-IsSound encode decode limits round_trip
          (Steps-Reach encode decode limits kept steps) in
      let (same_result, done) = h.same_result key e found same_number in
      found-replay decode limits now key other t.entries e at copy sound.unique found done early
        (rw same_result decoded)
