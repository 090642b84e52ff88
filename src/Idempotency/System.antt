-- ===== src/Idempotency/System.antt =====
-- Concurrent calls on the cache of internal/app/idempotency.go, as an interleaving of their critical
-- sections. What a call executes, and when, the environment chooses.
use chat2work_mcp.Prelude.{ℕ, ◌+◌, ◌≡◌, Option, some, List, [], ◌∷◌, ◌++◌, Text}
use chat2work_mcp.Prelude.Map.{text_key, nat_key, lookup, delete}
use chat2work_mcp.Idempotency.{
  Entries, Limits, Outcome, replay, wait, undecodable, alone, start, acquire, complete,
}

-- `running` holds the executions that have an entry: the entry's number and its key. `doubtful` holds
-- the keys whose deletion is to come, after a result that cannot be copied.
pub record System : Type 0 where
  pub entries : Entries
  pub running : List (ℕ × Text)
  pub doubtful : List Text
  pub next : ℕ

abbrev pub initial : System
initial = record { entries = []; running = []; doubtful = []; next = 0 }

-- The system after a call of `key` has left its first critical section.
abbrev pub entered : {R : Type 0} → Text → System → Entries × Outcome R → System
entered key s (m, start) = record s {
  entries = m;
  running = (s.next, key) ∷ s.running;
  next = s.next + 1;
}
entered key s (m, undecodable) = record s { entries = m; doubtful = key ∷ s.doubtful }
entered key s (m, replay r) = record s { entries = m }
entered key s (m, wait n) = record s { entries = m }
entered key s (m, alone) = record s { entries = m }

module _ {R : Type 0} (encode : R → Option Text) (decode : Text → Option R) (limits : Limits) where
  -- A critical section of `call`, by any caller at any time.
  pub data Step : System → System → Type 0 where
    -- the lookup, up to the wait, the return or the start of `execute`
    enter :
        (s : System) (now : ℕ) (key : Text)
        → Step s (entered key s (acquire decode limits now key s.next s.entries))
    -- `delete(c.entries, key)` after a result that could not be copied
    discard :
        (s : System) (front : List Text) (key : Text) (back : List Text)
        → s.doubtful ≡ front ++ key ∷ back
        → Step s (record s { entries = delete key s.entries; doubtful = front ++ back })
    -- `execute` has returned a result, which is kept
    keep :
        (s : System) (number : ℕ) (key : Text) (r : R) (result : Text) (now : ℕ)
        → lookup number s.running ≡ some key
        → encode r ≡ some result
        → Step s (record s {
          entries = complete number result now s.entries;
          running = delete number s.running;
        })
    -- `execute` has returned an error, or a result that cannot be encoded
    forget :
        (s : System) (number : ℕ) (key : Text)
        → lookup number s.running ≡ some key
        → Step s (record s { entries = delete key s.entries; running = delete number s.running })

  pub data Reach : System → Type 0 where
    here : Reach initial
    next : {s t : System} → Reach s → Step s t → Reach t

  -- any number of steps
  pub data Steps (s : System) : System → Type 0 where
    stay : Steps s s
    more : {t u : System} → Steps s t → Step t u → Steps s u

  pub Steps-Reach : {s t : System} → Reach s → Steps s t → Reach t
  Steps-Reach r stay = r
  Steps-Reach r (more steps step) = next (Steps-Reach r steps) step
