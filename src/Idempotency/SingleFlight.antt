-- ===== src/Idempotency/SingleFlight.antt =====
-- At most one execution of a key has an entry in the cache of internal/app/idempotency.go.
use chat2work_mcp.Prelude.{
  ℕ, ◌≡◌, ◌≢◌, ◌∙◌, sym, refl, Option, none, some, List, [], ◌∷◌, ◌++◌, arith, Text,
}
use chat2work_mcp.Prelude.Map.{text_key, nat_key, lookup}
use chat2work_mcp.Idempotency.{Limits, acquire}
use chat2work_mcp.Idempotency.System.{
  System, initial, Step, enter, discard, keep, forget, Reach, here, next,
}
use chat2work_mcp.Idempotency.Sound.{IsSound, entered-IsSound, kept_result, forgotten}

none_doubtful : (front : List Text) (key : Text) (back : List Text) → [] ≢ front ++ key ∷ back
none_doubtful [] key back e = cc
none_doubtful (x ∷ front) key back e = cc

module _ {R : Type 0} (encode : R → Option Text) (decode : Text → Option R) (limits : Limits) where
  module _
      (round_trip : (r : R) (result : Text) → encode r ≡ some result → decode result ≢ none) where
    Step-IsSound :
        {s t : System}
        → Step encode decode limits s t
        → IsSound decode limits s
        → IsSound decode limits t
    Step-IsSound (enter s now key) sound =
        entered-IsSound decode limits s now key (acquire decode limits now key s.next s.entries)
          refl sound
    Step-IsSound (discard s front key back e) sound =
        absurd (none_doubtful front key back (sym sound.certain ∙ e))
    Step-IsSound (keep s number key r result now mine encoded) sound =
        kept_result decode limits s number key result now sound mine (round_trip r result encoded)
    Step-IsSound (forget s number key mine) sound = forgotten decode limits s number key sound mine

    initial-IsSound : IsSound decode limits initial
    unfolding lookup
    initial-IsSound = record {
      unique = tt;
      size = omega arith;
      held = λ n k at. cc;
      numbered = λ n k at. cc;
      decodable = λ k e when found done. cc;
      certain = refl;
    }

    -- In every state that calls can reach, in any interleaving, and if a result that encodes also
    -- decodes, the cache has at most `limit` entries, each execution that has an entry has its own,
    -- still open, under its key, and no result is waiting to be discarded.
    pub Reach-IsSound : {s : System} → Reach encode decode limits s → IsSound decode limits s
    Reach-IsSound here = initial-IsSound
    Reach-IsSound (next r st) = Step-IsSound st (Reach-IsSound r)

    -- In every state that calls can reach, in any interleaving, and if a result that encodes also
    -- decodes, two executions of one key that have entries are the same execution: calls with one key
    -- never execute at the same time, unless they execute without an entry.
    pub single_flight :
        {s : System}
        → Reach encode decode limits s
        → (n n' : ℕ) (key : Text) → lookup n s.running ≡ some key
        → lookup n' s.running ≡ some key
        → n ≡ n'
    single_flight r n n' key at at' =
        let sound = Reach-IsSound r in
        let (e, found, number, _) = sound.held n key at in
        let (e', found', number', _) = sound.held n' key at' in cc
