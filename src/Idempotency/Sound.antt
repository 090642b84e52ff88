-- ===== src/Idempotency/Sound.antt =====
-- The invariant of the cache of internal/app/idempotency.go, and what each step does to it.
use chat2work_mcp.Prelude.{
  ℕ, ◌+◌, ◌≤◌, ◌<◌, ◌≡◌, ◌≢◌, refl, ap, ◌∙◌, inl, inr, false, Option, none, some, [], ◌∷◌, arith,
  ◌==◌, if◌then◌else◌, Bool-cases, Option-cases, length, Text, same, same_iff,
}
use chat2work_mcp.Prelude.Map.{
  text_key, nat_key, lookup, delete, Unique, lookup-insert, lookup-delete, insert-Unique,
  delete-Unique, length-insert-le, length-delete-le,
}
use chat2work_mcp.Idempotency.{
  Entry, Entries, Limits, Outcome, replay, wait, undecodable, alone, start, acquire, complete,
}
use chat2work_mcp.Idempotency.System.{System, entered}
use chat2work_mcp.Idempotency.Kept.{
  IsKept, new_entry, Started, lookup-complete, complete-Unique, length-complete, acquire-start,
  acquire-other, acquire-undecodable,
}

module _ {R : Type 0} (decode : Text → Option R) (limits : Limits) where
  -- The entries belong to the executions, and what is kept can be copied.
  pub record IsSound (s : System) : Type 0 where
    pub unique : Unique s.entries
    pub size : length s.entries ≤ limits.limit
    pub held :
        (n : ℕ) (k : Text)
        → lookup n s.running ≡ some k
        → (e : Entry) × (lookup k s.entries ≡ some e) × (e.number ≡ n) × (e.completed_at ≡ none)
    pub numbered : (n : ℕ) (k : Text) → lookup n s.running ≡ some k → n < s.next
    pub decodable :
        (k : Text) (e : Entry) (at : ℕ)
        → lookup k s.entries ≡ some e
        → e.completed_at ≡ some at
        → decode e.result ≢ none
    pub certain : s.doubtful ≡ []

  -- Fewer entries, the executing ones all kept.
  quiet :
      (s : System) (m : Entries)
      → IsSound s
      → IsKept s.entries m
      → IsSound (record s { entries = m })
  quiet s m sound k = record {
    unique = k.unique;
    size = omega (arith, k.size, sound.size);
    held = λ n key at.
        let (e, found, number, open_) = sound.held n key at in
        (e, k.kept key e found open_, number, open_);
    numbered = sound.numbered;
    decodable = λ key e t found. sound.decodable key e t (k.from key e found);
    certain = sound.certain;
  }

  abbrev started_system : System → Entries → Text → System
  started_system s m key = record s {
    entries = m;
    running = (s.next, key) ∷ s.running;
    next = s.next + 1;
  }

  lookup-added :
      (s : System) (m : Entries) (key k : Text) (t : Started limits s.entries m key s.next)
      → lookup k m ≡ (if same key k then some (new_entry s.next) else lookup k t.base)
  lookup-added s m key k t = ap (lookup k) t.added ∙ lookup-insert key k (new_entry s.next) t.base

  Started-held :
      (s : System) (m : Entries) (key : Text) (sound : IsSound s)
      (t : Started limits s.entries m key s.next) (n : ℕ) (k : Text)
      → lookup n ((s.next, key) ∷ s.running) ≡ some k
      → (e : Entry) × (lookup k m ≡ some e) × (e.number ≡ n) × (e.completed_at ≡ none)
  unfolding lookup
  Started-held s m key sound t n k at = elim (Bool-cases (s.next == n)) [
    | inl mine ↦ (
      new_entry s.next,
      ground (arith, mine, lookup-added s m key k t, same_iff key k),
      ground (arith, mine),
      refl,
    )
    | inr other ↦
        let (e, found, number, open_) = sound.held n k (ground (arith, other)) in
        (
          e,
          ground (
            arith,
            lookup-added s m key k t,
            same_iff key k,
            t.is_kept.kept k e found open_,
            t.absent,
          ),
          number,
          open_,
        )
  ]

  started :
      (s : System) (m : Entries) (key : Text)
      → IsSound s
      → Started limits s.entries m key s.next
      → IsSound (started_system s m key)
  unfolding lookup
  started s m key sound t = record {
    unique = rw t.added (insert-Unique key (new_entry s.next) t.base t.is_kept.unique);
    size = omega (
      arith,
      ap (length {A = Text × Entry}) t.added,
      length-insert-le key (new_entry s.next) t.base,
      t.room,
    );
    held = Started-held s m key sound t;
    numbered = λ n k at. ground (arith, sound.numbered n k);
    decodable = λ k e when found done.
        sound.decodable k e when (ground (arith, lookup-added s m key k t, t.is_kept.from k e))
          done;
    certain = sound.certain;
  }

  pub entered-IsSound :
      (s : System) (now : ℕ) (key : Text) (p : Entries × Outcome R)
      → acquire decode limits now key s.next s.entries ≡ p
      → IsSound s
      → IsSound (entered key s p)
  entered-IsSound s now key (m, undecodable) h sound =
      let (e, at, found, done, bad) =
        acquire-undecodable decode limits now key s.next s.entries m sound.unique h in
      absurd (sound.decodable key e at found done bad)
  entered-IsSound s now key (m, replay r) h sound =
      quiet s m sound
        (acquire-other decode limits now key s.next s.entries m (replay r) sound.unique h (λ e. cc))
  entered-IsSound s now key (m, wait n) h sound =
      quiet s m sound
        (acquire-other decode limits now key s.next s.entries m (wait n) sound.unique h (λ e. cc))
  entered-IsSound s now key (m, alone) h sound =
      quiet s m sound
        (acquire-other decode limits now key s.next s.entries m alone sound.unique h (λ e. cc))
  entered-IsSound s now key (m, start) h sound =
      started s m key sound
        (acquire-start decode limits now key s.next s.entries m sound.unique sound.size h)

  pub kept_result :
      (s : System) (number : ℕ) (key : Text) (result : Text) (now : ℕ)
      → IsSound s
      → lookup number s.running ≡ some key
      → decode result ≢ none
      → IsSound (record s {
        entries = complete number result now s.entries;
        running = delete number s.running;
      })
  kept_result s number key result now sound mine good = record {
    unique = complete-Unique number result now s.entries sound.unique;
    size = omega (arith, length-complete number result now s.entries, sound.size);
    held = λ n k at.
        let other : (number == n) ≡ false = ground (arith, lookup-delete number n s.running) in
        let (e, found, same_number, open_) =
          sound.held n k (ground (arith, lookup-delete number n s.running, other)) in
        (
          e,
          ground (arith, lookup-complete number result now s.entries k, found, other, same_number),
          same_number,
          open_,
        );
    numbered = λ n k at. sound.numbered n k (ground (arith, lookup-delete number n s.running));
    decodable = λ k e when found done. elim (Option-cases (lookup k s.entries)) [
      | inl gone ↦ absurd (ground (arith, lookup-complete number result now s.entries k, gone))
      | inr (f, there) ↦ elim (Bool-cases (f.number == number)) [
        | inl hit ↦
            let e_result : e.result ≡ result =
              ground (arith, lookup-complete number result now s.entries k, there, hit) in
            rw e_result good
        | inr miss ↦
            let same_entry : f ≡ e =
              ground (arith, lookup-complete number result now s.entries k, there, miss) in
            sound.decodable k e when (there ∙ ap some same_entry) done
      ]
    ];
    certain = sound.certain;
  }

  pub forgotten :
      (s : System) (number : ℕ) (key : Text)
      → IsSound s
      → lookup number s.running ≡ some key
      → IsSound (record s { entries = delete key s.entries; running = delete number s.running })
  forgotten s number key sound mine =
      let (e, found, same_number, open_) = sound.held number key mine in
      record {
        unique = delete-Unique key s.entries sound.unique;
        size = omega (arith, length-delete-le key s.entries, sound.size);
        held = λ n k at.
            let other : (number == n) ≡ false = ground (arith, lookup-delete number n s.running) in
            let (f, there, number_n, open_n) =
              sound.held n k (ground (arith, lookup-delete number n s.running, other)) in
            (
              f,
              ground (
                arith,
                lookup-delete key k s.entries,
                same_iff key k,
                found,
                there,
                same_number,
                number_n,
                other,
              ),
              number_n,
              open_n,
            );
        numbered = λ n k at. sound.numbered n k (ground (arith, lookup-delete number n s.running));
        decodable = λ k f when there done.
            sound.decodable k f when (ground (arith, lookup-delete key k s.entries)) done;
        certain = sound.certain;
      }
