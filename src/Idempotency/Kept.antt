-- ===== src/Idempotency/Kept.antt =====
-- The steps of the cache of internal/app/idempotency.go: executing entries stay.
use chat2work_mcp.Prelude.{
  ℕ, suc, ◌≤◌, ◌<◌, ◌≡◌, ◌≢◌, refl, ap, inl, inr, Option, none, some, [], ◌∷◌, arith, leb, ◌==◌,
  if◌then◌else◌, Bool-cases, Option-cases, length, Text, same, same_iff,
}
use chat2work_mcp.Prelude.Map.{
  text_key, nat_key, lookup, insert, Unique, lookup-delete, delete-Unique, length-delete-le,
  length-delete-lt,
}
use chat2work_mcp.Idempotency.{
  Entry, Entries, Limits, Outcome, undecodable, start, is_expired, remove_expired,
  remove_oldest_completed, acquire, complete,
}
use chat2work_mcp.Idempotency.Entries.{
  lookup-remove_expired, remove_expired-Unique, length-remove_expired, remove_oldest-some,
}

-- Executing entries stay, and nothing is there that was not.
pub record IsKept (m m' : Entries) : Type 0 where
  pub kept :
      (k : Text) (e : Entry) → lookup k m ≡ some e → e.completed_at ≡ none → lookup k m' ≡ some e
  pub from : (k : Text) (e : Entry) → lookup k m' ≡ some e → lookup k m ≡ some e
  pub unique : Unique m'
  pub size : length m' ≤ length m

remove_expired-IsKept : (ttl now : ℕ) (m : Entries) → Unique m → IsKept m (remove_expired ttl now m)
remove_expired-IsKept ttl now m u = record {
  kept =
      λ k e found open_. unfold is_expired in ground (arith, lookup-remove_expired ttl now m k u);
  from = λ k e found. elim (Option-cases (lookup k m)) [
    | inl gone ↦ ground (arith, lookup-remove_expired ttl now m k u)
    | inr (f, there) ↦ ground (arith, lookup-remove_expired ttl now m k u)
  ];
  unique = remove_expired-Unique ttl now m u;
  size = length-remove_expired ttl now m;
}

remove_oldest-IsKept :
    (m rest : Entries)
    → Unique m
    → remove_oldest_completed m ≡ some rest
    → IsKept m rest × (length rest < length m)
remove_oldest-IsKept m rest u h =
    let (j, f, at, found, done, e, _) = remove_oldest-some m rest u h in
    rw e (
      record {
        kept = λ k g there open_. ground (arith, lookup-delete j k m, same_iff j k);
        from = λ k g there. ground (arith, lookup-delete j k m);
        unique = delete-Unique j m u;
        size = length-delete-le j m;
      },
      length-delete-lt j f m found,
    )

IsKept-trans : (m m' m'' : Entries) → IsKept m m' → IsKept m' m'' → IsKept m m''
IsKept-trans m m' m'' a b = record {
  kept = λ k e found open_. b.kept k e (a.kept k e found open_) open_;
  from = λ k e found. a.from k e (b.from k e found);
  unique = b.unique;
  size = omega (arith, a.size, b.size);
}

-- An entry after a completion.
abbrev pub completed : ℕ → Text → ℕ → Entry → Entry
completed number result' now e =
    if e.number == number then record e { result = result'; completed_at = some now } else e

pub lookup-complete :
    (number : ℕ) (result' : Text) (now : ℕ) (m : Entries) (k : Text)
    → lookup k (complete number result' now m)
      ≡ elim (lookup k m) [ none ↦ none | some e ↦ some (completed number result' now e) ]
unfolding complete lookup
lookup-complete number result' now [] k = refl
lookup-complete number result' now ((j, e) ∷ m) k = elim (Bool-cases (same j k)) [
  | inl this ↦ rw (this, lookup) (ground (arith, this))
  | inr other ↦ ground (arith, other, lookup-complete number result' now m k)
]

pub complete-Unique :
    (number : ℕ) (result' : Text) (now : ℕ) (m : Entries)
    → Unique m
    → Unique (complete number result' now m)
unfolding complete
complete-Unique number result' now [] u = tt
complete-Unique number result' now ((j, e) ∷ m) (fresh, u) = (
  ground (arith, lookup-complete number result' now m j, fresh),
  complete-Unique number result' now m u,
)

pub length-complete :
    (number : ℕ) (result' : Text) (now : ℕ) (m : Entries)
    → length (complete number result' now m) ≡ length m
unfolding complete
length-complete number result' now [] = refl
length-complete number result' now ((j, e) ∷ m) = ap suc (length-complete number result' now m)

abbrev pub new_entry : ℕ → Entry
new_entry number = record { number = number; result = []; completed_at = none }

-- Where a call starts to execute with an entry, its key had none, and the cache had room.
pub record Started (limits : Limits) (m m' : Entries) (key : Text) (number : ℕ) : Type 0 where
  pub base : Entries
  pub is_kept : IsKept m base
  pub room : length base < limits.limit
  pub absent : lookup key base ≡ none
  pub added : m' ≡ insert key (new_entry number) base

module _ {R : Type 0} (decode : Text → Option R) (limits : Limits) where
  pub acquire-start :
      (now : ℕ) (key : Text) (number : ℕ) (m m' : Entries)
      → Unique m
      → length m ≤ limits.limit
      → acquire decode limits now key number m ≡ (m', start)
      → Started limits m m' key number
  unfolding acquire
  acquire-start now key number m m' u le h =
      let live = remove_expired limits.ttl now m in
      let kept = remove_expired-IsKept limits.ttl now m u in
      elim (Option-cases (lookup key live)) [
        | inr (e, found) ↦ absurd (ground (arith, found))
        | inl gone ↦ elim (Bool-cases (leb limits.limit (length live))) [
          | inr room ↦ record {
            base = live;
            is_kept = kept;
            room = ground (arith, room);
            absent = gone;
            added = ground (arith, gone, room);
          }
          | inl full ↦ elim (Option-cases (remove_oldest_completed live)) [
            | inl stuck ↦ absurd (ground (arith, gone, full, stuck))
            | inr (rest, removed) ↦
                let (kept', less) = remove_oldest-IsKept live rest kept.unique removed in
                record {
                  base = rest;
                  is_kept = IsKept-trans m live rest kept kept';
                  room = omega (arith, kept.size);
                  absent = elim (Option-cases (lookup key rest)) [
                    | inl none_there ↦ none_there
                    | inr (e, there) ↦ absurd (ground (arith, gone, kept'.from key e there))
                  ];
                  added = ground (arith, gone, full, removed);
                }
          ]
        ]
      ]

  pub acquire-other :
      (now : ℕ) (key : Text) (number : ℕ) (m m' : Entries) (o : Outcome R)
      → Unique m
      → acquire decode limits now key number m ≡ (m', o)
      → o ≢ start
      → IsKept m m'
  unfolding acquire
  acquire-other now key number m m' o u h other =
      let same_live : remove_expired limits.ttl now m ≡ m' = ground arith in
      rw (← same_live) (remove_expired-IsKept limits.ttl now m u)

  pub acquire-undecodable :
      (now : ℕ) (key : Text) (number : ℕ) (m m' : Entries)
      → Unique m
      → acquire decode limits now key number m ≡ (m', undecodable)
      → (e : Entry) × (at : ℕ) × (lookup key m ≡ some e)
        × (e.completed_at ≡ some at)
        × (decode e.result ≡ none)
  unfolding acquire
  acquire-undecodable now key number m m' u h =
      elim (Option-cases (lookup key (remove_expired limits.ttl now m))) [
        | inl gone ↦ absurd (ground (arith, gone))
        | inr (e, found) ↦ elim (Option-cases e.completed_at) [
          | inl open_ ↦ absurd (ground (arith, found, open_))
          | inr (at, done) ↦ (
            e,
            at,
            (remove_expired-IsKept limits.ttl now m u).from key e found,
            done,
            ground (arith, found, done),
          )
        ]
      ]
