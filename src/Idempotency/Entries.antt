-- ===== src/Idempotency/Entries.antt =====
-- What the removals of internal/app/idempotency.go take away, and what they leave.
use chat2work_mcp.Prelude.{
  ℕ, ◌≤◌, ◌≡◌, refl, ◌⊎◌, inl, inr, Option, none, some, [], ◌∷◌, arith, ltb, if◌then◌else◌,
  Bool-cases, Option-cases, length, Text, same, same_iff,
}
use chat2work_mcp.Prelude.Map.{text_key, lookup, delete, Unique}
use chat2work_mcp.Idempotency.{
  Entry, Entries, is_expired, remove_expired, older, oldest_completed, remove_oldest_completed,
}

-- What is found after the removal was there, and is not expired; what is not expired is still found.
pub lookup-remove_expired :
    (ttl now : ℕ) (m : Entries) (k : Text)
    → Unique m
    → lookup k (remove_expired ttl now m)
      ≡ elim (lookup k m) [ none ↦ none | some e ↦ if is_expired ttl now e then none else some e ]
unfolding remove_expired lookup
lookup-remove_expired ttl now [] k u = refl
lookup-remove_expired ttl now ((j, e) ∷ m) k (fresh, u) =
    ground (arith, lookup-remove_expired ttl now m k u, same_iff j k)

pub remove_expired-Unique :
    (ttl now : ℕ) (m : Entries) → Unique m → Unique (remove_expired ttl now m)
unfolding remove_expired
remove_expired-Unique ttl now [] u = tt
remove_expired-Unique ttl now ((j, e) ∷ m) (fresh, u) =
    ground (arith, remove_expired-Unique ttl now m u, lookup-remove_expired ttl now m j u)

pub length-remove_expired :
    (ttl now : ℕ) (m : Entries) → length (remove_expired ttl now m) ≤ length m
unfolding remove_expired
length-remove_expired ttl now [] = omega arith
length-remove_expired ttl now ((j, e) ∷ m) = ground (arith, length-remove_expired ttl now m)

older-some :
    (best : Option (Text × ℕ)) (j k : Text) (c : Option ℕ) (at : ℕ)
    → older best j c ≡ some (k, at)
    → (best ≡ some (k, at)) ⊎ ((j ≡ k) × (c ≡ some at))
unfolding older
older-some best j k none at h = inl h
older-some none j k (some t) at h = inr (cc, cc)
older-some (some (b, oldest)) j k (some t) at h = elim (Bool-cases (ltb t oldest)) [
  | inl e ↦ inr (ground (arith, e), ground (arith, e))
  | inr e ↦ inl (ground (arith, e))
]

-- The key that the loop ends with has a completed entry, or is the one that it started with.
oldest_completed-found :
    (best : Option (Text × ℕ)) (m : Entries) (k : Text) (at : ℕ)
    → Unique m
    → oldest_completed best m ≡ some (k, at)
    → (best ≡ some (k, at)) ⊎ ((e : Entry) × (lookup k m ≡ some e) × (e.completed_at ≡ some at))
unfolding oldest_completed lookup
oldest_completed-found best [] k at u h = inl h
oldest_completed-found best ((j, e) ∷ m) k at (fresh, u) h =
    elim (oldest_completed-found (older best j e.completed_at) m k at u h) [
      | inr (f, found, done) ↦ inr (f, ground (arith, same_iff j k), done)
      | inl here ↦ elim (older-some best j k e.completed_at at here) [
        | inl start ↦ inl start
        | inr (same_key, done) ↦ inr (e, ground (arith, same_iff j k), done)
      ]
    ]

-- The loop's result is at most as old as `at`.
abbrev AtMost : Option (Text × ℕ) → ℕ → Type 0
AtMost none at = ⊥
AtMost (some (k, oldest)) at = oldest ≤ at

older-AtMost :
    (best : Option (Text × ℕ)) (j : Text) (c : Option ℕ) (at : ℕ)
    → AtMost best at
    → AtMost (older best j c) at
unfolding older
older-AtMost none j c at h = elim h [ ]
older-AtMost (some (b, oldest)) j none at h = h
older-AtMost (some (b, oldest)) j (some t) at h = ground arith

older-AtMost_self : (best : Option (Text × ℕ)) (j : Text) (t : ℕ) → AtMost (older best j (some t)) t
unfolding older
older-AtMost_self none j t = omega arith
older-AtMost_self (some (b, oldest)) j t = ground arith

oldest_completed-AtMost :
    (best : Option (Text × ℕ)) (m : Entries) (at : ℕ)
    → AtMost best at
    → AtMost (oldest_completed best m) at
unfolding oldest_completed
oldest_completed-AtMost best [] at h = h
oldest_completed-AtMost best ((j, e) ∷ m) at h =
    oldest_completed-AtMost (older best j e.completed_at) m at
      (older-AtMost best j e.completed_at at h)

oldest_completed-le :
    (best : Option (Text × ℕ)) (m : Entries) (k : Text) (e : Entry) (at : ℕ)
    → lookup k m ≡ some e
    → e.completed_at ≡ some at
    → AtMost (oldest_completed best m) at
unfolding oldest_completed lookup
oldest_completed-le best [] k e at found done = absurd (ground arith)
oldest_completed-le best ((j, f) ∷ m) k e at found done = elim (Bool-cases (same j k)) [
  | inr other ↦
      oldest_completed-le (older best j f.completed_at) m k e at (ground (arith, other)) done
  | inl this ↦
      let when : f.completed_at ≡ some at = ground (arith, this) in
      rw when (oldest_completed-AtMost (older best j (some at)) m at (older-AtMost_self best j at))
]

-- Where `removeOldestCompleted` removes, it removes one completed entry, and none is older.
pub remove_oldest-some :
    (m rest : Entries)
    → Unique m
    → remove_oldest_completed m ≡ some rest
    → (k : Text) × (e : Entry) × (at : ℕ) × (lookup k m ≡ some e)
      × (e.completed_at ≡ some at)
      × (rest ≡ delete k m)
      × ((j : Text) (f : Entry) (t : ℕ) → lookup j m ≡ some f → f.completed_at ≡ some t → at ≤ t)
unfolding remove_oldest_completed
remove_oldest-some m rest u h = elim (Option-cases (oldest_completed none m)) [
  | inl e ↦ absurd (ground (arith, e))
  | inr ((k, at), e) ↦ elim (oldest_completed-found none m k at u e) [
    | inl impossible ↦ absurd (ground arith)
    | inr (f, found, done) ↦ (
      k,
      f,
      at,
      found,
      done,
      ground (arith, e),
      λ j g t there when. rw e at (oldest_completed-le none m j g t there when),
    )
  ]
]
