-- ===== src/Paths/Cleaning.antt =====
-- What filepath.Clean leaves of a relative path, and what filepath.Join and filepath.Rel make of it.
use mathlib.Core.List.{reverse, reverse-append, reverse-reverse, append_assoc}
use chat2work_mcp.Prelude.{
  ◌≡◌, ◌≢◌, refl, ap, ◌⊎◌, inl, inr, Bool, true, false, List, [], ◌∷◌, ◌++◌, arith, Bool-cases,
  Text, same, same_iff, same_refl, All, All-append, split,
}
use chat2work_mcp.Paths.{dot, dotdot, clean_step, clean_steps, clean, join, rel, escapes}

-- A component that names a file: neither empty nor "." nor "..".
abbrev pub IsName : Text → Type 0
IsName part = (part ≢ []) × (part ≢ dot) × (part ≢ dotdot)

-- The names of a relative path stand above its leading "..".
abbrev IsStack : List Text → Type 0
IsStack [] = Unit
IsStack (part ∷ kept) =
    (IsName part × IsStack kept) ⊎ ((part ≡ dotdot) × All (λ c. c ≡ dotdot) kept)

All-IsStack : (kept : List Text) → All (λ c. c ≡ dotdot) kept → IsStack kept
All-IsStack [] h = tt
All-IsStack (part ∷ kept) (e, h) = inr (e, h)

IsStack-All : (kept : List Text) → IsStack (dotdot ∷ kept) → All (λ c. c ≡ dotdot) kept
IsStack-All kept (inl ((_, _, h), _)) = absurd (h refl)
IsStack-All kept (inr (_, h)) = h

IsStack-tail : (part : Text) (kept : List Text) → IsStack (part ∷ kept) → IsStack kept
IsStack-tail part kept (inl (_, h)) = h
IsStack-tail part kept (inr (_, h)) = All-IsStack kept h

clean_step-IsStack :
    (kept : List Text) (part : Text) → IsStack kept → IsStack (clean_step false kept part)
unfolding clean_step
clean_step-IsStack [] part h =
    ground (arith, same_iff part [], same_iff part dot, same_iff part dotdot)
clean_step-IsStack (top ∷ kept) part h = ground (
  arith,
  same_iff part [],
  same_iff part dot,
  same_iff part dotdot,
  same_iff top dotdot,
  IsStack-tail top kept h,
)

clean_steps-IsStack :
    (kept parts : List Text) → IsStack kept → IsStack (clean_steps false kept parts)
unfolding clean_steps
clean_steps-IsStack kept [] h = h
clean_steps-IsStack kept (part ∷ rest) h =
    clean_steps-IsStack (clean_step false kept part) rest (clean_step-IsStack kept part h)

All-reverse : (P : Text → Type 0) (xs : List Text) → All P xs → All P (reverse xs)
All-reverse P [] h = tt
All-reverse P (x ∷ xs) (hx, h) =
    rw (reverse-append (x ∷ []) xs)
      (All-append P (reverse xs) (x ∷ []) (All-reverse P xs h) (hx, tt))

escapes-append : (xs ys : List Text) → escapes xs ≡ true → escapes (xs ++ ys) ≡ true
unfolding escapes
escapes-append [] ys h = cc
escapes-append (x ∷ xs) ys h = h

escapes-dotdots : (xs : List Text) → All (λ c. c ≡ dotdot) xs → escapes (xs ++ dotdot ∷ []) ≡ true
unfolding escapes
escapes-dotdots [] h = same_refl dotdot
escapes-dotdots (x ∷ xs) (e, _) = (same_iff x dotdot).1 e

-- A stack whose path does not begin with ".." holds no ".." at all.
names_of_stack :
    (kept : List Text) → IsStack kept → escapes (reverse kept) ≡ false → All IsName kept
names_of_stack [] h e = tt
names_of_stack (part ∷ kept) (inl (name, h)) e = (
  name,
  names_of_stack kept h (
      ground (
        arith,
        escapes-append (reverse kept) (part ∷ []),
        ap escapes (reverse-append (part ∷ []) kept),
      )),
)
names_of_stack (part ∷ kept) (inr (is_up, h)) e = absurd (
    ground (
      arith,
      ap escapes (reverse-append (part ∷ []) kept),
      is_up,
      escapes-dotdots (reverse kept) (All-reverse (λ c. c ≡ dotdot) kept h),
    ))

-- A cleaned relative path that does not begin with ".." is made of names.
pub clean-names :
    (path : Text)
    → (clean path).rooted ≡ false
    → escapes (clean path).parts ≡ false
    → All IsName (clean path).parts
unfolding clean
clean-names path r e =
    let kept : List Text = clean_steps false [] (split b'/' path) in
    rw r (
      All-reverse IsName kept
        (names_of_stack kept (clean_steps-IsStack [] (split b'/' path) tt) (rw r at e)))

clean_step-name :
    (rooted : Bool) (kept : List Text) (part : Text)
    → IsName part
    → clean_step rooted kept part ≡ part ∷ kept
unfolding clean_step
clean_step-name rooted [] part (a, b, c) =
    ground (arith, same_iff part [], same_iff part dot, same_iff part dotdot)
clean_step-name rooted (top ∷ kept) part (a, b, c) =
    ground (arith, same_iff part [], same_iff part dot, same_iff part dotdot)

clean_steps-names :
    (rooted : Bool) (kept parts : List Text)
    → All IsName parts
    → clean_steps rooted kept parts ≡ reverse parts ++ kept
unfolding clean_steps
clean_steps-names rooted kept [] h = refl
clean_steps-names rooted kept (part ∷ rest) (name, h) = rw (
  clean_step-name rooted kept part name,
  clean_steps-names rooted (part ∷ kept) rest h,
  reverse-append (part ∷ []) rest,
  append_assoc,
)

-- Joining names to a directory puts them behind it.
pub join-names : (root parts : List Text) → All IsName parts → join root parts ≡ root ++ parts
unfolding join
join-names root parts h = rw (
  clean_steps-names true (reverse root) parts h,
  reverse-append (reverse parts) (reverse root),
  reverse-reverse,
  reverse-reverse,
)

-- A path below the base is reached by its own names.
pub rel-append : (root parts : List Text) → rel root (root ++ parts) ≡ parts
unfolding rel
rel-append [] parts = refl
rel-append (x ∷ root) parts = rw same_refl (rel-append root parts)

-- A target that is reached without going up lies below the base.
pub rel-within :
    (root target : List Text)
    → escapes (rel root target) ≡ false
    → (rest : List Text) × (target ≡ root ++ rest)
unfolding rel escapes
rel-within [] target h = (target, refl)
rel-within (b ∷ base) [] h = absurd (ground (arith, same_refl dotdot))
rel-within (b ∷ base) (t ∷ target) h = elim (Bool-cases (same b t)) [
  | inl e ↦
      let (rest, below) = rel-within base target (rw e at h) in
      (rest, ground (arith, below, same_iff b t))
  | inr e ↦ absurd (ground (arith, same_refl dotdot))
]
