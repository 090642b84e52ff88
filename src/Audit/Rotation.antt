-- ===== src/Audit/Rotation.antt =====
-- `rotate` of internal/app/audit.go: what happens to the log and its backups.
use mathlib.Core.List.{append-nil, append_cancel_left}
use chat2work_mcp.Prelude.{
  ℕ, zero, suc, ◌-◌, ◌≤◌, ◌<◌, ◌≡◌, ◌≢◌, ◌∙◌, ◌⊎◌, inl, inr, refl, sym, ap, arith, true, Option,
  none, some, [], ◌∷◌, ◌++◌, Bool-cases, Option-cases, leb, ltb, Text, codes, ok,
}
use chat2work_mcp.Prelude.Int.{ℤ, pos, negsuc, is_pos, pos_part}
use chat2work_mcp.Prelude.Decimal.{decimal, decimal-injective}
use chat2work_mcp.Audit.Log.{LogOs, Auditor, slot, open_auditor, shift, backed_up, rotate}

-- Package os where no call fails that need not: `content` is the content of the file at a path.
pub record IsReliable {D : Type 0} (os : LogOs D) (content : D → Text → Option Text) : Type 0 where
  pub close : (d : D) (p q : Text) → content (os.close_log p d) q ≡ content d q
  pub removed : (d : D) (p : Text) → content (os.remove_log p d) p ≡ none
  pub remove_others : (d : D) (p q : Text) → q ≢ p → content (os.remove_log p d) q ≡ content d q
  pub renamed :
      (d : D) (a b bytes : Text)
      → a ≢ b
      → content d a ≡ some bytes
      → content (os.rename_log a b d) b ≡ some bytes
  pub vacated : (d : D) (a b : Text) → a ≢ b → content (os.rename_log a b d) a ≡ none
  pub rename_missing :
      (d : D) (a b q : Text) → content d a ≡ none → content (os.rename_log a b d) q ≡ content d q
  pub rename_others :
      (d : D) (a b q : Text) → q ≢ a → q ≢ b → content (os.rename_log a b d) q ≡ content d q
  pub opened :
      (d : D) (p : Text)
      → content d p ≡ none
      → ((os.open_log p d).0 ≡ ok 0) × (content (os.open_log p d).1 p ≡ some [])
  pub open_others : (d : D) (p q : Text) → q ≢ p → content (os.open_log p d).1 q ≡ content d q

Nat-cases : (i : ℕ) → (i ≡ 0) ⊎ ((k : ℕ) × (i ≡ suc k))
Nat-cases zero = inl refl
Nat-cases (suc k) = inr (k, refl)

pub positive : (n : ℤ) → is_pos n ≡ true → (m : ℕ) × (n ≡ pos (suc m))
positive (pos zero) h = absurd (ground (arith, h))
positive (pos (suc m)) h = (m, refl)
positive (negsuc m) h = absurd (ground (arith, h))

path_ne : (path : Text) (c : ℕ) (more : Text) → path ≢ path ++ c ∷ more
path_ne path c more e =
    let longer : [] ≡ c ∷ more = append_cancel_left path [] (c ∷ more) (append-nil path ∙ e) in cc

-- The paths of the log and its backups all differ.
slot-injective : (path : Text) (i j : ℕ) → slot path i ≡ slot path j → i ≡ j
unfolding slot
slot-injective path zero zero e = refl
slot-injective path zero (suc j) e = absurd (path_ne path b'.' (decimal (suc j)) e)
slot-injective path (suc i) zero e = absurd (path_ne path b'.' (decimal (suc i)) (sym e))
slot-injective path (suc i) (suc j) e =
    let tails : codes "." ++ decimal (suc i) ≡ codes "." ++ decimal (suc j) =
      append_cancel_left path (codes "." ++ decimal (suc i)) (codes "." ++ decimal (suc j)) e in
    decimal-injective (suc i) (suc j)
      (append_cancel_left (codes ".") (decimal (suc i)) (decimal (suc j)) tails)

slot_ne : (path : Text) (i j : ℕ) → i ≢ j → slot path i ≢ slot path j
slot_ne path i j ne e = ne (slot-injective path i j e)

module _ {D : Type 0} (os : LogOs D) (content : D → Text → Option Text)
    (reliable : IsReliable os content) where
  -- A rename to a free path takes what is there, or leaves the path free.
  rename-free :
      (d : D) (a b : Text)
      → a ≢ b
      → content d b ≡ none
      → content (os.rename_log a b d) b ≡ content d a
  rename-free d a b ne free = elim (Option-cases (content d a)) [
    | inl missing ↦ reliable.rename_missing d a b b missing ∙ free ∙ sym missing
    | inr (bytes, here) ↦ reliable.renamed d a b bytes ne here ∙ sym here
  ]

  -- The first `k` backups have moved up by one.
  record IsShifted (path : Text) (k : ℕ) (d d' : D) : Type 0 where
    first : content d' (slot path 1) ≡ none
    moved : (i : ℕ) → 1 ≤ i → i ≤ k → content d' (slot path (suc i)) ≡ content d (slot path i)
    others :
        (q : Text) → ((j : ℕ) → 1 ≤ j → j ≤ suc k → q ≢ slot path j) → content d' q ≡ content d q

  shift-IsShifted :
      (path : Text) (k : ℕ) (d : D)
      → content d (slot path (suc k)) ≡ none
      → IsShifted path k d (shift os path k d)
  unfolding shift
  shift-IsShifted path zero d free = record {
    first = free;
    moved = λ i low high. absurd (omega (arith, low, high));
    others = λ q h. refl;
  }
  shift-IsShifted path (suc k) d free =
      let a : Text = slot path (suc k) in
      let b : Text = slot path (suc (suc k)) in
      let a_ne_b : a ≢ b = slot_ne path (suc k) (suc (suc k)) (λ e. omega (arith, e)) in
      let d1 : D = os.rename_log a b d in
      let ih = shift-IsShifted path k d1 (reliable.vacated d a b a_ne_b) in
      record {
        first = ih.first;
        moved = λ i low high. elim (Bool-cases (leb i k)) [
          | inl small ↦
              ih.moved i low (ground (arith, small))
              ∙ reliable.rename_others d a b (slot path i)
                  (slot_ne path i (suc k) (λ e. ground (arith, small, e)))
                  (slot_ne path i (suc (suc k)) (λ e. ground (arith, small, e)))
          | inr large ↦
              let last : i ≡ suc k = ground (arith, large, high) in
              rw last (
                ih.others b
                  (λ j low' high'. slot_ne path (suc (suc k)) j (λ e. omega (arith, e, high')))
                ∙ rename-free d a b a_ne_b free)
        ];
        others = λ q apart.
            ih.others q (λ j low high. apart j low (omega (arith, high)))
            ∙ reliable.rename_others d a b q (apart (suc k) (omega arith) (omega arith))
                (apart (suc (suc k)) (omega arith) (omega arith));
      }

  -- The log has become the first of the `n` backups, and each backup the next.
  pub record IsRotated (path : Text) (n : ℕ) (d d' : D) : Type 0 where
    pub moved : (i : ℕ) → i < n → content d' (slot path (suc i)) ≡ content d (slot path i)
    pub others : (q : Text) → ((j : ℕ) → j ≤ n → q ≢ slot path j) → content d' q ≡ content d q

  -- the calls of `backed_up` with backups
  abbrev renamed_all : Text → ℕ → D → D
  renamed_all path m d =
      os.rename_log path (slot path 1) (shift os path m (os.remove_log (slot path (suc m)) d))

  backed_up-eq :
      (path : Text) (m : ℕ) (d : D) → backed_up os path (pos (suc m)) d ≡ renamed_all path m d
  unfolding backed_up
  backed_up-eq path m d =
      let keeps : ltb 0 (suc m) ≡ true = ground arith in
      let before : suc m - 1 ≡ m = omega arith in rw (keeps, before) refl

  renamed_all-IsRotated :
      (path : Text) (m : ℕ) (d : D)
      → (content (renamed_all path m d) path ≡ none)
        × IsRotated path (suc m) d (renamed_all path m d)
  unfolding slot
  renamed_all-IsRotated path m d =
      let oldest : Text = slot path (suc m) in
      let d1 : D = os.remove_log oldest d in
      let s = shift-IsShifted path m d1 (reliable.removed d oldest) in
      let d2 : D = shift os path m d1 in
      let apart : path ≢ slot path 1 = slot_ne path 0 1 (λ e. omega (arith, e)) in
      (
        reliable.vacated d2 path (slot path 1) apart,
        record {
          moved = λ i low. elim (Nat-cases i) [
            | inl none_left ↦ rw none_left (
                rename-free d2 path (slot path 1) apart s.first
                ∙ s.others path (λ j low' _. slot_ne path 0 j (λ e. omega (arith, e, low')))
                ∙ reliable.remove_others d oldest path
                    (slot_ne path 0 (suc m) (λ e. omega (arith, e))))
            | inr (k, next) ↦
                reliable.rename_others d2 path (slot path 1) (slot path (suc i))
                  (slot_ne path (suc i) 0 (λ e. omega (arith, e)))
                  (slot_ne path (suc i) 1 (λ e. omega (arith, e, next)))
                ∙ s.moved i (omega (arith, next)) (omega (arith, low))
                ∙ reliable.remove_others d oldest (slot path i)
                    (slot_ne path i (suc m) (λ e. omega (arith, e, low)))
          ];
          others = λ q far.
              reliable.rename_others d2 path (slot path 1) q (far 0 (omega arith))
                (far 1 (omega arith))
              ∙ s.others q (λ j low high. far j high)
              ∙ reliable.remove_others d oldest q (far (suc m) (omega arith));
        },
      )

  pub backed_up-IsRotated :
      (path : Text) (m : ℕ) (d : D)
      → (content (backed_up os path (pos (suc m)) d) path ≡ none)
        × IsRotated path (suc m) d (backed_up os path (pos (suc m)) d)
  backed_up-IsRotated path m d = rw (backed_up-eq path m d) (renamed_all-IsRotated path m d)

  rotate-open :
      (a : Auditor) (m : ℕ) (d : D)
      → a.max_backups ≡ pos (suc m)
      → ((rotate os a d).0.is_open ≡ true)
        × ((rotate os a d).0.size ≡ 0)
        × (content (rotate os a d).1 a.log_path ≡ some [])
        × IsRotated a.log_path (suc m) d (rotate os a d).1
  unfolding rotate open_auditor slot
  rotate-open a m d backups =
      let path : Text = a.log_path in
      let d0 : D = os.close_log path d in
      let d1 : D = backed_up os path (pos (suc m)) d0 in
      let (gone, r) = backed_up-IsRotated path m d0 in
      let (empty, there) = reliable.opened d1 path gone in
      rw backups (
        rw empty (
          refl,
          refl,
          there,
          record {
            moved = λ i low.
                reliable.open_others d1 path (slot path (suc i))
                  (slot_ne path (suc i) 0 (λ e. omega (arith, e)))
                ∙ r.moved i low
                ∙ reliable.close d path (slot path i);
            others = λ q far.
                reliable.open_others d1 path q (far 0 (omega arith))
                ∙ r.others q far
                ∙ reliable.close d path q;
          },
        ))

  -- Where the log keeps backups and no call of package os fails that need not, `rotate` leaves an open
  -- and empty log; the log has become the first backup and each backup the next, up to `maxBackups`,
  -- whose old content is gone; and no other file has changed.
  pub rotate-IsRotated :
      (a : Auditor) (d : D)
      → is_pos a.max_backups ≡ true
      → ((rotate os a d).0.is_open ≡ true)
        × ((rotate os a d).0.size ≡ 0)
        × (content (rotate os a d).1 a.log_path ≡ some [])
        × IsRotated a.log_path (pos_part a.max_backups) d (rotate os a d).1
  rotate-IsRotated a d keeps =
      let (m, backups) = positive a.max_backups keeps in
      let (is_open, empty, there, r) = rotate-open a m d backups in
      let kept : pos_part a.max_backups ≡ suc m = ap pos_part backups in
      (is_open, empty, there, rw kept r)
