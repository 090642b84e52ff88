-- ===== src/Audit/Size.antt =====
-- `Record` of internal/app/audit.go: the size of the log.
use chat2work_mcp.Prelude.{
  ℕ, zero, suc, ◌+◌, ◌≤◌, ◌≡◌, refl, inl, inr, arith, true, false, not, ◌||◌, ◌++◌, ◌∷◌, [], Option,
  none, some, Option-cases, List, Bool-cases, length, length-append, take, Text,
}
use chat2work_mcp.Prelude.Int.{ℤ, pos, negsuc, is_pos, pos_part, ltb_ℤ}
use chat2work_mcp.Audit.{AuditEvent}
use chat2work_mcp.Audit.Log.{
  LogOs, Auditor, open_auditor, backed_up, rotate, appended, record_line, record_event,
}
use chat2work_mcp.Audit.Rotation.{IsReliable, positive, backed_up-IsRotated}

fitting :
    (max : ℤ) (n m : ℕ) → is_pos max ≡ true → ltb_ℤ max (pos n) ≡ false → m ≤ n → m ≤ pos_part max
fitting (pos b) n m positive fits le = ground (arith, fits, le)
fitting (negsuc b) n m positive fits le = absurd (ground (arith, positive))

length-take : {A : Type 0} (n : ℕ) (xs : List A) → n ≤ length xs → length (take n xs) ≡ n
length-take zero xs h = refl
length-take (suc n) [] h = absurd (omega (arith, h))
length-take (suc n) (x ∷ xs) h = let ih = length-take n xs (omega (arith, h)) in omega (arith, ih)

-- A write with O_APPEND adds to the end of the file as much of the line as it reports.
pub record IsAppending {D : Type 0} (os : LogOs D) (content : D → Text → Option Text) : Type 0 where
  pub part : (d : D) (p line : Text) → (os.append p line d).0 ≤ length line
  pub added :
      (d : D) (p line bytes : Text)
      → content d p ≡ some bytes
      → content (os.append p line d).1 p ≡ some (bytes ++ take (os.append p line d).0 line)

module _ {D : Type 0} (os : LogOs D) (content : D → Text → Option Text)
    (reliable : IsReliable os content) (appending : IsAppending os content) where
  -- The log at `path` is open, the auditor's size is that of the file, and it is at most `max`.
  abbrev pub IsTracked : Text → ℤ → Auditor → D → Type 0
  IsTracked path max a d =
      (a.log_path ≡ path)
      × (a.max_bytes ≡ max)
      × (a.is_open ≡ true)
      × (bytes : Text) × (content d path ≡ some bytes)
      × (length bytes ≡ a.size)
      × (a.size ≤ pos_part max)

  appended-IsTracked :
      (line : Text) (a : Auditor) (d : D) (bytes : Text)
      → a.is_open ≡ true
      → content d a.log_path ≡ some bytes
      → length bytes ≡ a.size
      → a.size + length line ≤ pos_part a.max_bytes
      → IsTracked a.log_path a.max_bytes (appended os line (a, d)).0 (appended os line (a, d)).1
  appended-IsTracked line a d bytes writable here size fits =
      let written : ℕ = (os.append a.log_path line d).0 in
      let part = appending.part d a.log_path line in
      let cut = length-take written line part in
      rw writable (
        refl,
        refl,
        refl,
        bytes ++ take written line,
        appending.added d a.log_path line bytes here,
        omega (arith, length-append bytes (take written line), cut, size),
        omega (arith, part, fits),
      )

  gone :
      (path : Text) (max_backups : ℤ) (d : D)
      → content (backed_up os path max_backups d) path ≡ none
  unfolding backed_up
  gone path max_backups d = elim (Bool-cases (is_pos max_backups)) [
    | inl keeps ↦
        let (m, backups) = positive max_backups keeps in
        rw backups ((backed_up-IsRotated os content reliable path m d).0)
    | inr drops ↦ rw drops (reliable.removed d path)
  ]

  rotate-IsTracked :
      (line : Text) (a : Auditor) (d : D)
      → length line ≤ pos_part a.max_bytes
      → IsTracked a.log_path a.max_bytes
          (appended os line (rotate os a d)).0
          (appended os line (rotate os a d)).1
  unfolding rotate open_auditor
  rotate-IsTracked line a d short =
      let d1 : D = backed_up os a.log_path a.max_backups (os.close_log a.log_path d) in
      let (empty, there) =
        reliable.opened d1 a.log_path (gone a.log_path a.max_backups (os.close_log a.log_path d)) in
      rw empty (
        appended-IsTracked line (record a { is_open = true; size = 0 })
          (os.open_log a.log_path d1).1 [] refl there refl (omega (arith, short)))

  record_line-IsTracked :
      (line : Text) (a : Auditor) (d : D)
      → is_pos a.max_bytes ≡ true
      → length line ≤ pos_part a.max_bytes
      → IsTracked a.log_path a.max_bytes a d
      → IsTracked a.log_path a.max_bytes (record_line os line a d).0 (record_line os line a d).1
  unfolding record_line
  record_line-IsTracked line a d limited short (_, _, writable, bytes, here, size, _) =
      elim (Bool-cases (ltb_ℤ a.max_bytes (pos (a.size + length line)))) [
        | inl full ↦ rw (limited, full) (rotate-IsTracked line a d short)
        | inr fits ↦
            rw (limited, fits)
              (appended-IsTracked line a d bytes writable here size
                (fitting a.max_bytes (a.size + length line) _ limited fits (omega arith)))
      ]

  -- No call of package os fails that need not, and an append adds what it reports. The log has a positive
  -- limit, which no line alone exceeds. If it is open, the auditor's size is that of the file and the
  -- file is within the limit, then `Record` leaves it so, for any event: the log file never grows past
  -- the limit.
  pub record_event-IsTracked :
      (marshal : AuditEvent → Option Text) (event : AuditEvent) (a : Auditor) (d : D)
      → is_pos a.max_bytes ≡ true
      → ((event : AuditEvent) (line : Text)
          → marshal event ≡ some line
          → length line + 1 ≤ pos_part a.max_bytes)
      → IsTracked a.log_path a.max_bytes a d
      → IsTracked a.log_path a.max_bytes
          (record_event os marshal event a d).0
          (record_event os marshal event a d).1
  unfolding record_event
  record_event-IsTracked marshal event a d limited short tracked =
      elim (Bool-cases (not a.enabled || not a.is_open)) [
        | inl idle ↦ rw idle tracked
        | inr active ↦ elim (Option-cases (marshal event)) [
          | inl unmarshalled ↦ rw (active, unmarshalled) tracked
          | inr (line, marshalled) ↦
              let small = short event line marshalled in
              rw (active, marshalled)
                (record_line-IsTracked (line ++ b'\n' ∷ []) a d limited
                  (omega (arith, length-append line (b'\n' ∷ []), small)) tracked)
        ]
      ]
