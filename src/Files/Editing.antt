-- ===== src/Files/Editing.antt =====
-- `Edit` of internal/app/files.go.
use mathlib.Core.List.{append_assoc}
use chat2work_mcp.Prelude.{
  ℕ, ◌≤◌, ◌<◌, ◌^◌, ◌-◌, ◌≡◌, ◌≢◌, ◌∙◌, sym, ap, true, false, Option, some, [], ◌∷◌, ◌++◌, arith,
  length, same, same_iff, has_prefix, Text, Result, ok, err, reject_if, tool, empty_old_text,
}
use chat2work_mcp.Prelude.Int.{pos_part}
use chat2work_mcp.Paths.{AbsPath, workspace_root}
use chat2work_mcp.Paths.Missing.{parts_of}
use chat2work_mcp.Quota.{Files}
use chat2work_mcp.Disk.{Os, Bytes, lift, ◌>>=◌}
use chat2work_mcp.Disk.Steps.{After, After-bind, After-imp}
use chat2work_mcp.Disk.Lawful.{Keeps, IsDirect, IsLawful, temp_prefix}
use chat2work_mcp.Disk.Keeping.{Keeps-refl, IsDirect-Keeps}
use chat2work_mcp.Files.{read_max, edited, read, write, edit}
use chat2work_mcp.Files.Occurrences.{IsOnly, edited-IsOnly}
use chat2work_mcp.Files.Opening.{After-lift}
use chat2work_mcp.Files.Replacing.{Replaced}
use chat2work_mcp.Files.Reading.{ReadFrom, read-ReadFrom}
use chat2work_mcp.Files.Writing.{Wrote, Replaced-after, write-Wrote}

module _ {D : Type 0} (os : Os D) (content : D → AbsPath → Option Bytes)
    (lawful : IsLawful os content) (fuel : ℕ) (f : Files) (root pre : AbsPath) (name path : Text)
    (old_text new_text : Bytes) where
  abbrev target : AbsPath
  target = (root ++ pre) ++ name ∷ []

  -- An occurrence of the old text that every other one overlaps has become the new text; or no file has
  -- changed.
  abbrev pub Edited : D → Result (Unit {0}) → D → Type 0
  Edited d (ok a) d' =
      (bytes : Bytes) × (bytes' : Bytes) × (content d target ≡ some bytes)
      × IsOnly old_text new_text bytes bytes'
      × Replaced os content lawful (root ++ pre) d target bytes' (ok a) d'
  Edited d (err e) d' = Replaced os content lawful (root ++ pre) d target [] (err e) d'

  -- from the state in which `Read` returned
  wrote-Edited :
      (d d1 d2 : D) (p : AbsPath) (bytes bytes' : Bytes) (r : Result (Unit {0}))
      → parts_of path ≡ pre ++ name ∷ []
      → (os.view d1).eval_symlinks (root ++ parts_of path) ≡ ok p
      → content d p ≡ some bytes
      → Keeps os content [] d d1
      → IsOnly old_text new_text bytes bytes'
      → Wrote os content lawful fuel f (root ++ pre) d1 target bytes' true r d2
      → Edited d r d2
  wrote-Edited d d1 d2 p bytes bytes' (ok a) at real here k only (small, new, direct, wrote) =
      let joined : root ++ parts_of path ≡ target =
        ap (λ (x : AbsPath). root ++ x) at ∙ sym (append_assoc root pre (name ∷ [])) in
      let same_path : p ≡ target = lawful.eval_direct d1 target p direct (rw joined at real) in
      (
        bytes,
        bytes',
        rw same_path at here,
        only,
        Replaced-after os content lawful fuel f d d1 d2 (root ++ pre) target bytes' (ok a) k wrote,
      )
  wrote-Edited d d1 d2 p bytes bytes' (err e) at real here k only wrote =
      Replaced-after os content lawful fuel f d d1 d2 (root ++ pre) target [] (err e) k wrote

  own-limit : read_max os fuel f f.max_bytes ≡ f.max_bytes
  own-limit = ground arith

  not-empty : reject_if (same old_text []) (tool empty_old_text) ≡ ok tt → old_text ≢ []
  not-empty given e = ground (arith, given, e, same_iff old_text [])

  -- Under the conditions of `Write`, and with a size limit below 2^63 - 1, `Edit` returns. If it
  -- succeeds, the target was a regular file with the old text at a place that every other occurrence of
  -- it overlaps, none starting before it; its content has the new text in that place and is the same
  -- before and behind it, and every other file has its old content. If it fails, no file has changed. The exceptions are files in the
  -- target's directory that were not there before.
  pub edit-Edited :
      (d : D) (tenant : Text)
      → workspace_root f.base tenant ≡ ok root
      → IsDirect (os.view d) root
      → parts_of path ≡ pre ++ name ∷ []
      → has_prefix temp_prefix name ≡ false
      → length (parts_of path) ≤ fuel
      → pos_part f.max_bytes < 2 ^ 63 - 1
      → After (edit os fuel f tenant path old_text new_text d) (Edited d)
  unfolding edit
  edit-Edited d tenant at direct parts visible enough small =
      After-lift (Edited d)
        (λ _. read os fuel f tenant path f.max_bytes >>= λ content.
          lift (edited old_text new_text content) >>= λ content'.
          write os fuel f tenant path content' true)
        d (reject_if (same old_text []) (tool empty_old_text))
        (λ _ given.
          After-bind
            (ReadFrom os content lawful fuel f root path (read_max os fuel f f.max_bytes) d)
            (Edited d) (read os fuel f tenant path f.max_bytes)
            (λ content. lift (edited old_text new_text content) >>= λ content'.
              write os fuel f tenant path content' true)
            d
            (read-ReadFrom os content lawful fuel f d tenant path f.max_bytes root at direct
              (rw own-limit small))
            (λ bytes d1 (p, inside, real, here, fits, k).
              After-lift (Edited d) (λ content'. write os fuel f tenant path content' true) d1
                (edited old_text new_text bytes)
                (λ bytes' e.
                  After-imp (Wrote os content lawful fuel f (root ++ pre) d1 target bytes' true)
                    (Edited d) (write os fuel f tenant path bytes' true d1)
                    (write-Wrote os content lawful fuel f d1 tenant path bytes' true root pre name
                      at (IsDirect-Keeps os content [] d d1 root k direct) parts visible enough)
                    (λ r d2 h.
                      wrote-Edited d d1 d2 p bytes bytes' r parts real here k
                        (edited-IsOnly old_text new_text bytes bytes' (not-empty given) e) h))
                (λ e _. ([], tt, k)))
            (λ e d1 k. ([], tt, k)))
        (λ e _. ([], tt, Keeps-refl os content d))
