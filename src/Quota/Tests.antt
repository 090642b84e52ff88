-- ===== src/Quota/Tests.antt =====
-- A workspace with two files, and caps of 100 bytes and 3 files.
use chat2work_mcp.Prelude.{
  ℕ, ◌+◌, ◌-◌, ◌≡◌, refl, true, false, none, some, List, [], ◌∷◌, ◌++◌, arith, if◌then◌else◌, ok,
  err, os, not_exist, inl, Result, ◌≢◌, storage_quota, file_count_quota, codes, same,
}
use chat2work_mcp.Prelude.Int.{pos, ◌+ℤ◌, ◌-ℤ◌, int64}
use chat2work_mcp.Paths.{AbsPath, FileInfo, same_path}
use chat2work_mcp.Paths.Parents.{same_path_iff}
use chat2work_mcp.Quota.{
  Files, Visit, counted, usage, usage_from, enforce_quota, check_office_output_allowed,
  check_output_sizes, usage_exact_excluding, exact_from,
}
use chat2work_mcp.Quota.Totals.{total, files, UnderCaps}
use chat2work_mcp.Quota.Writes.{enforce_quota-UnderCaps, enforce_quota-behind}
use chat2work_mcp.Quota.Outputs.{
  no_visits, file_visit, other_visit, Measures, output_allowed, check_office_output_allowed-exact,
}

abbrev file : ℕ → Visit
file n = record { path = codes "f" ∷ []; failed = false; is_dir = false; size = some n }

abbrev caps : ℕ → ℕ → Files
caps m n = record {
  base = [];
  max_bytes = pos 50;
  max_workspace_bytes = pos m;
  max_workspace_files = pos n;
  delete_enabled = false;
}

abbrev two : List Visit
two = file 30 ∷ file 40 ∷ []

enforce_quota_tests :
    (enforce_quota (caps 100 3) two 30 0 true ≡ ok tt)
    × (enforce_quota (caps 100 3) two 31 0 true ≡ err storage_quota)
    × (enforce_quota (caps 100 2) two 1 0 true ≡ err file_count_quota)
    × (enforce_quota (caps 100 2) two 60 40 false ≡ ok tt)
unfolding enforce_quota usage usage_from counted ◌+ℤ◌ ◌-ℤ◌ int64
enforce_quota_tests = (refl, refl, refl, refl)

two-total : total none two ≡ 70
unfolding total counted
two-total = refl

two-files : files none two ≡ 2
unfolding files counted
two-files = refl

accepted : enforce_quota (caps 100 3) two 30 0 true ≡ ok tt
accepted = enforce_quota_tests.0

enforce_quota-UnderCaps_example :
    UnderCaps (caps 100 3) (total none two - 0 + 30) (files none two + (if true then 1 else 0))
enforce_quota-UnderCaps_example =
    enforce_quota-UnderCaps (caps 100 3) two (omega (arith, two-total)) (omega (arith, two-files))
      30 0 true (ground (arith, two-total), ground (arith, two-files)) (omega (arith, two-total))
      (omega (arith, two-total)) accepted

shrunk : enforce_quota (caps 60 3) two 10 40 false ≡ ok tt
unfolding enforce_quota usage usage_from counted ◌+ℤ◌ ◌-ℤ◌ int64
shrunk = refl

abbrev one : List Visit
one = file 30 ∷ []

one-total : total none one ≡ 30
unfolding total counted
one-total = refl

one-files : files none one ≡ 1
unfolding files counted
one-files = refl

counted_forty : counted none (file 40) ≡ some 40
unfolding counted
counted_forty = refl

-- 1000 bytes more than the cap stand behind.
enforce_quota-behind_example :
    enforce_quota (caps 100 1) (one ++ file 40 ∷ file 1100 ∷ []) 60 30 false ≡ ok tt
enforce_quota-behind_example =
    enforce_quota-behind (caps 100 1) 100 1 refl refl (omega arith) (omega arith) (omega arith)
      (file 40) 40 counted_forty (file 1100 ∷ []) one 60 30 one-files (omega (arith, one-total))
      (omega (arith, one-total)) (omega (arith, one-total))

abbrev info : ℕ → FileInfo
info n = record { size = n; is_dir = false; is_symlink = false }

abbrev out : AbsPath
out = codes "t" ∷ []

f_ne : codes "f" ∷ [] ≢ out
unfolding same_path same
f_ne e = ground (arith, e, same_path_iff (codes "f" ∷ []) out)

abbrev output_visit : Visit
output_visit = record { path = out; failed = false; is_dir = false; size = some 20 }

abbrev out_only : AbsPath → Result FileInfo
out_only p = if same_path p out then ok (info 20) else err (os not_exist)

out_there : out_only out ≡ ok (info 20)
unfolding same_path same
out_there = refl

-- the two files and the output itself
abbrev three : List Visit
three = file 30 ∷ output_visit ∷ file 40 ∷ []

three-Measures : Measures out three 70 2
three-Measures = file_visit (file 30) (output_visit ∷ file 40 ∷ []) 30 40 1 f_ne refl refl refl (
    other_visit output_visit (file 40 ∷ []) 40 1 (inl refl)
      (file_visit (file 40) [] 40 0 0 f_ne refl refl refl no_visits))

-- A new document, at a path where there is no file.
check_office_output_allowed-exact_example :
    check_office_output_allowed (caps 100 2) out_only three (codes "n" ∷ []) out true
    ≡ output_allowed (caps 100 2) (70 - 0 + 20) (2 + 1) true
check_office_output_allowed-exact_example =
    check_office_output_allowed-exact (caps 100 2) three out 70 2 three-Measures out_only
      (codes "n" ∷ []) true 0 (info 20) out_there refl (omega arith) (omega arith) (omega arith)

check_office_output_tests :
    (check_office_output_allowed (caps 100 2) out_only three (codes "n" ∷ []) out true
      ≡ err file_count_quota)
    × (check_office_output_allowed (caps 100 3) out_only three (codes "n" ∷ []) out true ≡ ok tt)
    × (check_office_output_allowed (caps 60 3) (λ p. ok (info 31)) three (codes "f" ∷ []) out false
        ≡ err storage_quota)
unfolding check_office_output_allowed check_output_sizes usage_exact_excluding exact_from counted
    same_path same ◌+ℤ◌ ◌-ℤ◌ int64
check_office_output_tests = (refl, refl, refl)
