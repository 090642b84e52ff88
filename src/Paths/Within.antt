-- ===== src/Paths/Within.antt =====
-- Where `resolve` of internal/app/workspace.go can lead.
use chat2work_mcp.Prelude.{ℕ, ◌≡◌, Bool, true, false, some, List, ◌++◌, arith, Text, ok}
use chat2work_mcp.Paths.{
  AbsPath, View, clean, join, or_dot, resolve, resolve_missing, resolve_existing,
}
use chat2work_mcp.Paths.Cleaning.{rel-within}

-- The path is the directory or lies below it.
abbrev pub IsWithin : AbsPath → AbsPath → Type 0
IsWithin root path = (rest : List Text) × (path ≡ root ++ rest)

resolve_existing-IsWithin :
    (view : View) (root full p : AbsPath) → resolve_existing view root full ≡ ok p → IsWithin root p
unfolding resolve_existing
resolve_existing-IsWithin view root full p h = rel-within root p (ground arith)

resolve_missing-eq :
    (view : View) (fuel : ℕ) (root full p : AbsPath)
    → resolve_missing view fuel root full ≡ some (ok p)
    → p ≡ full
unfolding resolve_missing
resolve_missing-eq view fuel root full p h = ground arith

-- Whatever the file system answers, the path that `resolve` returns is the root or lies below it.
pub resolve-IsWithin :
    (view : View) (fuel : ℕ) (root : AbsPath) (supplied : Text) (allow_missing : Bool) (p : AbsPath)
    → resolve view fuel root supplied allow_missing ≡ some (ok p)
    → IsWithin root p
unfolding resolve
resolve-IsWithin view fuel root supplied true p h = rel-within root p (
    ground (arith, resolve_missing-eq view fuel root (join root (clean (or_dot supplied)).parts) p))
resolve-IsWithin view fuel root supplied false p h =
    ground
      (arith, resolve_existing-IsWithin view root (join root (clean (or_dot supplied)).parts) p)
