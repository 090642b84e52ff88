-- ===== src/Documents/Handling.antt =====
-- `docEdit`, `sheetSetCells` and `docCreate` of internal/app/server.go as a whole.

use chat2work_mcp.Prelude.{ℕ, Option, Text, Result}
use chat2work_mcp.Prelude.Int.{ℤ}
use chat2work_mcp.Paths.{AbsPath}
use chat2work_mcp.Quota.{Files}
use chat2work_mcp.Disk.{Os, Bytes}
use chat2work_mcp.Disk.Lawful.{IsLawful}
use chat2work_mcp.Server.{App, CallToolRequest}
use chat2work_mcp.Documents.{Engine, temp_abs}
use chat2work_mcp.Documents.Copying.{IsTame}
use chat2work_mcp.Documents.Running.{Published}

module _ {D : Type 0} (os : Os D) (content : D → AbsPath → Option Bytes)
    (lawful : IsLawful os content) (fuel : ℕ) (f : Files) (engine : Engine D) (app : App)
    (tame : IsTame os content engine) (now : ℤ) (req : CallToolRequest) (nanos : ℕ) where
  abbrev Outcome : {A : Type 0} → AbsPath → Text → D → Result A → D → Type 0
  Outcome root path d =
      Published os content lawful fuel f engine app tame root path (temp_abs root nanos path) d
