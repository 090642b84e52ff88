-- ===== src/Logging.antt =====
-- internal/app/logging.go: the level of the log, the id of a request, and the recorder of a response's
-- status.
pub mod Status
use chat2work_mcp.Prelude.{
  ℕ, Bool, true, false, not, ◌||◌, List, [], ◌∷◌, if◌then◌else◌, Text, codes, same, trim_space,
  to_lower,
}

pub data Level : Type 0 where
  debug info warn error : Level

-- the level that `newLogger` sets
unfoldable pub logger_level : Text → Level
logger_level level =
    let name = to_lower (trim_space level) in
    if same name (codes "debug")
    then debug
    else if same name (codes "warn") || same name (codes "warning")
    then warn
    else if same name (codes "error")
    then error
    else info

-- the id of a request in `logRequests`; `fresh` is what `newRequestID` returns
unfoldable pub request_id_of : Text → Text → Text
request_id_of header fresh = let id = trim_space header in if same id [] then fresh else id

-- the level of the line of `logRequests`
unfoldable pub request_level : Text → Level
request_level path =
    if same path (codes "/healthz") || same path (codes "/readyz") then debug else info

-- `statusRecorder`, without the writer that it wraps
pub record StatusRecorder : Type 0 where
  pub status : ℕ
  pub wrote : Bool

-- a call of WriteHeader, or of Write
pub data ResponseCall : Type 0 where
  header : ℕ → ResponseCall
  body : ResponseCall

unfoldable pub write_header : StatusRecorder → ℕ → StatusRecorder
write_header r code = if not r.wrote then record { status = code; wrote = true } else r

unfoldable pub write_body : StatusRecorder → StatusRecorder
write_body r = if not r.wrote then record { status = 200; wrote = true } else r

unfoldable pub respond : StatusRecorder → ResponseCall → StatusRecorder
unfolding write_header write_body
respond r (header code) = write_header r code
respond r body = write_body r

-- the recorder after the handler that `logRequests` calls
unfoldable pub recorded : StatusRecorder → List ResponseCall → StatusRecorder
recorded r [] = r
recorded r (call ∷ calls) = recorded (respond r call) calls
