-- ===== src/Logging/Status.antt =====
-- The status that internal/app/logging.go logs.
use chat2work_mcp.Prelude.{ℕ, ◌≡◌, refl, true, false, List, [], ◌∷◌}
use chat2work_mcp.Logging.{ResponseCall, header, body, write_header, write_body, respond, recorded}

-- the status of a response: that of the first call, and 200 where a body comes first or nothing
abbrev pub response_status : List ResponseCall → ℕ
response_status [] = 200
response_status (header code ∷ calls) = code
response_status (body ∷ calls) = 200

recorded-wrote :
    (status : ℕ) (calls : List ResponseCall)
    → recorded (record { status = status; wrote = true }) calls
      ≡ record { status = status; wrote = true }
unfolding recorded respond write_header write_body
recorded-wrote status [] = refl
recorded-wrote status (header code ∷ calls) = recorded-wrote status calls
recorded-wrote status (body ∷ calls) = recorded-wrote status calls

-- Whatever a handler calls, the recorder that starts with status 200 has the response's status: later
-- calls do not change it.
pub recorded-status :
    (calls : List ResponseCall)
    → (recorded (record { status = 200; wrote = false }) calls).status ≡ response_status calls
unfolding recorded respond write_header write_body
recorded-status [] = refl
recorded-status (header code ∷ calls) = rw (recorded-wrote code calls) refl
recorded-status (body ∷ calls) = rw (recorded-wrote 200 calls) refl
