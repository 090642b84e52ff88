-- ===== src/Auth.antt =====
-- internal/app/auth.go: who calls.
pub mod Verified
pub mod Tests
use chat2work_mcp.Prelude.{
  ℕ, Bool, true, false, not, ◌&&◌, ◌||◌, Option, none, some, List, [], ◌∷◌, ◌==◌, if◌then◌else◌,
  Text, codes, same, trim_space, trim_prefix, split, Result, ok, err, malformed_context,
  invalid_context, expired_context, authorization_failed,
}
use chat2work_mcp.Prelude.Int.{ℤ, leb_ℤ}

pub record UserContext : Type 0 where
  pub user_id : ℕ
  pub request_id : Text
  pub expires_at : ℤ

pub record Identity : Type 0 where
  pub user_id : ℕ
  pub request_id : Text

-- What the resolver takes from packages crypto, encoding/base64 and encoding/json: HMAC-SHA256 of a
-- text under a secret, the raw base64url decoding, and the reading of a payload.
pub record Codec : Type 0 where
  pub mac : Text → Text → Text
  pub decode_base64 : Text → Option Text
  pub unmarshal : Text → Option UserContext

abbrev pub identity_of : Option UserContext → ℤ → Result Identity
identity_of none now = err expired_context
identity_of (some payload) now =
    if payload.user_id == 0 || leb_ℤ payload.expires_at now
    then err expired_context
    else ok (record { user_id = payload.user_id; request_id = payload.request_id })

-- `ResolveIdentity` behind the test of the token's form
unfoldable pub resolve_parts : Codec → Text → ℤ → Text → Text → Result Identity
resolve_parts codec secret now body sig = elim (codec.decode_base64 sig) [
  | none ↦ err invalid_context
  | some given ↦
      if not (same (codec.mac secret body) given)
      then err invalid_context
      else elim (codec.decode_base64 body) [
        | none ↦ err invalid_context
        | some raw ↦ identity_of (codec.unmarshal raw) now
      ]
]

-- the three parts of a token: `len(parts) != 3 || parts[0] != "v1" || …`
unfoldable pub token_parts : List Text → Option (Text × Text)
token_parts (version ∷ body ∷ sig ∷ []) =
    if not (same version (codes "v1")) || (same body [] || same sig [])
    then none
    else some (body, sig)
token_parts _ = none

-- (DeeixResolver).ResolveIdentity, from the value of the header
unfoldable pub resolve_identity : Codec → Text → ℤ → Text → Result Identity
unfolding resolve_parts token_parts
resolve_identity codec secret now header = elim (token_parts (split b'.' (trim_space header))) [
  | none ↦ err malformed_context
  | some (body, sig) ↦ resolve_parts codec secret now body sig
]

-- `requireBearer`: whether the request goes on to the next handler, from its Authorization header
unfoldable pub bearer_accepted : Text → Text → Bool
bearer_accepted token header =
    not (same token [] || not (same (trim_prefix (codes "Bearer ") header) token))

unfoldable pub identity_from_request : Codec → Text → ℤ → Text → Result Identity
identity_from_request codec secret now header = elim (resolve_identity codec secret now header) [
  | ok identity ↦ ok identity
  | err e ↦ err (authorization_failed e)
]
