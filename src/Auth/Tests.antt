-- ===== src/Auth/Tests.antt =====
-- A codec that signs a text with the text itself.
use chat2work_mcp.Prelude.{
  ◌≡◌, ◌≢◌, ◌↔◌, ◌⊎◌, refl, true, false, some, [], ◌∷◌, ◌++◌, arith, Text, codes, same, has_prefix,
  split, trim_space, ok, err, malformed_context, invalid_context, expired_context,
}
use chat2work_mcp.Prelude.Int.{pos}
use chat2work_mcp.Auth.{UserContext, Identity, Codec, resolve_identity, bearer_accepted}
use chat2work_mcp.Auth.Verified.{
  IsSigned, resolve_identity-IsSigned, resolve_identity_complete, bearer_accepted_iff,
}

abbrev payload : UserContext
payload = record { user_id = 7; request_id = codes "r"; expires_at = pos 100 }

abbrev codec : Codec
codec = record {
  mac = λ secret body. secret ++ body;
  decode_base64 = λ s. some s;
  unmarshal = λ s. some payload;
}

abbrev identity : Identity
identity = record { user_id = 7; request_id = codes "r" }

accepted : resolve_identity codec (codes "k") (pos 99) (codes " v1.b.kb ") ≡ ok identity
unfolding resolve_identity split trim_space same
accepted = refl

refused :
    (resolve_identity codec (codes "k") (pos 100) (codes "v1.b.kb") ≡ err expired_context)
    × (resolve_identity codec (codes "k") (pos 99) (codes "v1.b.xb") ≡ err invalid_context)
    × (resolve_identity codec (codes "k") (pos 99) (codes "v1.b.kb.") ≡ err malformed_context)
unfolding resolve_identity split trim_space same
refused = (refl, refl, refl)

resolve_identity-IsSigned_example :
    IsSigned codec (codes "k") (pos 99) (trim_space (codes " v1.b.kb ")) identity
resolve_identity-IsSigned_example =
    resolve_identity-IsSigned codec (codes "k") (pos 99) (codes " v1.b.kb ") identity accepted

abbrev header : Text
header = codes "v1.b.kb"

parts_eq : split b'.' (trim_space header) ≡ codes "v1" ∷ codes "b" ∷ codes "kb" ∷ []
unfolding split trim_space
parts_eq = refl

signed : IsSigned codec (codes "k") (pos 99) (trim_space header) identity
signed = record {
  body = codes "b";
  sig = codes "kb";
  raw = codes "b";
  payload = payload;
  parts = parts_eq;
  some_body = λ e. cc;
  some_sig = λ e. cc;
  signed = refl;
  decoded = refl;
  read = refl;
  real_user = λ e. omega arith;
  not_expired = refl;
  user = refl;
  request = refl;
}

resolve_identity_complete_example : resolve_identity codec (codes "k") (pos 99) header ≡ ok identity
resolve_identity_complete_example =
    resolve_identity_complete codec (codes "k") (pos 99) header identity signed

bearer_accepted_iff_example : (bearer_accepted (codes "t") (codes "t") ≡ true) ↔ (
    (codes "t" ≢ [])
    × ((codes "t" ≡ codes "Bearer " ++ codes "t")
        ⊎ ((codes "t" ≡ codes "t") × (has_prefix (codes "Bearer ") (codes "t") ≡ false))))
bearer_accepted_iff_example = bearer_accepted_iff (codes "t") (codes "t")
