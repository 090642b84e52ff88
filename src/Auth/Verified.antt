-- ===== src/Auth/Verified.antt =====
-- What internal/app/auth.go accepts.
use chat2work_mcp.Prelude.{
  ◌≡◌, ◌≢◌, ◌↔◌, ◌⊎◌, refl, sym, ap, ◌∙◌, inl, inr, true, false, not, ◌||◌, Option, none, some,
  List, [], ◌∷◌, ◌++◌, arith, Bool-cases, Option-cases, Text, codes, same, same_iff, same_refl,
  trim_space, has_prefix, has_prefix-append, trim_prefix, split, ok,
}
use chat2work_mcp.Prelude.Int.{ℤ, ltb_ℤ}
use chat2work_mcp.Auth.{
  UserContext, Identity, Codec, identity_of, resolve_parts, token_parts, resolve_identity,
  bearer_accepted,
}

-- A token that the secret has signed for the identity, and that has not expired.
pub record IsSigned (codec : Codec) (secret : Text) (now : ℤ) (token : Text) (identity : Identity)
    : Type 0 where
  pub body : Text
  pub sig : Text
  pub raw : Text
  pub payload : UserContext
  pub parts : split b'.' token ≡ codes "v1" ∷ body ∷ sig ∷ []
  pub some_body : body ≢ []
  pub some_sig : sig ≢ []
  pub signed : codec.decode_base64 sig ≡ some (codec.mac secret body)
  pub decoded : codec.decode_base64 body ≡ some raw
  pub read : codec.unmarshal raw ≡ some payload
  pub real_user : payload.user_id ≢ 0
  pub not_expired : ltb_ℤ now payload.expires_at ≡ true
  pub user : identity.user_id ≡ payload.user_id
  pub request : identity.request_id ≡ payload.request_id

token_parts-some :
    (parts : List Text) (body sig : Text)
    → token_parts parts ≡ some (body, sig)
    → (parts ≡ codes "v1" ∷ body ∷ sig ∷ []) × (body ≢ []) × (sig ≢ [])
unfolding token_parts
token_parts-some [] body sig h = cc
token_parts-some (a ∷ []) body sig h = cc
token_parts-some (a ∷ b ∷ []) body sig h = cc
token_parts-some (a ∷ b ∷ c ∷ []) body sig h = (
  ground (arith, same_iff a (codes "v1")),
  λ e. ground (arith, same_iff b []),
  λ e. ground (arith, same_iff c []),
)
token_parts-some (a ∷ b ∷ c ∷ d ∷ rest) body sig h = cc

module _ (codec : Codec) (secret : Text) (now : ℤ) where
  identity_of-ok :
      (payload : Option UserContext) (identity : Identity)
      → identity_of payload now ≡ ok identity
      → (p : UserContext) × (payload ≡ some p)
        × (p.user_id ≢ 0)
        × (ltb_ℤ now p.expires_at ≡ true)
        × (identity.user_id ≡ p.user_id)
        × (identity.request_id ≡ p.request_id)
  identity_of-ok none identity h = cc
  identity_of-ok (some p) identity h =
      (p, refl, λ e. ground arith, ground arith, ground arith, ground arith)

  resolve_parts-ok :
      (body sig : Text) (identity : Identity)
      → resolve_parts codec secret now body sig ≡ ok identity
      → (raw : Text) × (codec.decode_base64 sig ≡ some (codec.mac secret body))
        × (codec.decode_base64 body ≡ some raw)
        × (identity_of (codec.unmarshal raw) now ≡ ok identity)
  unfolding resolve_parts
  resolve_parts-ok body sig identity h = elim (Option-cases (codec.decode_base64 sig)) [
    | inl e ↦ absurd (ground (arith, e))
    | inr (given, e) ↦ elim (Option-cases (codec.decode_base64 body)) [
      | inl d ↦ absurd (ground (arith, e, d))
      | inr (raw, d) ↦ (
        raw,
        ground (arith, e, d, same_iff (codec.mac secret body) given),
        d,
        ground (arith, e, d),
      )
    ]
  ]

  -- `ResolveIdentity` returns an identity only for a header that holds, between white space, a token
  -- signed with the secret, for a user other than 0, whose expiry is later than now; the identity is
  -- that of the signed payload.
  pub resolve_identity-IsSigned :
      (header : Text) (identity : Identity)
      → resolve_identity codec secret now header ≡ ok identity
      → IsSigned codec secret now (trim_space header) identity
  unfolding resolve_identity
  resolve_identity-IsSigned header identity h =
      elim (Option-cases (token_parts (split b'.' (trim_space header)))) [
        | inl e ↦ absurd (ground (arith, e))
        | inr ((body, sig), e) ↦
            let (parts, some_body, some_sig) =
              token_parts-some (split b'.' (trim_space header)) body sig e in
            let (raw, signed, decoded, at) =
              resolve_parts-ok body sig identity (unfold resolve_parts in ground (arith, e)) in
            let (payload, read, real_user, not_expired, user, request) =
              identity_of-ok (codec.unmarshal raw) identity at in
            record {
              body = body;
              sig = sig;
              raw = raw;
              payload = payload;
              parts = parts;
              some_body = some_body;
              some_sig = some_sig;
              signed = signed;
              decoded = decoded;
              read = read;
              real_user = real_user;
              not_expired = not_expired;
              user = user;
              request = request;
            }
      ]

  -- Every header that holds, between white space, a token signed with the secret, for a user other
  -- than 0, whose expiry is later than now, is accepted, with the identity of the payload.
  pub resolve_identity_complete :
      (header : Text) (identity : Identity)
      → IsSigned codec secret now (trim_space header) identity
      → resolve_identity codec secret now header ≡ ok identity
  unfolding resolve_identity
  resolve_identity_complete header identity s =
      rw (s.parts, resolve_identity)
        (ground (
          arith,
          s.signed,
          s.decoded,
          s.read,
          s.user,
          s.request,
          same_iff (codes "v1") (codes "v1"),
          same_iff s.body [],
          same_iff s.sig [],
          same_iff (codec.mac secret s.body) (codec.mac secret s.body),
        ))

has_prefix-split : (p s : Text) → has_prefix p s ≡ true → s ≡ p ++ trim_prefix p s
unfolding has_prefix trim_prefix
has_prefix-split [] s h = refl
has_prefix-split (a ∷ p) [] h = cc
has_prefix-split (a ∷ p) (b ∷ s) h = ground (arith, has_prefix-split p s)

trim_prefix-append : (p s : Text) → trim_prefix p (p ++ s) ≡ s
unfolding trim_prefix
trim_prefix-append [] s = refl
trim_prefix-append (a ∷ p) s = ground (arith, has_prefix-append (a ∷ p) s, trim_prefix-append p s)

trim_prefix-other : (p s : Text) → has_prefix p s ≡ false → trim_prefix p s ≡ s
unfolding has_prefix trim_prefix
trim_prefix-other [] s h = cc
trim_prefix-other (a ∷ p) [] h = refl
trim_prefix-other (a ∷ p) (b ∷ s) h = ground arith

-- A request passes the bearer test exactly if a token is configured and the header is "Bearer " and
-- the token, or the token alone where the token does not itself begin with "Bearer ".
pub bearer_accepted_iff :
    (token header : Text)
    → (bearer_accepted token header ≡ true) ↔ (
        (token ≢ [])
        × ((header ≡ codes "Bearer " ++ token)
            ⊎ ((header ≡ token) × (has_prefix (codes "Bearer ") token ≡ false))))
unfolding bearer_accepted
bearer_accepted_iff token header = (
  λ h. (λ e. ground (arith, same_iff token []), accepted h),
  λ (ne, h). rw (differs ne) (rw (left h) (rw (same_refl token))),
)
  where
    differs : token ≢ [] → same token [] ≡ false
    differs ne = ground (arith, same_iff token [])

    accepted :
        not (same token [] || not (same (trim_prefix (codes "Bearer ") header) token)) ≡ true
        → (header ≡ codes "Bearer " ++ token)
          ⊎ ((header ≡ token) × (has_prefix (codes "Bearer ") token ≡ false))
    accepted h = elim (Bool-cases (has_prefix (codes "Bearer ") header)) [
      | inl p ↦ inl (
          has_prefix-split (codes "Bearer ") header p
          ∙ ap (λ (s : Text). codes "Bearer " ++ s)
              ((same_iff (trim_prefix (codes "Bearer ") header) token).0 (ground arith)))
      | inr p ↦
          let e : header ≡ token =
            sym (trim_prefix-other (codes "Bearer ") header p)
            ∙ (same_iff (trim_prefix (codes "Bearer ") header) token).0 (ground arith) in
          inr (e, ap (has_prefix (codes "Bearer ")) (sym e) ∙ p)
    ]

    left :
        (header ≡ codes "Bearer " ++ token)
          ⊎ ((header ≡ token) × (has_prefix (codes "Bearer ") token ≡ false))
        → trim_prefix (codes "Bearer ") header ≡ token
    left (inl e) = ap (trim_prefix (codes "Bearer ")) e ∙ trim_prefix-append (codes "Bearer ") token
    left (inr (e, p)) =
        ap (trim_prefix (codes "Bearer ")) e ∙ trim_prefix-other (codes "Bearer ") token p
