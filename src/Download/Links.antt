-- ===== src/Download/Links.antt =====
-- What the signatures of internal/app/artifact.go bind, and how long a link is good.
use chat2work_mcp.Prelude.{
  ℕ, suc, ◌+◌, ◌^◌, ◌<◌, ◌≡◌, ◌≢◌, ◌↔◌, sym, ap, inl, inr, true, false, some, [], ◌∷◌, ◌++◌, leb,
  arith, if◌then◌else◌, Text, codes, same, same_iff, same_refl, trim_space, All, Option-cases, ok,
  err, link_expired,
}
use chat2work_mcp.Prelude.Int.{ℤ, pos, negsuc, ltb_ℤ}
use chat2work_mcp.Prelude.Decimal.{decimal, decimal-injective, decimal-IsDigit, IsDigit}
use chat2work_mcp.Prelude.Parse.{parse_int, parse_int-decimal}
use chat2work_mcp.Prelude.Separators.{Lacks, first_apart, last_apart, decimal-Lacks}
use chat2work_mcp.Download.{
  LinkQuery, Crypto, DownloadSigner, format_int, sign_text, sign, unix, link_query, url, verify,
}

digit-ne-newline : (d : ℕ) → IsDigit d → d ≢ 10
digit-ne-newline d h e = omega (arith, h, e)

digit-ne-minus : (d : ℕ) → IsDigit d → d ≢ b'-'
digit-ne-minus d h e = omega (arith, h, e)

format_int-Lacks : (n : ℤ) → Lacks 10 (format_int n)
unfolding format_int
format_int-Lacks (pos n) = decimal-Lacks 10 n digit-ne-newline
format_int-Lacks (negsuc n) = ((λ e. omega arith), decimal-Lacks 10 (suc n) digit-ne-newline)

digits-ne-minus : (s t : Text) → All IsDigit s → s ≢ b'-' ∷ t
digits-ne-minus [] t h e = cc
digits-ne-minus (c ∷ s) t (hc, h) e = digit-ne-minus c hc (cc)

format_int-injective : (n m : ℤ) → format_int n ≡ format_int m → n ≡ m
unfolding format_int
format_int-injective (pos n) (pos m) e = ap pos (decimal-injective n m e)
format_int-injective (pos n) (negsuc m) e =
    absurd (digits-ne-minus (decimal n) (decimal (suc m)) (decimal-IsDigit n) e)
format_int-injective (negsuc n) (pos m) e =
    absurd (digits-ne-minus (decimal m) (decimal (suc n)) (decimal-IsDigit m) (sym e))
format_int-injective (negsuc n) (negsuc m) e =
    ap negsuc (omega (arith, decimal-injective (suc n) (suc m) (cc)))

-- Two links with workspaces whose ids have no newline have the same text under their signatures only
-- if they name the same workspace, path and deadline, whatever characters the paths have.
pub sign_text-injective :
    (w w' p p' : Text) (exp exp' : ℤ)
    → Lacks 10 w
    → Lacks 10 w'
    → sign_text w p exp ≡ sign_text w' p' exp'
    → (w ≡ w') × (p ≡ p') × (exp ≡ exp')
unfolding sign_text
sign_text-injective w w' p p' exp exp' h h' e =
    let (same_w, rest) =
      first_apart 10 w w' (p ++ 10 ∷ format_int exp) (p' ++ 10 ∷ format_int exp') h h' e in
    let (same_p, digits) =
      last_apart 10 (format_int exp) (format_int exp') p p' (format_int-Lacks exp)
        (format_int-Lacks exp') rest in
    (same_w, same_p, format_int-injective exp exp' digits)

-- `verify` accepts exactly the links whose deadline is a number later than now and whose signature
-- is that of their workspace, path and deadline, if a secret that is not blank is configured.
pub verify_iff :
    (crypto : Crypto) (d : DownloadSigner) (now : ℕ) (q : LinkQuery)
    → (verify crypto d now q ≡ ok tt) ↔ (
        (trim_space d.secret ≢ [])
        × (deadline : ℤ) × (parse_int q.exp ≡ some deadline)
        × (ltb_ℤ (pos (unix now)) deadline ≡ true)
        × (q.sig ≡ sign crypto d q.w q.p deadline))
unfolding verify
verify_iff crypto d now q = elim (Option-cases (parse_int q.exp)) [
  | inl e ↦ (
    (λ h. absurd (ground (arith, e, h))),
    (λ (blank, deadline, read, later, signed). absurd (cc (e, read))),
  )
  | inr (deadline, e) ↦ (
    (λ h. (
      (λ blank. ground (arith, e, h, blank, same_iff (trim_space d.secret) [])),
      deadline,
      e,
      ground (arith, e, h),
      ground (arith, e, h, same_iff (sign crypto d q.w q.p deadline) q.sig),
    )),
    (λ (secret, deadline', read, later, signed).
        let same_deadline : deadline ≡ deadline' = cc (e, read) in
        ground (
          arith,
          e,
          secret,
          same_deadline,
          later,
          signed,
          same_iff (trim_space d.secret) [],
          same_iff (sign crypto d q.w q.p deadline) q.sig,
        )),
  )
]

verify-link :
    (crypto : Crypto) (d : DownloadSigner) (later : ℕ) (workspace path : Text) (expires : ℕ)
    → unix expires < 2 ^ 63
    → same (trim_space d.secret) [] ≡ false
    → verify crypto d later (link_query crypto d workspace path expires)
      ≡ (if leb (unix expires) (unix later) then err link_expired else ok tt)
unfolding verify link_query format_int
verify-link crypto d later workspace path expires h configured =
    rw (configured, parse_int-decimal (unix expires) h)
      (ground (arith, same_refl (sign crypto d workspace path (pos (unix expires)))))

-- A link that `URL` returns, with an expiry whose second is less than 2^63, names the values that it
-- signs; each call of `verify` with these succeeds until the second of its expiry, and is refused as
-- expired from then on.
pub url-verify :
    (crypto : Crypto) (d : DownloadSigner) (now later : ℕ) (workspace path link : Text)
    (expires : ℕ)
    → unix expires < 2 ^ 63
    → url crypto d now workspace path ≡ ok (link, expires)
    → (expires ≡ now + d.ttl)
      × (link
          ≡ d.base_url
            ++ codes "/download?"
            ++ crypto.encode_query (link_query crypto d workspace path expires))
      × (verify crypto d later (link_query crypto d workspace path expires)
          ≡ (if leb (unix expires) (unix later) then err link_expired else ok tt))
unfolding url verify link_query format_int
url-verify crypto d now later workspace path link expires h e =
    let time : expires ≡ now + d.ttl = ground (arith, e) in
    (
      time,
      ground (arith, e, time),
      verify-link crypto d later workspace path expires h (ground (arith, e)),
    )
