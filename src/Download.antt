-- ===== src/Download.antt =====
-- internal/app/artifact.go: signed links, and the handler that serves the files they name. Readings
-- of the clock are nanoseconds since 1970, and Unix() is their quotient by 10^9.
pub mod Links
pub mod Serving
pub mod Names
pub mod Tests
use mathlib.Core.List.{reverse}
use chat2work_mcp.Prelude.{
  ℕ, suc, ◌+◌, ◌*◌, ◌/◌, ◌^◌, Bool, true, false, not, ◌&&◌, ◌||◌, none, some, [], ◌∷◌, ◌++◌, ltb,
  ◌==◌, if◌then◌else◌, Text, codes, same, trim_space, Result, ok, err, Error, links_not_configured,
  invalid_link, link_expired,
}
use chat2work_mcp.Prelude.Int.{ℤ, pos, negsuc, is_pos, pos_part, leb_ℤ}
use chat2work_mcp.Prelude.Decimal.{decimal}
use chat2work_mcp.Prelude.Parse.{parse_int}
use chat2work_mcp.Paths.{AbsPath, View, workspace_root, resolve}

-- The durations are nanoseconds.
pub record DownloadSigner : Type 0 where
  pub secret : Text
  pub ttl : ℕ
  pub base_url : Text

-- What the links take from packages crypto/hmac, crypto/sha256, encoding/base64 and net/url: the
-- HMAC of a text under a secret, the raw base64url encoding, and the encoding of the four values.
pub record LinkQuery : Type 0 where
  pub w : Text
  pub p : Text
  pub exp : Text
  pub sig : Text

pub record Crypto : Type 0 where
  pub mac : Text → Text → Text
  pub encode_base64 : Text → Text
  pub encode_query : LinkQuery → Text

-- strings.TrimRight(s, "/")
unfoldable pub drop_slashes : Text → Text
drop_slashes [] = []
drop_slashes (c ∷ s) = if c == b'/' then drop_slashes s else c ∷ s

unfoldable pub new_download_signer : Text → Text → ℤ → DownloadSigner
unfolding drop_slashes
new_download_signer secret base_url ttl = record {
  secret = secret;
  ttl = if is_pos ttl then pos_part ttl else 15 * 60 * 10 ^ 9;
  base_url = reverse (drop_slashes (reverse (trim_space base_url)));
}

-- strconv.FormatInt(n, 10), and `%d`
unfoldable pub format_int : ℤ → Text
format_int (pos n) = decimal n
format_int (negsuc n) = b'-' ∷ decimal (suc n)

-- the text under the signature: "%s\n%s\n%d"
unfoldable pub sign_text : Text → Text → ℤ → Text
unfolding format_int
sign_text workspace path exp = workspace ++ 10 ∷ (path ++ 10 ∷ format_int exp)

unfoldable pub sign : Crypto → DownloadSigner → Text → Text → ℤ → Text
unfolding sign_text
sign crypto d workspace path exp =
    crypto.encode_base64 (crypto.mac d.secret (sign_text workspace path exp))

abbrev pub unix : ℕ → ℕ
unix time = time / 10 ^ 9

unfoldable pub link_query : Crypto → DownloadSigner → Text → Text → ℕ → LinkQuery
unfolding sign format_int
link_query crypto d workspace path expires = record {
  w = workspace;
  p = path;
  exp = format_int (pos (unix expires));
  sig = sign crypto d workspace path (pos (unix expires));
}

-- (DownloadSigner).URL: the link and its expiry
unfoldable pub url : Crypto → DownloadSigner → ℕ → Text → Text → Result (Text × ℕ)
unfolding link_query
url crypto d now workspace path =
    if same (trim_space d.secret) []
    then err links_not_configured
    else ok (
      d.base_url
          ++ codes "/download?"
          ++ crypto.encode_query (link_query crypto d workspace path (now + d.ttl)),
      now + d.ttl,
    )

unfoldable pub verify : Crypto → DownloadSigner → ℕ → LinkQuery → Result (Unit {0})
unfolding sign
verify crypto d now q =
    if same (trim_space d.secret) [] then err links_not_configured else elim (parse_int q.exp) [
      | none ↦ err invalid_link
      | some deadline ↦
          if leb_ℤ deadline (pos (unix now))
          then err link_expired
          else if not (same (sign crypto d q.w q.p deadline) q.sig)
          then err invalid_link
          else ok tt
    ]

-- the runes that the mapping of `sanitizeDownloadName` drops
unfoldable pub dropped_rune : ℕ → Bool
dropped_rune r = r == 0x22 || (r == 0x5c || (ltb r 0x20 || r == 0x7f))

unfoldable pub kept_runes : Text → Text
unfolding dropped_rune
kept_runes [] = []
kept_runes (r ∷ s) = if dropped_rune r then kept_runes s else r ∷ kept_runes s

unfoldable pub sanitize_download_name : Text → Text
unfolding kept_runes
sanitize_download_name name =
    let kept = trim_space (kept_runes name) in if same kept [] then codes "download" else kept

-- filepath.Base of an absolute path
unfoldable pub base_name : AbsPath → Text
base_name [] = codes "/"
base_name (part ∷ []) = part
base_name (part ∷ next ∷ rest) = base_name (next ∷ rest)

-- filepath.Ext of the last component: from the last "." on
unfoldable pub ext : Text → Text
ext [] = []
ext (c ∷ s) =
    let rest = ext s in if not (same rest []) then rest else if c == b'.' then c ∷ s else []

pub record Download : Type 0 where
  pub target : AbsPath
  pub content_type : Text
  pub file_name : Text

pub data Response : Type 0 where
  method_not_allowed : Response
  unauthorized : Error → Response
  not_found : Response
  served : Download → Response

-- What the handler asks of the operating system: a view of the files, os.Open, and
-- mime.TypeByExtension.
pub record Host : Type 0 where
  pub view : View
  pub open_file : AbsPath → Result (Unit {0})
  pub type_by_extension : Text → Text

-- what a file is served with: its type and its name for the browser
unfoldable pub download_of : Host → AbsPath → Download
unfolding sanitize_download_name base_name ext
download_of host target =
    let found = host.type_by_extension (ext (base_name target)) in
    record {
      target = target;
      content_type = if same found [] then codes "application/octet-stream" else found;
      file_name = sanitize_download_name (base_name target);
    }

-- the handler from os.Stat on
unfoldable pub serve_file : Host → AbsPath → Response
unfolding download_of
serve_file host target = elim (host.view.stat target) [
  | err e ↦ not_found
  | ok info ↦ if info.is_dir then not_found else elim (host.open_file target) [
    | err e ↦ not_found
    | ok done ↦ served (download_of host target)
  ]
]

-- the handler behind the signature; without allowMissing `resolve` has no loop and needs no fuel
unfoldable pub serve_path : Host → AbsPath → Text → Text → Response
unfolding serve_file
serve_path host base workspace path = elim (workspace_root base workspace) [
  | err e ↦ not_found
  | ok root ↦ elim (resolve host.view 0 root path false) [
    | none ↦ not_found
    | some (err e) ↦ not_found
    | some (ok target) ↦ serve_file host target
  ]
]

-- (*App).DownloadHandler
unfoldable pub download_handler :
    Crypto → DownloadSigner → Host → AbsPath → ℕ → Text → LinkQuery → Response
unfolding verify serve_path
download_handler crypto d host base now method q =
    if not (same method (codes "GET")) && not (same method (codes "HEAD"))
    then method_not_allowed
    else elim (verify crypto d now q) [
      | err e ↦ unauthorized e
      | ok done ↦ serve_path host base q.w q.p
    ]
