-- ===== src/Download/Tests.antt =====
-- Links whose signature is the secret before the text it signs.
use chat2work_mcp.Prelude.{
  ◌≡◌, ◌≢◌, ◌^◌, ◌*◌, ◌+◌, ℕ, refl, false, [], ◌∷◌, ◌++◌, leb, arith, if◌then◌else◌, Text, codes,
  same, split, trim_space, has_prefix, contains_any, contains_rune, Result, ok, err, link_expired,
  invalid_link, not_exist, os, All,
}
use chat2work_mcp.Prelude.Int.{pos}
use chat2work_mcp.Prelude.Decimal.{decimal}
use chat2work_mcp.Prelude.Parse.{parse_int}
use chat2work_mcp.Paths.{
  AbsPath, FileInfo, clean, clean_step, clean_steps, join, rel, escapes, same_path, resolve,
  workspace_root,
}
use chat2work_mcp.Download.{
  Crypto, DownloadSigner, Host, LinkQuery, Download, new_download_signer, unix, link_query, url,
  verify, sanitize_download_name, served, download_handler,
}
use chat2work_mcp.Download.Links.{url-verify}
use chat2work_mcp.Download.Names.{IsQuotable, sanitize-IsQuotable}
use chat2work_mcp.Download.Serving.{IsServed, download_handler-IsServed}

abbrev crypto : Crypto
crypto = record {
  mac = λ secret text. secret ++ text;
  encode_base64 = λ s. s;
  encode_query = λ q. q.w ++ codes "&" ++ q.p ++ codes "&" ++ q.exp ++ codes "&" ++ q.sig;
}

abbrev signer : DownloadSigner
signer = record { secret = codes "k"; ttl = 5 * 10 ^ 9; base_url = codes "https://h" }

signer_eq : new_download_signer (codes "k") (codes " https://h// ") (pos (5 * 10 ^ 9)) ≡ signer
unfolding new_download_signer trim_space
signer_eq = refl

abbrev issued : ℕ
issued = 2 * 10 ^ 9

abbrev query : LinkQuery
query = record {
  w = codes "w";
  p = codes "a/f";
  exp = codes "7";
  sig = codes "kw" ++ 10 ∷ codes "a/f" ++ 10 ∷ codes "7";
}

query_eq : link_query crypto signer (codes "w") (codes "a/f") (7 * 10 ^ 9) ≡ query
unfolding link_query decimal
query_eq = refl

abbrev link : Text
link = codes "https://h/download?" ++ crypto.encode_query query

url_eq : url crypto signer issued (codes "w") (codes "a/f") ≡ ok (link, 7 * 10 ^ 9)
unfolding url trim_space same decimal
url_eq = refl

verified :
    (verify crypto signer issued query ≡ ok tt)
    × (verify crypto signer (7 * 10 ^ 9) query ≡ err link_expired)
    × (verify crypto signer issued
          (record { w = codes "v"; p = query.p; exp = query.exp; sig = query.sig })
        ≡ err invalid_link)
unfolding verify trim_space same decimal parse_int
verified = (refl, refl, refl)

url-verify_example :
    (7 * 10 ^ 9 ≡ issued + signer.ttl)
    × (link
        ≡ signer.base_url
          ++ codes "/download?"
          ++ crypto.encode_query (link_query crypto signer (codes "w") (codes "a/f") (7 * 10 ^ 9)))
    × (verify crypto signer
          (6 * 10 ^ 9)
          (link_query crypto signer (codes "w") (codes "a/f") (7 * 10 ^ 9))
        ≡ (if leb (unix (7 * 10 ^ 9)) (unix (6 * 10 ^ 9)) then err link_expired else ok tt))
url-verify_example =
    url-verify crypto signer issued (6 * 10 ^ 9) (codes "w") (codes "a/f") link (7 * 10 ^ 9)
      (omega arith) url_eq

sanitized : sanitize_download_name (codes " a\"b.txt") ≡ codes "ab.txt"
unfolding sanitize_download_name trim_space same
sanitized = refl

sanitize-IsQuotable_example :
    (sanitize_download_name (codes "a\"b") ≢ [])
    × All IsQuotable (sanitize_download_name (codes "a\"b"))
sanitize-IsQuotable_example = sanitize-IsQuotable (codes "a\"b")

abbrev file : FileInfo
file = record { size = 3; is_dir = false; is_symlink = false }

abbrev path_to_file : AbsPath
path_to_file = codes "d" ∷ codes "w" ∷ codes "a" ∷ codes "f.txt" ∷ []

entry : AbsPath → Result FileInfo
entry path = if same_path path path_to_file then ok file else err (os not_exist)

abbrev host : Host
host = record {
  view = record { lstat = entry; stat = entry; eval_symlinks = λ path. ok path };
  open_file = λ path. ok tt;
  type_by_extension = λ name. if same name (codes ".txt") then codes "text/plain" else [];
}

abbrev file_query : LinkQuery
file_query = link_query crypto signer (codes "w") (codes "a/f.txt") (7 * 10 ^ 9)

abbrev download : Download
download = record {
  target = path_to_file;
  content_type = codes "text/plain";
  file_name = codes "f.txt";
}

handled :
    download_handler crypto signer host (codes "d" ∷ []) issued (codes "GET") file_query
    ≡ served download
unfolding download_handler link_query trim_space same decimal parse_int resolve clean clean_steps
    clean_step split has_prefix escapes join rel workspace_root contains_any contains_rune same_path
    entry
handled = refl

download_handler-IsServed_example :
    IsServed crypto signer host (codes "d" ∷ []) issued (codes "GET") file_query download
download_handler-IsServed_example =
    download_handler-IsServed crypto signer host (codes "d" ∷ []) issued (codes "GET") file_query
      download handled
