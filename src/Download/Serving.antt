-- ===== src/Download/Serving.antt =====
-- What the download handler of internal/app/artifact.go serves.
use chat2work_mcp.Prelude.{
  ℕ, ◌≡◌, ◌⊎◌, ap, inl, inr, false, some, arith, Text, codes, same_iff, Option-cases, Result-cases,
  ok,
}
use chat2work_mcp.Paths.{AbsPath, FileInfo, workspace_root, resolve}
use chat2work_mcp.Paths.Within.{IsWithin, resolve-IsWithin}
use chat2work_mcp.Download.{
  Crypto, DownloadSigner, Host, LinkQuery, Download, served, verify, download_of, serve_file,
  serve_path, download_handler,
}

-- The file may be served for the link.
pub record IsServed (crypto : Crypto) (d : DownloadSigner) (host : Host) (base : AbsPath) (now : ℕ)
    (method : Text) (q : LinkQuery) (download : Download) : Type 0 where
  pub reads : (method ≡ codes "GET") ⊎ (method ≡ codes "HEAD")
  pub verified : verify crypto d now q ≡ ok tt
  pub root : AbsPath
  pub workspace : workspace_root base q.w ≡ ok root
  pub within : IsWithin root download.target
  pub info : FileInfo
  pub found : host.view.stat download.target ≡ ok info
  pub is_file : info.is_dir ≡ false

serve_file-served :
    (host : Host) (target : AbsPath) (download : Download)
    → serve_file host target ≡ served download
    → (download ≡ download_of host target)
      × (info : FileInfo) × (host.view.stat target ≡ ok info)
      × (info.is_dir ≡ false)
unfolding serve_file
serve_file-served host target download h = elim (Result-cases (host.view.stat target)) [
  | inr (e, p) ↦ absurd (ground (arith, h, p))
  | inl (info, p) ↦ (ground (arith, h, p), info, p, ground (arith, h, p))
]

serve_path-served :
    (host : Host) (base : AbsPath) (workspace path : Text) (download : Download)
    → serve_path host base workspace path ≡ served download
    → (root : AbsPath) × (target : AbsPath) × (workspace_root base workspace ≡ ok root)
      × (resolve host.view 0 root path false ≡ some (ok target))
      × (serve_file host target ≡ served download)
unfolding serve_path
serve_path-served host base workspace path download h =
    elim (Result-cases (workspace_root base workspace)) [
      | inr (e, p) ↦ absurd (ground (arith, h, p))
      | inl (root, p) ↦ elim (Option-cases (resolve host.view 0 root path false)) [
        | inl r ↦ absurd (ground (arith, h, p, r))
        | inr (found, r) ↦ elim (Result-cases found) [
          | inr (e, t) ↦ absurd (ground (arith, h, p, r, t))
          | inl (target, t) ↦ (root, target, p, ground (arith, r, t), ground (arith, h, p, r, t))
        ]
      ]
    ]

handler-served :
    (crypto : Crypto) (d : DownloadSigner) (host : Host) (base : AbsPath) (now : ℕ) (method : Text)
    (q : LinkQuery) (download : Download)
    → download_handler crypto d host base now method q ≡ served download
    → ((method ≡ codes "GET") ⊎ (method ≡ codes "HEAD"))
      × (verify crypto d now q ≡ ok tt)
      × (serve_path host base q.w q.p ≡ served download)
unfolding download_handler
handler-served crypto d host base now method q download h =
    let allowed : (method ≡ codes "GET") ⊎ (method ≡ codes "HEAD") =
      ground (arith, h, same_iff method (codes "GET"), same_iff method (codes "HEAD")) in
    elim (Result-cases (verify crypto d now q)) [
      | inr (e, v) ↦ absurd (ground (arith, h, v))
      | inl (done, v) ↦ (allowed, v, ground (arith, h, v))
    ]

-- The handler serves a file only to a GET or HEAD request whose link `verify` accepts, and then a
-- file, not a directory, within the workspace that the link names, whatever the path in it and
-- whatever the file system answers.
pub download_handler-IsServed :
    (crypto : Crypto) (d : DownloadSigner) (host : Host) (base : AbsPath) (now : ℕ) (method : Text)
    (q : LinkQuery) (download : Download)
    → download_handler crypto d host base now method q ≡ served download
    → IsServed crypto d host base now method q download
unfolding download_of
download_handler-IsServed crypto d host base now method q download h =
    let (reads, verified, h) = handler-served crypto d host base now method q download h in
    let (root, target, workspace, resolved, h) = serve_path-served host base q.w q.p download h in
    let (shape, info, found, is_file) = serve_file-served host target download h in
    let same_target : download.target ≡ target = ap (λ (x : Download). x.target) shape in
    record {
      reads = reads;
      verified = verified;
      root = root;
      workspace = workspace;
      within = rw same_target (resolve-IsWithin host.view 0 root q.p false target resolved);
      info = info;
      found = rw same_target found;
      is_file = is_file;
    }
