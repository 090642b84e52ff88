-- ===== src/Tools.antt =====
-- The handlers of the file tools in internal/app/server.go. Each runs under the workspace's lock, so
-- a call is one step of the disk. An error is what `toolError` shows, and a `Reply` what
-- `textResult` encodes.
pub mod Isolation
pub mod Calls
pub mod Sample
pub mod Tests
use chat2work_mcp.Prelude.{
  ℕ, Bool, true, false, Option, List, [], ◌++◌, ◌∷◌, if◌then◌else◌, Text, same, trim_space, codes,
  Result, reject_if, tool, pattern_required,
}
use chat2work_mcp.Prelude.Int.{ℤ}
use chat2work_mcp.Config.{Config}
use chat2work_mcp.Access.{WorkspaceGrant, list}
use chat2work_mcp.Paths.{AbsPath, clean}
use chat2work_mcp.Quota.{Files}
use chat2work_mcp.Disk.{Os, Bytes, Action, pure, lift, ◌>>=◌, ◌>>◌}
use chat2work_mcp.Download.{Crypto, DownloadSigner, url}
use chat2work_mcp.Files.{slashed, root_of, resolved, read, write, edit, move, delete_file}
use chat2work_mcp.Files.Listing.{list_files}
use chat2work_mcp.Files.Searching.{search_files}
use chat2work_mcp.Server.{App, CallToolRequest, app_identity, app_grant}

pub record ListInput : Type 0 where
  pub workspace : Text
  pub path : Text
  pub recursive : Bool

pub record ReadInput : Type 0 where
  pub workspace : Text
  pub path : Text
  pub max_bytes : ℤ

pub record WriteInput : Type 0 where
  pub workspace : Text
  pub path : Text
  pub content : Bytes
  pub overwrite : Bool

pub record EditInput : Type 0 where
  pub workspace : Text
  pub path : Text
  pub old_text : Bytes
  pub new_text : Bytes

pub record MoveInput : Type 0 where
  pub workspace : Text
  pub source : Text
  pub destination : Text

pub record DeleteInput : Type 0 where
  pub workspace : Text
  pub path : Text
  pub confirm : Bool

pub record SearchInput : Type 0 where
  pub workspace : Text
  pub pattern : Text
  pub query : Bytes
  pub path : Text

pub record LinkInput : Type 0 where
  pub workspace : Text
  pub path : Text

pub data Reply : Type 0 where
  status : Text → Reply
  content : Bytes → Reply
  items : List Text → Bool → ℤ → Reply
  workspaces : List WorkspaceGrant → Reply
  link : Text → Text → Text → ℕ → Reply

pub data FileCall : Type 0 where
  write_call : WriteInput → FileCall
  edit_call : EditInput → FileCall
  move_call : MoveInput → FileCall
  delete_call : DeleteInput → FileCall

-- filepath.ToSlash(filepath.Clean(path))
unfoldable pub clean_path : Text → Text
unfolding slashed clean
clean_path path =
    let c = clean path in
    if c.rooted
    then b'/' ∷ (if same (slashed c.parts) (codes ".") then [] else slashed c.parts)
    else slashed c.parts

module _ {D : Type 0} (os : Os D) (fuel : ℕ) (files : Files) (app : App) (now : ℤ)
    (req : CallToolRequest) where
  -- the handlers' first step
  unfoldable pub granted : Text → Bool → Bool → Action D WorkspaceGrant
  granted workspace write remove = lift (app_grant app now req workspace write remove)

  unfoldable pub workspace_list : Action D Reply
  workspace_list = do
    identity ← lift (app_identity app now req)
    pure (workspaces (list app.access identity.user_id))

  unfoldable pub fs_list : ListInput → Action D Reply
  unfolding granted
  fs_list in_ = do
    g ← granted in_.workspace false false
    found ← list_files os fuel files g.id in_.path in_.recursive app.config.max_list_results
    pure (items found.0 found.1 app.config.max_list_results)

  unfoldable pub fs_read : ReadInput → Action D Reply
  unfolding granted
  fs_read in_ = do
    g ← granted in_.workspace false false
    bytes ← read os fuel files g.id in_.path in_.max_bytes
    pure (content bytes)

  unfoldable pub fs_write : WriteInput → Action D Reply
  unfolding granted
  fs_write in_ = do
    g ← granted in_.workspace true false
    write os fuel files g.id in_.path in_.content in_.overwrite
    pure (status (codes "written"))

  unfoldable pub fs_edit : EditInput → Action D Reply
  unfolding granted
  fs_edit in_ = do
    g ← granted in_.workspace true false
    edit os fuel files g.id in_.path in_.old_text in_.new_text
    pure (status (codes "edited"))

  unfoldable pub fs_move : MoveInput → Action D Reply
  unfolding granted
  fs_move in_ = do
    g ← granted in_.workspace true false
    move os fuel files g.id in_.source in_.destination
    pure (status (codes "moved"))

  unfoldable pub fs_delete : DeleteInput → Action D Reply
  unfolding granted
  fs_delete in_ = do
    g ← granted in_.workspace true true
    delete_file os fuel files g.id in_.path in_.confirm
    pure (status (codes "deleted"))

  unfoldable pub fs_search : (Text → Text → Option Bool) → SearchInput → Action D Reply
  unfolding granted
  fs_search glob in_ = do
    g ← granted in_.workspace false false
    lift (reject_if (same (trim_space in_.pattern) []) (tool pattern_required))
    found ←
        search_files os fuel files glob in_.pattern in_.query app.config.max_search_results g.id
          in_.path
    pure (items found.0 found.1 app.config.max_search_results)

  -- `documentPath`
  unfoldable pub document_path : Text → Text → Bool → Action D AbsPath
  document_path tenant path allow_missing = do
    root ← root_of os fuel files tenant
    resolved os fuel files root path allow_missing

  -- `time` is the clock of the links.
  unfoldable pub fs_link : Crypto → DownloadSigner → ℕ → LinkInput → Action D Reply
  unfolding granted document_path clean_path
  fs_link crypto downloads time in_ = do
    g ← granted in_.workspace false false
    document_path g.id in_.path false
    made ← lift (url crypto downloads time g.id (clean_path in_.path))
    pure (link g.id (clean_path in_.path) made.0 made.1)

  -- the calls that change files, as `Server` registers their handlers
  unfoldable pub handle : FileCall → Action D Reply
  unfolding fs_write fs_edit fs_move fs_delete
  handle (write_call in_) = fs_write in_
  handle (edit_call in_) = fs_edit in_
  handle (move_call in_) = fs_move in_
  handle (delete_call in_) = fs_delete in_
