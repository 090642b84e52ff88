-- ===== src/Tools/Calls.antt =====
-- A call of a file tool in internal/app/server.go changes files of the workspace that it is granted.
use mathlib.Core.List.{append_assoc}
use chat2work_mcp.Prelude.{
  ℕ, ◌≤◌, ◌<◌, ◌^◌, ◌-◌, ◌≡◌, ◌≢◌, ◌∙◌, refl, sym, ap, Bool, true, false, Option, some, [], ◌∷◌,
  ◌++◌, length, has_prefix, Text, Result, Result-cases, inl, inr, ok, err, Error,
}
use chat2work_mcp.Prelude.Int.{ℤ, pos_part}
use chat2work_mcp.Paths.{AbsPath, workspace_root}
use chat2work_mcp.Paths.Missing.{parts_of}
use chat2work_mcp.Paths.Isolation.{workspace_root-eq, within_one, granted-IsName}
use chat2work_mcp.Quota.{Files}
use chat2work_mcp.Access.{WorkspaceGrant, new_access_manager}
use chat2work_mcp.Access.Isolation.{ValidIds}
use chat2work_mcp.Disk.{Os, Bytes, Action, pure, lift, ◌>>=◌}
use chat2work_mcp.Disk.Steps.{After, After-bind, After-imp}
use chat2work_mcp.Disk.Lawful.{IsDirect, IsLawful, temp_prefix}
use chat2work_mcp.Files.{write, edit, move, delete_file}
use chat2work_mcp.Files.Opening.{After-lift}
use chat2work_mcp.Files.Writing.{write-Wrote}
use chat2work_mcp.Files.Editing.{edit-Edited}
use chat2work_mcp.Files.Removing.{delete_file-Deleted}
use chat2work_mcp.Files.Moving.{move-Moved}
use chat2work_mcp.Server.{App, CallToolRequest, app_grant}
use chat2work_mcp.Server.Authorized.{IsAuthorized, app_grant_iff}
use chat2work_mcp.Tools.{
  Reply, granted, FileCall, write_call, edit_call, move_call, delete_call, handle,
}
use chat2work_mcp.Tools.Isolation.{
  Confined, Wrote-Confined, Edited-Confined, Deleted-Confined, Moved-Confined,
}

-- What a call must be granted: to write, and for a deletion to delete.
abbrev pub grant_for : App → ℤ → CallToolRequest → FileCall → Result WorkspaceGrant
grant_for app now req (write_call i) = app_grant app now req i.workspace true false
grant_for app now req (edit_call i) = app_grant app now req i.workspace true false
grant_for app now req (move_call i) = app_grant app now req i.workspace true false
grant_for app now req (delete_call i) = app_grant app now req i.workspace true true

-- the workspace that a call names, and whether it deletes
abbrev pub workspace_of : FileCall → Text
workspace_of (write_call i) = i.workspace
workspace_of (edit_call i) = i.workspace
workspace_of (move_call i) = i.workspace
workspace_of (delete_call i) = i.workspace

abbrev pub deletes : FileCall → Bool
deletes (delete_call i) = true
deletes _ = false

-- The path names something below the workspace's directory, not a temporary file, and the fuel is
-- enough for it.
pub record IsBelow (fuel : ℕ) (path : Text) : Type 0 where
  pub pre : AbsPath
  pub name : Text
  pub parts : parts_of path ≡ pre ++ name ∷ []
  pub visible : has_prefix temp_prefix name ≡ false
  pub enough : length (parts_of path) ≤ fuel

-- The path that a call creates or replaces is such a path.
abbrev pub TargetsFile : ℕ → FileCall → Type 0
TargetsFile fuel (write_call i) = IsBelow fuel i.path
TargetsFile fuel (edit_call i) = IsBelow fuel i.path
TargetsFile fuel (move_call i) = IsBelow fuel i.destination
TargetsFile fuel (delete_call i) = Unit

module _ {D : Type 0} (os : Os D) (content : D → AbsPath → Option Bytes)
    (lawful : IsLawful os content) (fuel : ℕ) (f : Files) (app : App) (now : ℤ)
    (req : CallToolRequest) where
  unauthorized-err :
      (workspace : Text) (write remove : Bool)
      → ((g : WorkspaceGrant) → ¬ IsAuthorized app now req workspace write remove g)
      → (e : Error) × (app_grant app now req workspace write remove ≡ err e)
  unauthorized-err workspace write remove none_given =
      elim (Result-cases (app_grant app now req workspace write remove)) [
        | inr (e, refused) ↦ (e, refused)
        | inl (g, given) ↦
            absurd (none_given g ((app_grant_iff app now req workspace write remove g).0 given))
      ]

  -- A call of fs_write, fs_edit, fs_move or fs_delete whose caller is authorized for no workspace under
  -- the name that the call gives, as an editor or owner, for fs_delete as an owner: it returns an error
  -- and leaves the whole disk as it was.
  pub handle-unauthorized :
      (call : FileCall) (d : D)
      → ((g : WorkspaceGrant)
          → ¬ IsAuthorized app now req (workspace_of call) true (deletes call) g)
      → (e : Error) × (handle os fuel f app now req call d ≡ some (err e, d))
  unfolding handle granted ◌>>=◌
  handle-unauthorized (write_call i) d none_given =
      let (e, h) = unauthorized-err i.workspace true false none_given in (e, rw h refl)
  handle-unauthorized (edit_call i) d none_given =
      let (e, h) = unauthorized-err i.workspace true false none_given in (e, rw h refl)
  handle-unauthorized (move_call i) d none_given =
      let (e, h) = unauthorized-err i.workspace true false none_given in (e, rw h refl)
  handle-unauthorized (delete_call i) d none_given =
      let (e, h) = unauthorized-err i.workspace true true none_given in (e, rw h refl)

  Confined-reply :
      (root : AbsPath) (g : WorkspaceGrant) (r : Result WorkspaceGrant)
      (m : WorkspaceGrant → Action D (Unit {0})) (reply : Reply) (d : D)
      → r ≡ ok g
      → After (m g d) (λ _ d'. Confined os content lawful fuel f root d d')
      → After
          ((lift r >>= λ g. m g >>= λ _. pure reply) d)
          (λ _ d'. Confined os content lawful fuel f root d d')
  Confined-reply root g r m reply d at h = rw at (
      After-lift (λ _ d'. Confined os content lawful fuel f root d d')
        (λ g. m g >>= λ _. pure reply) d (ok g)
        (λ g' same_grant.
          let same_g : g' ≡ g = cc in
          rw same_g (
            After-bind (λ _ d'. Confined os content lawful fuel f root d d')
              (λ _ d'. Confined os content lawful fuel f root d d') (m g) (λ _. pure reply) d h
              (λ _ d' c. c) (λ e d' c. c)))
        (λ e bad. cc))

  -- A call changes no file outside the directory of the workspace that it is granted.
  pub handle-Confined :
      (call : FileCall) (g : WorkspaceGrant) (root : AbsPath) (d : D)
      → grant_for app now req call ≡ ok g
      → workspace_root f.base g.id ≡ ok root
      → root ≢ []
      → IsDirect (os.view d) root
      → TargetsFile fuel call
      → pos_part f.max_bytes < 2 ^ 63 - 1
      → After
          (handle os fuel f app now req call d)
          (λ _ d'. Confined os content lawful fuel f root d d')
  unfolding handle granted
  handle-Confined (write_call i) g root d h at ne direct t small =
      Confined-reply root g (app_grant app now req i.workspace true false)
        (λ g. write os fuel f g.id i.path i.content i.overwrite) _ d h
        (After-imp _ _ _
          (write-Wrote os content lawful fuel f d g.id i.path i.content i.overwrite root t.pre
            t.name at direct t.parts t.visible t.enough)
          (λ r d' w.
            Wrote-Confined os content lawful fuel f root t.pre d t.name i.content i.overwrite r d'
              w))
  handle-Confined (edit_call i) g root d h at ne direct t small =
      Confined-reply root g (app_grant app now req i.workspace true false)
        (λ g. edit os fuel f g.id i.path i.old_text i.new_text) _ d h
        (After-imp _ _ _
          (edit-Edited os content lawful fuel f root t.pre t.name i.path i.old_text i.new_text d
            g.id at direct t.parts t.visible t.enough small)
          (λ r d' w.
            Edited-Confined os content lawful fuel f root t.pre t.name i.path i.old_text i.new_text
              d r d' w))
  handle-Confined (move_call i) g root d h at ne direct t small =
      Confined-reply root g (app_grant app now req i.workspace true false)
        (λ g. move os fuel f g.id i.source i.destination) _ d h
        (After-imp _ _ _
          (move-Moved os content lawful fuel f d g.id i.source i.destination root t.pre t.name at ne
            direct t.parts t.enough)
          (λ r d' w. Moved-Confined os content lawful fuel f root t.pre i.source t.name d r d' w))
  handle-Confined (delete_call i) g root d h at ne direct t small =
      Confined-reply root g (app_grant app now req i.workspace true true)
        (λ g. delete_file os fuel f g.id i.path i.confirm) _ d h
        (After-imp _ _ _
          (delete_file-Deleted os content lawful fuel f d g.id i.path i.confirm root at ne direct)
          (λ r d' w. Deleted-Confined os content lawful fuel f root i.path i.confirm d r d' w))

  snoc_ne : (base : AbsPath) (name : Text) → base ++ name ∷ [] ≢ []
  snoc_ne [] name e = cc
  snoc_ne (x ∷ base) name e = cc

  authorized_name :
      (workspace : Text) (write remove : Bool) (g : WorkspaceGrant) (root : AbsPath)
      → app.access ≡ new_access_manager app.config
      → ValidIds app.config.workspaces
      → app_grant app now req workspace write remove ≡ ok g
      → workspace_root f.base g.id ≡ ok root
      → root ≡ f.base ++ g.id ∷ []
  authorized_name workspace write remove g root built ids h at =
      let known = (app_grant_iff app now req workspace write remove g).0 h in
      workspace_root-eq f.base g.id root
        (granted-IsName app.config known.identity.user_id workspace g ids
          (rw built at known.granted))
        at

  -- the directory of a workspace that a call is granted
  granted_name :
      (call : FileCall) (g : WorkspaceGrant) (root : AbsPath)
      → app.access ≡ new_access_manager app.config
      → ValidIds app.config.workspaces
      → grant_for app now req call ≡ ok g
      → workspace_root f.base g.id ≡ ok root
      → root ≡ f.base ++ g.id ∷ []
  granted_name (write_call i) g root built ids h at =
      authorized_name i.workspace true false g root built ids h at
  granted_name (edit_call i) g root built ids h at =
      authorized_name i.workspace true false g root built ids h at
  granted_name (move_call i) g root built ids h at =
      authorized_name i.workspace true false g root built ids h at
  granted_name (delete_call i) g root built ids h at =
      authorized_name i.workspace true true g root built ids h at

  -- The operating system obeys IsLawful, the access manager is built from a configuration whose
  -- workspaces have valid ids, a call of fs_write, fs_edit, fs_move or fs_delete is granted a
  -- workspace, no link leads to its directory, the path that the call creates or replaces is below it
  -- with enough fuel and does not begin with ".chat2work-", and the size limit is below 2^63 - 1. Then
  -- the call returns, and no file in the directory of another workspace has changed.
  pub handle-apart :
      (call : FileCall) (g : WorkspaceGrant) (root : AbsPath) (d : D) (other : Text)
      (rest : AbsPath)
      → app.access ≡ new_access_manager app.config
      → ValidIds app.config.workspaces
      → grant_for app now req call ≡ ok g
      → workspace_root f.base g.id ≡ ok root
      → IsDirect (os.view d) root
      → TargetsFile fuel call
      → pos_part f.max_bytes < 2 ^ 63 - 1
      → other ≢ g.id
      → After
          (handle os fuel f app now req call d)
          (λ _ d'. content d' (f.base ++ other ∷ rest) ≡ content d (f.base ++ other ∷ rest))
  handle-apart call g root d other rest built ids h at direct t small apart =
      let named = granted_name call g root built ids h at in
      After-imp _ _ (handle os fuel f app now req call d)
        (handle-Confined call g root d h at (λ e. snoc_ne f.base g.id (sym named ∙ e)) direct t
          small)
        (λ r d' c. c.outside (f.base ++ other ∷ rest) (λ below e. apart (
          within_one f.base other g.id rest below
            (e ∙ ap (λ (x : AbsPath). x ++ below) named ∙ append_assoc f.base (g.id ∷ []) below))))
