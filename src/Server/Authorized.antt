-- ===== src/Server/Authorized.antt =====
-- What `(*App).grant` of internal/app/server.go lets through.
use chat2work_mcp.Prelude.{
  ◌≡◌, ◌↔◌, ◌⊎◌, refl, inl, inr, Bool, false, not, ◌&&◌, arith, Text, same_iff, Result-cases, ok,
}
use chat2work_mcp.Prelude.Int.{ℤ}
use chat2work_mcp.Access.{WorkspaceGrant, access_editor, access_owner, grant, can_write, can_delete}
use chat2work_mcp.Auth.{Identity}
use chat2work_mcp.Server.{App, CallToolRequest, app_identity, app_grant}

-- The access allows the call: editor or owner where it writes, owner where it deletes.
abbrev pub Suffices : Text → Bool → Bool → Type 0
Suffices access write remove =
    ((write ≡ false) ⊎ ((access ≡ access_editor) ⊎ (access ≡ access_owner)))
    × ((remove ≡ false) ⊎ (access ≡ access_owner))

-- The workspace that the call is given, and why.
pub record IsAuthorized (app : App) (now : ℤ) (req : CallToolRequest) (workspace : Text)
    (write remove : Bool) (given : WorkspaceGrant) : Type 0 where
  pub identity : Identity
  pub caller : app_identity app now req ≡ ok identity
  pub granted : grant app.access identity.user_id workspace ≡ ok given
  pub suffices : Suffices given.access write remove

tests-Suffices :
    (g : WorkspaceGrant) (write remove : Bool)
    → (remove && not (can_delete g.access)) ≡ false
    → (write && not (can_write g.access)) ≡ false
    → Suffices g.access write remove
unfolding can_write can_delete
tests-Suffices g write remove deletes writes = (
  ground (arith, writes, same_iff g.access access_editor, same_iff g.access access_owner),
  ground (arith, deletes, same_iff g.access access_owner),
)

Suffices-tests :
    (g : WorkspaceGrant) (write remove : Bool)
    → Suffices g.access write remove
    → ((remove && not (can_delete g.access)) ≡ false)
      × ((write && not (can_write g.access)) ≡ false)
unfolding can_write can_delete
Suffices-tests g write remove (writes, deletes) = (
  ground (arith, deletes, same_iff g.access access_owner),
  ground (arith, writes, same_iff g.access access_editor, same_iff g.access access_owner),
)

-- The three steps that a successful call has taken.
app_grant-steps :
    (app : App) (now : ℤ) (req : CallToolRequest) (workspace : Text) (write remove : Bool)
    (given : WorkspaceGrant)
    → app_grant app now req workspace write remove ≡ ok given
    → (identity : Identity) × (app_identity app now req ≡ ok identity)
      × (grant app.access identity.user_id workspace ≡ ok given)
      × ((remove && not (can_delete given.access)) ≡ false)
      × ((write && not (can_write given.access)) ≡ false)
unfolding app_grant
app_grant-steps app now req workspace write remove given h =
    elim (Result-cases (app_identity app now req)) [
      | inr (e, p) ↦ absurd (ground (arith, h, p))
      | inl (identity, p) ↦ elim (Result-cases (grant app.access identity.user_id workspace)) [
        | inr (e, q) ↦ absurd (ground (arith, h, p, q))
        | inl (g, q) ↦
            let same_grant : g ≡ given = ground (arith, h, p, q) in
            (
              identity,
              p,
              ground (arith, q, same_grant),
              ground (arith, h, p, q),
              ground (arith, h, p, q),
            )
      ]
    ]

-- A tool call is given a workspace exactly if its caller is known, `Grant` gives this caller the
-- workspace, and the access is editor or owner where the call writes, and owner where it deletes.
pub app_grant_iff :
    (app : App) (now : ℤ) (req : CallToolRequest) (workspace : Text) (write remove : Bool)
    (given : WorkspaceGrant)
    → (app_grant app now req workspace write remove ≡ ok given)
      ↔ IsAuthorized app now req workspace write remove given
unfolding app_grant
app_grant_iff app now req workspace write remove given = (
  (λ h.
      let (identity, caller, granted, deletes, writes) =
        app_grant-steps app now req workspace write remove given h in
      record {
        identity = identity;
        caller = caller;
        granted = granted;
        suffices = tests-Suffices given write remove deletes writes;
      }),
  (λ a.
      let (deletes, writes) = Suffices-tests given write remove a.suffices in
      rw (a.caller, a.granted, deletes, writes) refl),
)
