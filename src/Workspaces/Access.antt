-- ===== src/Workspaces/Access.antt =====
-- Who may change a workspace.
use doc_chat_platform.Sql.Counting.{scalar-some}
use doc_chat_platform.Persist.{workspace_has_id}
use doc_chat_platform.Accounts.Guards.{Entitled, require_user-Entitled}
use doc_chat_platform.Sql.{TooMany, scalar_one_or_none, select_where}
use doc_chat_platform.Workspaces.{require_workspace_admin, workspace_of, found_or_404}
use mathlib.Core.List.{Memᴰ}
use doc_chat_platform.Database.{Workspace}
use doc_chat_platform.Accounts.{
  Settings, Credentials, Accounts, Principal, HttpError, require_user, only_admin,
}
use doc_chat_platform.Security.{Hashes}
use doc_chat_platform.Base.{
  none, some, true, inl, inr, refl, ok, err, List, Option, ℕ, Result, ◌≡◌, continue, lift, ◌>>=◌,
  pure, Bool-cases, ==_iff,
}

module _ (hashes : Hashes) (settings : Settings) (workspaces : List Workspace) (given : Credentials)
    (now i : ℕ) (a a' : Accounts) (w : Workspace) where
  abbrev Granted : Type 0
  Granted =
      Memᴰ w workspaces
      × (w.id ≡ i)
      × (p : Principal) × Entitled hashes settings given now a p
      × (p.is_admin ≡ true)

  workspace_passes :
      (q : Principal) (b : Accounts) (o : Result TooMany (Option Workspace))
      → Entitled hashes settings given now a q
      → scalar_one_or_none (select_where (workspace_has_id i) workspaces) ≡ o
      → continue (found_or_404 o) (λ v. only_admin hashes settings q >>= λ _. pure v) b ≡ (ok w, a')
      → Granted
  workspace_passes q b (err x) e o h = cc
  workspace_passes q b (ok none) e o h = cc
  workspace_passes q b (ok (some v)) e o h = elim (Bool-cases q.is_admin) [
    | inr f ↦ absurd (cc (rw f at h))
    | inl t ↦
        let same : w ≡ v = cc (rw t at h) in
        let found = scalar-some (workspace_has_id i) v workspaces o in
        (rw same found.0, rw same ((==_iff _ _).0 found.1), q, e, t)
  ]

  user_passes :
      (r : Result HttpError Principal × Accounts)
      → require_user hashes settings given now a ≡ r
      → continue r.0
          (λ q.
            lift (workspace_of i workspaces) >>= λ v. only_admin hashes settings q >>= λ _. pure v)
          r.1
        ≡ (ok w, a')
      → Granted
  user_passes (err x, b) r h = cc
  user_passes (ok q, b) r h =
      workspace_passes q b (scalar_one_or_none (select_where (workspace_has_id i) workspaces))
        (require_user-Entitled hashes settings given now a b q r) refl h

  -- The guard of the routes that change a workspace hands out only a workspace of the table, the one
  -- of the id in the path, and only to a principal that is an administrator. Where sign-in is off,
  -- as it is by default, that is any request, which acts as the user `local`. Where it is on, the
  -- principal is the user of a session that has not expired, active and in the tables, whose token
  -- is the cookie of the request, or the holder of the admin token, which is configured and
  -- presented in a header.
  pub require_workspace_admin-Granted :
      require_workspace_admin hashes settings workspaces given now i a ≡ (ok w, a')
      → Memᴰ w workspaces
        × (w.id ≡ i)
        × (p : Principal) × Entitled hashes settings given now a p
        × (p.is_admin ≡ true)
  unfolding require_workspace_admin
  require_workspace_admin-Granted h = user_passes (require_user hashes settings given now a) refl h
