-- ===== src/Accounts/Sessions.antt =====
-- A session: from the login to its end by time or by logout.
use doc_chat_platform.Sql.Finding.{find_where-update_where, find_where-key}
use doc_chat_platform.Text.Laws.{text_eq_refl}
use doc_chat_platform.Sql.Counting.{scalar-some}
use mathlib.Core.List.{Memᴰ}
use doc_chat_platform.Sql.Laws.{DistinctBy}
use doc_chat_platform.Sql.{update_where, TooMany, find_where, scalar_one_or_none, select_where}
use doc_chat_platform.Text.{Text, lower, strip}
use doc_chat_platform.Accounts.{
  Settings, User, Accounts, keep_session, has_token_hash, log_in, new_session, has_user_id, login,
  create_session, current_user, joined, user_named, server_error_on_many, Session, sign_in,
  admitted, has_username, stored_hash, live_user,
}
use doc_chat_platform.Security.{Hashes, hash_session_token, TokenError, verify_password}
use doc_chat_platform.Base.{
  [], true, false, inl, inr, ok, err, ℕ, Result, ◌≡◌, any, continue, pure, ◌++◌, Bool-cases, ◌∷◌,
  none, some, refl, arith, Bool, List, Option, is_empty, if◌then◌else◌, ap, leb, ◌+◌, ◌*◌,
}

-- What a login that succeeds leaves.
data LoggedIn (hashes : Hashes) (settings : Settings) (token : Text) (now : ℕ) (u : User)
    (a a' : Accounts) (r : Text × User) : Type 0 where
  logged_in :
      (h : Text)
      → hash_session_token hashes token ≡ ok h
      → any (has_token_hash h) a.sessions ≡ false
      → u.is_active ≡ true
      → r ≡ (token, log_in hashes settings now u)
      → a' ≡ record a {
        sessions = a.sessions ++ (new_session hashes settings h u now ∷ []);
        users = update_where (has_user_id u.id) (log_in hashes settings now) a.users;
      }
      → LoggedIn hashes settings token now u a a' r

module _ (hashes : Hashes) (settings : Settings) (token : Text) (now : ℕ) {a a' : Accounts} where
  created :
      (u : User) {r : Text × User} (t : Result TokenError Text)
      → hash_session_token hashes token ≡ t
      → u.is_active ≡ true
      → continue
          (continue
            (keep_session hashes settings u now t a).0
            (λ _. pure token)
            (keep_session hashes settings u now t a).1).0
          (λ t. pure (t, log_in hashes settings now u))
          (continue
            (keep_session hashes settings u now t a).0
            (λ _. pure token)
            (keep_session hashes settings u now t a).1).1
        ≡ (ok r, a')
      → LoggedIn hashes settings token now u a a' r
  created u (err e) t active h = cc
  created u (ok k) t active h = elim (Bool-cases (any (has_token_hash k) a.sessions)) [
    | inl e ↦ absurd (cc (rw e at h))
    | inr e ↦ let h' = rw e at h in logged_in k t e active (cc h') (cc h')
  ]

  entered :
      (u : User) (active : Bool) {r : Text × User}
      → u.is_active ≡ active
      → sign_in hashes settings token now (if active then some u else none) a ≡ (ok r, a')
      → LoggedIn hashes settings token now u a a' r
  unfolding create_session
  entered u false e h = cc
  entered u true e h = created u (hash_session_token hashes token) refl e h

  signed_in_as :
      (password_ok : Bool) (found : Option User) {r : Text × User}
      → sign_in hashes settings token now (admitted hashes settings password_ok found) a
        ≡ (ok r, a')
      → (u : User) × (found ≡ some u)
        × (password_ok ≡ true)
        × LoggedIn hashes settings token now u a a' r
  signed_in_as password_ok none h = cc
  signed_in_as true (some u) h = (u, refl, refl, entered u u.is_active refl h)
  signed_in_as false (some u) h = cc

  found_user :
      (name : Text) (o : Result TooMany (Option User)) {r : Text × User} (password dummy : Text)
      → continue
          (server_error_on_many o)
          (λ found. sign_in hashes settings token now (
            admitted hashes settings
              (verify_password hashes password (stored_hash hashes settings dummy found))
              found))
          a
        ≡ (ok r, a')
      → (u : User) × (o ≡ ok (some u))
        × (verify_password hashes password u.password_hash ≡ true)
        × LoggedIn hashes settings token now u a a' r
  found_user name (err e) password dummy h = cc
  found_user name (ok found) password dummy h =
      let s =
        signed_in_as (verify_password hashes password (stored_hash hashes settings dummy found))
          found h in
      (s.0, ap ok s.1, rw s.1 at s.2, s.3)

  login_lem :
      (dummy username password : Text) {r : Text × User}
      → login hashes settings dummy token username password now a ≡ (ok r, a')
      → (u : User) × Memᴰ u a.users
        × (has_username (lower (strip username)) u ≡ true)
        × (verify_password hashes password u.password_hash ≡ true)
        × LoggedIn hashes settings token now u a a' r
  unfolding login user_named
  login_lem dummy username password h =
      let name = lower (strip username) in
      let f =
        found_user name (scalar_one_or_none (select_where (has_username name) a.users)) password
          dummy h in
      let row = scalar-some (has_username name) f.0 a.users f.1 in (f.0, row.0, row.1, f.2, f.3)

joined-append :
    (h : Text) (users : List User) (ss : List Session) (s : Session) (u : User)
    → any (has_token_hash h) ss ≡ false
    → has_token_hash h s ≡ true
    → find_where (has_user_id s.user_id) users ≡ some u
    → joined h users (ss ++ (s ∷ [])) ≡ some (s, u)
unfolding joined
joined-append h users [] s u fresh t f = rw (t, f)
joined-append h users (x ∷ ss) s u fresh t f =
    let e : has_token_hash h x ≡ false = ground arith in
    rw e (joined-append h users ss s u (ground arith) t f)

-- What the cookie of a login tells later: the user, until the session's time is up.
told :
    (hashes : Hashes) (settings : Settings) (token : Text) (now t : ℕ) (u : User) {a a' : Accounts}
    {r : Text × User}
    → DistinctBy (λ u. u.id) a.users
    → Memᴰ u a.users
    → is_empty token ≡ false
    → LoggedIn hashes settings token now u a a' r
    → (current_user hashes (some r.0) t a').0
      ≡ ok (if leb (now + settings.session_ttl_hours * 3600) t then none else some r.1)
unfolding current_user
told hashes settings [] now t u d m e l = cc
told hashes settings (c ∷ cs) now t u {a} d m e (logged_in h hash fresh active r s) =
    rw r (rw s (rw hash (rw row (rw active until))))
  where
    until :
        (live_user h t
          (some (
            new_session hashes settings h u now,
            record (log_in hashes settings now u) { is_active = true },
          ))
          (record a {
            sessions = a.sessions ++ (new_session hashes settings h u now ∷ []);
            users = update_where (has_user_id u.id) (log_in hashes settings now) a.users;
          })).0
        ≡ ok (
            if leb (now + settings.session_ttl_hours * 3600) t
            then none
            else some (record (log_in hashes settings now u) { is_active = true }))
    until = elim (Bool-cases (leb (now + settings.session_ttl_hours * 3600) t)) [
      | inl e ↦ rw e
      | inr e ↦ rw e
    ]

    row :
        joined h
          (update_where (has_user_id u.id) (log_in hashes settings now) a.users)
          (a.sessions ++ (new_session hashes settings h u now ∷ []))
        ≡ some (new_session hashes settings h u now, log_in hashes settings now u)
    row =
        joined-append h (update_where (has_user_id u.id) (log_in hashes settings now) a.users)
          a.sessions (new_session hashes settings h u now) (log_in hashes settings now u) fresh
          (text_eq_refl h)
          (find_where-update_where (has_user_id u.id) (log_in hashes settings now) a.users u
            (find_where-key (λ x. x.id) u a.users d m) (λ x same. same))

module _ (hashes : Hashes) (settings : Settings) (dummy token username password : Text) (now : ℕ)
    (a a' : Accounts) (r : Text × User) where
  -- A login that succeeds is that of a user of the given name, in lower case and without the white
  -- space around it, whose stored hash accepts the password. Its cookie is the new token, and at any
  -- time the cookie tells that user until `session_ttl_hours` are over, and nobody from then on, as
  -- long as the tables are as the login left them, ids are keys and the token is not empty.
  pub current_user-login :
      DistinctBy (λ u. u.id) a.users
      → is_empty token ≡ false
      → login hashes settings dummy token username password now a ≡ (ok r, a')
      → (t : ℕ)
      → (r.0 ≡ token)
        × (has_username (lower (strip username)) r.1 ≡ true)
        × (verify_password hashes password r.1.password_hash ≡ true)
        × ((current_user hashes (some r.0) t a').0
            ≡ ok (if leb (now + settings.session_ttl_hours * 3600) t then none else some r.1))
  current_user-login d e h t =
      let l = login_lem hashes settings token now dummy username password h in
      let same = result_of l.4 in
      (
        ap (λ x. x.0) same,
        rw same l.2,
        rw same l.3,
        told hashes settings token now t l.0 d l.1 e l.4,
      )
    where
      result_of :
          {u : User}
          → LoggedIn hashes settings token now u a a' r
          → r ≡ (token, log_in hashes settings now u)
      result_of (logged_in k hash fresh active r s) = r
