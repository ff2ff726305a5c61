-- ===== src/Accounts.antt =====
-- app/models/account.py, app/api/deps.py and app/api/auth.py: users, signed-in browsers, and who a
-- request comes from. A handler is a function of the tables; one that raises leaves them as they
-- were. The time, the new ids, the random token and its salt are arguments. The response's cookie
-- is the token that `login` returns.
pub mod Sessions
pub mod Logout
pub mod Guards
pub mod Creating
use doc_chat_platform.Sql.{
  scalar_one_or_none, update_where, count_where, TooMany, delete_where, find_where, select_where,
}
use doc_chat_platform.Security.{
  Hashes, hash_session_token, Bytes, HashError, hash_password, TokenError, verify_password,
  is_ascii,
}
use doc_chat_platform.Text.{Text, codes, text_eq, strip, lower}
use doc_chat_platform.Base.{
  [], none, some, true, false, ok, err, Bool, List, Option, Exec, ℕ, Result, ◌>>◌, raise, ◌+◌, pure,
  ltb, ◌∷◌, if◌then◌else◌, ◌==◌, ◌>>=◌, ◌*◌, all, modify, ◌&&◌, lift, not, gets, any, leb, ◌++◌,
  ◌||◌, or_option, is_empty,
}

pub record User : Type 0 where
  pub id : ℕ
  pub username : Text
  pub display_name : Text
  pub password_hash : Text
  pub is_admin : Bool
  pub is_active : Bool
  pub last_login_at : Option ℕ

pub record Session : Type 0 where
  pub token_hash : Text
  pub user_id : ℕ
  pub expires_at : ℕ
  pub last_seen_at : Option ℕ

pub record Accounts : Type 0 where
  pub users : List User
  pub sessions : List Session

-- The statuses that the handlers raise; `server_error` is an exception that no handler catches.
pub data HttpError : Type 0 where
  unauthorized forbidden not_found conflict server_error : HttpError

pub record Settings : Type 0 where
  pub auth_enabled : Bool
  pub admin_token : Text
  pub admin_username : Text
  pub admin_password : Text
  pub session_ttl_hours : ℕ

pub record Principal : Type 0 where
  pub subject : Text
  pub is_admin : Bool
  pub user_id : Option ℕ

-- What a request presents: the session cookie, the header X-Admin-Token and the bearer token.
pub record Credentials : Type 0 where
  pub cookie : Option Text
  pub x_admin_token : Option Text
  pub bearer : Option Text

abbrev pub local_username : Text
local_username = codes "local"

abbrev pub has_username : Text → User → Bool
has_username name u = text_eq u.username name

abbrev pub has_user_id : ℕ → User → Bool
has_user_id i u = u.id == i

abbrev pub has_token_hash : Text → Session → Bool
has_token_hash h s = text_eq s.token_hash h

-- A text that is there and not empty.
abbrev pub truthy : Option Text → Option Text
truthy none = none
truthy (some []) = none
truthy (some (c ∷ cs)) = some (c ∷ cs)

abbrev pub paired : Session → Option User → Option (Session × User) → Option (Session × User)
paired s none rest = rest
paired s (some u) rest = some (s, u)

-- The first row of `sessions` joined with `users` for a token.
unfoldable pub joined : Text → List User → List Session → Option (Session × User)
joined h users [] = none
joined h users (s ∷ ss) =
    let rest = joined h users ss in
    if has_token_hash h s then paired s (find_where (has_user_id s.user_id) users) rest else rest

abbrev pub see : ℕ → Session → Session
see now s = record s { last_seen_at = some now }

abbrev pub seen : Text → ℕ → Accounts → Accounts
seen h now a = record a { sessions = update_where (has_token_hash h) (see now) a.sessions }

abbrev pub live_user : Text → ℕ → Option (Session × User) → Exec HttpError Accounts (Option User)
live_user h now none = pure none
live_user h now (some (s, u)) =
    if leb s.expires_at now || not u.is_active
    then pure none
    else (do modify (seen h now); pure (some u))

abbrev pub resolve : ℕ → Result TokenError Text → Exec HttpError Accounts (Option User)
resolve now (err _) = raise server_error
resolve now (ok h) = do r ← gets (λ a. joined h a.users a.sessions); live_user h now r

abbrev pub with_cookie :
    {A : Type 0} → (Text → Exec HttpError Accounts A) → A → Option Text → Exec HttpError Accounts A
with_cookie f absent none = pure absent
with_cookie f absent (some token) = f token

unfoldable pub current_user : Hashes → Option Text → ℕ → Exec HttpError Accounts (Option User)
unfolding hash_session_token joined
current_user hashes cookie now =
    with_cookie (λ token. resolve now (hash_session_token hashes token)) none (truthy cookie)

abbrev pub server_error_on_many : {A : Type 0} → Result TooMany A → Result HttpError A
server_error_on_many (ok a) = ok a
server_error_on_many (err _) = err server_error

unfoldable pub user_named : Text → Exec HttpError Accounts (Option User)
user_named name a =
    (server_error_on_many (scalar_one_or_none (select_where (has_username name) a.users)), a)

unfoldable pub local_user : Exec HttpError Accounts (Option User)
unfolding user_named
local_user = user_named local_username

-- `secrets.compare_digest` raises a TypeError for a text with a character outside ASCII.
abbrev pub compare_digest : Text → Text → Result HttpError Bool
compare_digest presented expected =
    if all is_ascii presented && all is_ascii expected
    then ok (text_eq presented expected)
    else err server_error

unfoldable pub token_matches : Option Text → Text → Result HttpError Bool
token_matches none expected = ok false
token_matches (some []) expected = ok false
token_matches (some (c ∷ cs)) [] = ok false
token_matches (some (c ∷ cs)) (d ∷ ds) = compare_digest (c ∷ cs) (d ∷ ds)

abbrev pub local_principal : Option User → Principal
local_principal none = record { subject = local_username; is_admin = true; user_id = none }
local_principal (some u) = record { subject = local_username; is_admin = true; user_id = some u.id }

abbrev pub user_principal : User → Principal
user_principal u = record { subject = u.username; is_admin = u.is_admin; user_id = some u.id }

abbrev pub token_principal : Principal
token_principal = record { subject = codes "admin-token"; is_admin = true; user_id = none }

unfoldable pub by_token : Settings → Credentials → Exec HttpError Accounts Principal
unfolding token_matches
by_token settings given = do
  matches ←
      lift
        (token_matches (or_option (truthy given.x_admin_token) given.bearer) settings.admin_token)
  if matches then pure token_principal else raise unauthorized

abbrev pub principal_of : Settings → Credentials → Option User → Exec HttpError Accounts Principal
principal_of settings given none = by_token settings given
principal_of settings given (some u) = pure (user_principal u)

module _ (hashes : Hashes) (settings : Settings) where
  unfoldable pub require_user : Credentials → ℕ → Exec HttpError Accounts Principal
  unfolding current_user local_user by_token
  require_user given now =
      if settings.auth_enabled
      then (do u ← current_user hashes given.cookie now; principal_of settings given u)
      else (do u ← local_user; pure (local_principal u))

  abbrev pub only_admin : Principal → Exec HttpError Accounts Principal
  only_admin p = if p.is_admin then pure p else raise forbidden

  unfoldable pub require_admin : Credentials → ℕ → Exec HttpError Accounts Principal
  unfolding require_user
  require_admin given now = do p ← require_user given now; only_admin p

  -- `session_ttl_hours` in the unit of the clock, seconds
  abbrev pub new_session : Text → User → ℕ → Session
  new_session h u now = record {
    token_hash = h;
    user_id = u.id;
    expires_at = now + settings.session_ttl_hours * 3600;
    last_seen_at = some now;
  }

  abbrev pub log_in : ℕ → User → User
  log_in now u = record u { last_login_at = some now }

  -- A second row with the key of another is refused by the database.
  abbrev pub add_session : Session → User → ℕ → Exec HttpError Accounts Unit
  add_session s u now a =
      if any (has_token_hash s.token_hash) a.sessions then raise server_error a else (
        ok tt,
        record a {
          sessions = a.sessions ++ (s ∷ []);
          users = update_where (has_user_id u.id) (log_in now) a.users;
        },
      )

  abbrev pub keep_session : User → ℕ → Result TokenError Text → Exec HttpError Accounts Unit
  keep_session u now (err _) = raise server_error
  keep_session u now (ok h) = add_session (new_session h u now) u now

  unfoldable pub create_session : Text → User → ℕ → Exec HttpError Accounts Text
  unfolding hash_session_token
  create_session token u now = do keep_session u now (hash_session_token hashes token); pure token

  abbrev pub stored_hash : Text → Option User → Text
  stored_hash dummy none = dummy
  stored_hash dummy (some u) = u.password_hash

  abbrev pub admitted : Bool → Option User → Option User
  admitted matches none = none
  admitted matches (some u) = if matches && u.is_active then some u else none

  abbrev pub sign_in : Text → ℕ → Option User → Exec HttpError Accounts (Text × User)
  sign_in token now none = raise unauthorized
  sign_in token now (some u) = do t ← create_session token u now; pure (t, log_in now u)

  -- `dummy` is `_DUMMY_HASH`; `token` is what `new_session_token` returns. The result is the cookie
  -- and the user.
  unfoldable pub login : Text → Text → Text → Text → ℕ → Exec HttpError Accounts (Text × User)
  unfolding user_named create_session strip
  login dummy token username password now = do
    found ← user_named (lower (strip username))
    sign_in token now (admitted (verify_password hashes password (stored_hash dummy found)) found)

  abbrev pub forget : Result TokenError Text → Exec HttpError Accounts Unit
  forget (err _) = raise server_error
  forget (ok h) = modify (λ a. record a { sessions = delete_where (has_token_hash h) a.sessions })

  unfoldable pub logout : Option Text → Exec HttpError Accounts Unit
  unfolding hash_session_token
  logout cookie = with_cookie (λ token. forget (hash_session_token hashes token)) tt (truthy cookie)

  abbrev pub signed_in : Option User → Exec HttpError Accounts User
  signed_in none = raise unauthorized
  signed_in (some u) = pure u

  unfoldable pub me : Option Text → ℕ → Exec HttpError Accounts User
  unfolding current_user local_user
  me cookie now =
      if settings.auth_enabled
      then (do u ← current_user hashes cookie now; signed_in u)
      else (do u ← local_user; signed_in u)

  abbrev pub hashed : Result HashError Text → Result HttpError Text
  hashed (ok t) = ok t
  hashed (err _) = err server_error

  abbrev pub or_text : Text → Text → Text
  or_text [] b = b
  or_text (c ∷ cs) b = c ∷ cs

  abbrev pub insert_user : User → Exec HttpError Accounts User
  insert_user u a =
      if any (has_user_id u.id) a.users || any (has_username u.username) a.users
      then raise server_error a
      else (ok u, record a { users = a.users ++ (u ∷ []) })

  abbrev pub new_user : ℕ → Text → Text → Bool → Text → User
  new_user i name display admin encoded = record {
    id = i;
    username = name;
    display_name = display;
    password_hash = encoded;
    is_admin = admin;
    is_active = true;
    last_login_at = none;
  }

  abbrev pub refuse_known : Option User → Exec HttpError Accounts Unit
  refuse_known none = pure tt
  refuse_known (some u) = raise conflict

  -- The body of `create_user`, for a caller whom `require_admin` lets through.
  unfoldable pub create_user : ℕ → Bytes → Text → Text → Text → Bool → Exec HttpError Accounts User
  unfolding user_named hash_password strip
  create_user i salt username password display admin = do
    found ← user_named (lower (strip username))
    refuse_known found
    encoded ← lift (hashed (hash_password hashes salt password))
    insert_user
        (new_user i (lower (strip username)) (or_text display (strip username)) admin encoded)

  abbrev pub add_local : ℕ → Bytes → Text → Option User → Exec HttpError Accounts Unit
  add_local i salt token (some u) = pure tt
  add_local i salt token none = do
    encoded ← lift (hashed (hash_password hashes salt token))
    u ← insert_user (new_user i local_username (codes "Local") true encoded)
    pure tt

  abbrev pub add_first : ℕ → Bytes → List User → Exec HttpError Accounts Unit
  add_first i salt (u ∷ us) = pure tt
  add_first i salt [] = do
    encoded ← lift (hashed (hash_password hashes salt settings.admin_password))
    u ← insert_user (
        new_user i (lower (strip settings.admin_username)) (strip settings.admin_username) true
          encoded)
    pure tt

  unfoldable pub bootstrap_first_user : ℕ → Bytes → Text → Exec HttpError Accounts Unit
  unfolding user_named hash_password strip
  bootstrap_first_user i salt token =
      if not settings.auth_enabled
      then (do found ← user_named local_username; add_local i salt token found)
      else if is_empty settings.admin_username || is_empty settings.admin_password
      then pure tt
      else (do users ← gets (λ a. a.users); add_first i salt users)

abbrev pub is_expired : ℕ → Session → Bool
is_expired now s = ltb s.expires_at now

unfoldable pub purge_expired_sessions : ℕ → Exec HttpError Accounts ℕ
purge_expired_sessions now a = (
  ok (count_where (is_expired now) a.sessions),
  record a { sessions = delete_where (is_expired now) a.sessions },
)
