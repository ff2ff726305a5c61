-- ===== src/Examples/People.antt =====
-- Users, sessions and guards.
use doc_chat_platform.Sql.{scalar_one_or_none, select_where, find_where, update_where}
use doc_chat_platform.Accounts.Sessions.{current_user-login}
use doc_chat_platform.Accounts.Logout.{current_user-logout}
use doc_chat_platform.Accounts.Creating.{login-create_user}
use doc_chat_platform.Examples.Calls.{toy_hashes, salt, toy_keys}
use doc_chat_platform.Security.{
  hash_session_token, b64, verify_password, is_ascii, unb64, parse_int,
}
use doc_chat_platform.Accounts.{
  Settings, login, Credentials, Accounts, require_admin, User, logout, create_user, has_username,
  unauthorized, user_principal, current_user,
}
use doc_chat_platform.Text.{codes, strip, Text, lstrip, rstrip, lower, is_space, text_eq}
use doc_chat_platform.Base.{
  [], none, some, true, false, refl, arith, ok, err, ◌≡◌, ◌≢◌, ◌∷◌, all, ap, length, if◌then◌else◌,
  leb, ◌+◌, ◌*◌,
}

abbrev pub settings : Settings
settings = record {
  auth_enabled = true;
  admin_token = codes "t0ken";
  admin_username = codes "Ada";
  admin_password = codes "secret";
  session_ttl_hours = 1;
}

abbrev pub ada : User
ada = record {
  id = 5;
  username = codes "ada";
  display_name = codes "Ada";
  password_hash = codes "scrypt$16384$8$1$AfoHAA$BgA";
  is_admin = true;
  is_active = true;
  last_login_at = none;
}

abbrev signed_out : Accounts
signed_out = record { users = ada ∷ []; sessions = [] }

abbrev pub signed_in_accounts : Accounts
signed_in_accounts = record {
  users = record ada { last_login_at = some 100 } ∷ [];
  sessions =
      record { token_hash = codes "tok"; user_id = 5; expires_at = 3700; last_seen_at = some 100 }
      ∷ [];
}

ada_logs_in :
    login toy_hashes settings [] (codes "tok") (codes " Ada") (codes "secret") 100 signed_out
    ≡ (ok (codes "tok", record ada { last_login_at = some 100 }), signed_in_accounts)
unfolding login verify_password scalar_one_or_none select_where text_eq lower is_space unb64
    parse_int update_where
ada_logs_in = refl

wrong_password :
    (login toy_hashes settings [] (codes "tok") (codes "ada") (codes "guess") 100 signed_out).0
    ≡ err unauthorized
unfolding login verify_password scalar_one_or_none select_where text_eq lower is_space unb64
    parse_int
wrong_password = refl

current_user-login_example :
    (codes "tok" ≡ codes "tok")
    × (has_username (lower (strip (codes " Ada"))) (record ada { last_login_at = some 100 }) ≡ true)
    × (verify_password toy_hashes (codes "secret") ada.password_hash ≡ true)
    × ((current_user toy_hashes (some (codes "tok")) 4000 signed_in_accounts).0
        ≡ ok (
            if leb (100 + 1 * 3600) 4000
            then none
            else some (record ada { last_login_at = some 100 })))
current_user-login_example =
    current_user-login toy_hashes settings [] (codes "tok") (codes " Ada") (codes "secret") 100
      signed_out signed_in_accounts (codes "tok", record ada { last_login_at = some 100 }) (tt, tt)
      refl ada_logs_in 4000

other_length : codes "x" ≢ codes "tok"
other_length e = absurd (omega (arith, ap length e))

hash_of_tok : (t : Text) → all is_ascii t ≡ true → hash_session_token toy_hashes t ≡ ok t
unfolding hash_session_token
hash_of_tok t h = rw h

current_user-logout_example :
    let a' = (logout toy_hashes settings (some (codes "tok")) signed_in_accounts).1 in
    ((logout toy_hashes settings (some (codes "tok")) signed_in_accounts).0 ≡ ok tt)
    × ((current_user toy_hashes (some (codes "tok")) 200 a').0 ≡ ok none)
    × ((current_user toy_hashes (some (codes "x")) 200 a').0
        ≡ (current_user toy_hashes (some (codes "x")) 200 signed_in_accounts).0)
current_user-logout_example =
    current_user-logout toy_hashes settings (codes "tok") (codes "x") (codes "tok") (codes "x")
      signed_in_accounts refl refl (hash_of_tok (codes "tok") refl) (hash_of_tok (codes "x") refl)
      other_length 200

abbrev pub with_cookie_of_ada : Credentials
with_cookie_of_ada = record { cookie = some (codes "tok"); x_admin_token = none; bearer = none }

ada_is_let_through : require_admin toy_hashes settings with_cookie_of_ada 200 signed_in_accounts ≡ (
  ok (user_principal ada),
  record signed_in_accounts {
    sessions =
        record { token_hash = codes "tok"; user_id = 5; expires_at = 3700; last_seen_at = some 200 }
        ∷ [];
  },
)
unfolding require_admin text_eq find_where update_where
ada_is_let_through = refl

abbrev grace : User
grace = record {
  id = 6;
  username = codes "grace";
  display_name = codes "Grace";
  password_hash = codes "scrypt$16384$8$1$AfoHAA$CAA";
  is_admin = false;
  is_active = true;
  last_login_at = none;
}

grace_is_created :
    create_user toy_hashes settings 6 salt (codes " Grace") (codes "password") [] false signed_out
    ≡ (ok grace, record signed_out { users = ada ∷ grace ∷ [] })
unfolding create_user b64 scalar_one_or_none select_where text_eq lower is_space
grace_is_created = refl

same_name : lower (strip (codes "GRACE")) ≡ lower (strip (codes " Grace"))
unfolding strip lstrip rstrip lower is_space
same_name = refl

login-create_user_example :
    (login toy_hashes settings []
      (codes "new")
      (codes "GRACE")
      (codes "password")
      300
      (record signed_out { users = ada ∷ grace ∷ [] })).0
    ≡ ok (codes "new", record grace { last_login_at = some 300 })
login-create_user_example =
    login-create_user toy_hashes settings 6 salt (codes " Grace") (codes "password") [] false
      signed_out (record signed_out { users = ada ∷ grace ∷ [] }) grace [] (codes "new")
      (codes "GRACE") (codes "new") 300 (toy_keys 8) (omega arith) grace_is_created same_name
      (hash_of_tok (codes "new") refl) refl
