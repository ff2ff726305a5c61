-- ===== src/Accounts/Guards.antt =====
-- Whom the guards of the routes let through.
use doc_chat_platform.Sql.Counting.{scalar-none, scalar-some}
use doc_chat_platform.Text.Laws.{text_eq→eq}
use mathlib.Core.List.{Memᴰ}
use doc_chat_platform.Security.{Hashes, hash_session_token, TokenError, is_ascii}
use doc_chat_platform.Accounts.{
  joined, Settings, User, Accounts, Session, Credentials, live_user, has_token_hash, Principal,
  user_principal, has_user_id, token_principal, compare_digest, by_token, require_admin,
  require_user, current_user, token_matches, HttpError, truthy, resolve, only_admin, principal_of,
  unauthorized, local_user, local_principal, user_named, has_username, local_username,
  server_error_on_many,
}
use doc_chat_platform.Text.{Text, text_eq, codes}
use doc_chat_platform.Sql.{find_where, count_where, TooMany, scalar_one_or_none, select_where}
use doc_chat_platform.Base.{
  [], none, some, true, false, inl, inr, refl, arith, ok, Bool, List, Option, ◌≡◌, ℕ, ◌∷◌, ◌<◌,
  Bool-cases, leb, Option-cases, ◌||◌, ◌⊎◌, sym, is_empty, not, ==_iff, err, Result, or_option, ap,
  all, continue, ◌&&◌, if◌then◌else◌, pure, raise,
}

-- The session of a token, its user, and that both are good at the time `now`.
pub data LiveSession (h : Text) (now : ℕ) (a : Accounts) (u : User) : Type 0 where
  live_session :
      (s : Session)
      → Memᴰ s a.sessions
      → has_token_hash h s ≡ true
      → now < s.expires_at
      → Memᴰ u a.users
      → s.user_id ≡ u.id
      → u.is_active ≡ true
      → LiveSession h now a u

-- The user `local`, where there is one.
pub data LocalUser (a : Accounts) : Option User → Type 0 where
  no_user : count_where (λ u. text_eq u.username (codes "local")) a.users ≡ 0 → LocalUser a none
  one_user : (u : User) → Memᴰ u a.users → u.username ≡ codes "local" → LocalUser a (some u)

-- Where the rights of a request come from: where sign-in is off, any request acts as the user
-- `local`; where it is on, from a live session or from the admin token that is configured.
pub data Entitled (hashes : Hashes) (settings : Settings) (given : Credentials) (now : ℕ)
    (a : Accounts) (p : Principal) : Type 0 where
  sign_in_off :
      (found : Option User)
      → settings.auth_enabled ≡ false
      → LocalUser a found
      → p ≡ local_principal found
      → Entitled hashes settings given now a p
  by_session :
      (token h : Text) (u : User)
      → settings.auth_enabled ≡ true
      → given.cookie ≡ some token
      → hash_session_token hashes token ≡ ok h
      → LiveSession h now a u
      → p ≡ user_principal u
      → Entitled hashes settings given now a p
  by_admin_token :
      settings.auth_enabled ≡ true
      → (given.x_admin_token ≡ some settings.admin_token)
        ⊎ (given.bearer ≡ some settings.admin_token)
      → is_empty settings.admin_token ≡ false
      → p ≡ token_principal
      → Entitled hashes settings given now a p

module _ {A : Type 0} (p : A → Bool) where
  find_where-some : (xs : List A) {m : A} → find_where p xs ≡ some m → Memᴰ m xs × (p m ≡ true)
  unfolding find_where
  find_where-some [] h = cc
  find_where-some (x ∷ xs) {m} h = elim (Bool-cases (p x)) [
    | inl e ↦ let same : m ≡ x = cc (rw e at h) in (Memᴰ.head same, rw same e)
    | inr e ↦ let r = find_where-some xs (rw e at h) in (Memᴰ.tail r.0, r.1)
  ]

abbrev Pair : Text → List User → List Session → Session × User → Type 0
Pair h users ss r =
    Memᴰ r.0 ss × (has_token_hash h r.0 ≡ true) × Memᴰ r.1 users × (r.0.user_id ≡ r.1.id)

joined-some :
    (h : Text) (users : List User) (ss : List Session) {r : Session × User}
    → joined h users ss ≡ some r
    → Pair h users ss r
unfolding joined
joined-some h users [] e = cc
joined-some h users (s ∷ ss) {r} e = elim (Bool-cases (has_token_hash h s)) [
  | inr f ↦ behind (joined-some h users ss (rw f at e))
  | inl f ↦ elim (Option-cases (find_where (has_user_id s.user_id) users)) [
    | inl n ↦ behind (joined-some h users ss (rw n at (rw f at e)))
    | inr (u, n) ↦
        let same : r ≡ (s, u) = cc (rw n at (rw f at e)) in
        let found = find_where-some (has_user_id s.user_id) users n in
        rw same (Memᴰ.head refl, f, found.0, sym ((==_iff _ _).0 found.1))
  ]
]
  where
    behind : Pair h users ss r → Pair h users (s ∷ ss) r
    behind p = (Memᴰ.tail p.0, p.1, p.2, p.3)

module _ (hashes : Hashes) (settings : Settings) (given : Credentials) (now : ℕ)
    (a a' : Accounts) where
  live_user-some :
      (h : Text) (o : Option (Session × User)) {u : User}
      → joined h a.users a.sessions ≡ o
      → live_user h now o a ≡ (ok (some u), a')
      → LiveSession h now a u
  live_user-some h none j e = cc
  live_user-some h (some (s, v)) {u} j e =
      elim (Bool-cases (leb s.expires_at now || not v.is_active)) [
        | inl f ↦ absurd (cc (rw f at e))
        | inr f ↦
            let same : u ≡ v = cc (rw f at e) in
            let p = joined-some h a.users a.sessions j in
            rw same (live_session s p.0 p.1 (ground arith) p.2 p.3 (ground arith))
      ]

  resolved :
      (t : Result TokenError Text) {u : User}
      → resolve now t a ≡ (ok (some u), a')
      → (h : Text) × (t ≡ ok h) × LiveSession h now a u
  resolved (err _) e = cc
  resolved (ok h) e = (h, refl, live_user-some h (joined h a.users a.sessions) refl e)

  told_by :
      (cookie : Option Text) {u : User}
      → current_user hashes cookie now a ≡ (ok (some u), a')
      → (token : Text) × (h : Text) × (cookie ≡ some token)
        × (hash_session_token hashes token ≡ ok h)
        × LiveSession h now a u
  unfolding current_user
  told_by none e = cc
  told_by (some []) e = cc
  told_by (some (c ∷ cs)) e =
      let r = resolved (hash_session_token hashes (c ∷ cs)) e in (c ∷ cs, r.0, refl, r.1, r.2)

compare_digest-true : (t u : Text) → compare_digest t u ≡ ok true → t ≡ u
compare_digest-true t u e = elim (Bool-cases (all is_ascii t && all is_ascii u)) [
  | inl f ↦ text_eq→eq t u (cc (rw f at e))
  | inr f ↦ absurd (cc (rw f at e))
]

token_matches-true :
    (presented : Option Text) (expected : Text)
    → token_matches presented expected ≡ ok true
    → (presented ≡ some expected) × (is_empty expected ≡ false)
unfolding token_matches
token_matches-true none expected e = cc
token_matches-true (some []) expected e = cc
token_matches-true (some (c ∷ cs)) [] e = cc
token_matches-true (some (c ∷ cs)) (d ∷ ds) e =
    (ap some (compare_digest-true (c ∷ cs) (d ∷ ds) e), refl)

either_presents :
    (x b : Option Text) (expected : Text)
    → or_option (truthy x) b ≡ some expected
    → (x ≡ some expected) ⊎ (b ≡ some expected)
either_presents none b expected e = inr e
either_presents (some []) b expected e = inr e
either_presents (some (c ∷ cs)) b expected e = inl e

module _ (hashes : Hashes) (settings : Settings) (given : Credentials) (now : ℕ) (a a' : Accounts)
    (p : Principal) where
  with_token :
      settings.auth_enabled ≡ true
      → (matches : Result HttpError Bool) (b : Accounts)
      → token_matches (or_option (truthy given.x_admin_token) given.bearer) settings.admin_token
        ≡ matches
      → continue matches (λ m. if m then pure token_principal else raise unauthorized) b
        ≡ (ok p, a')
      → Entitled hashes settings given now a p
  with_token on (err x) b t e = cc
  with_token on (ok false) b t e = cc
  with_token on (ok true) b t e =
      let m =
        token_matches-true (or_option (truthy given.x_admin_token) given.bearer)
          settings.admin_token t in
      by_admin_token on (either_presents given.x_admin_token given.bearer settings.admin_token m.0)
        m.1 (cc e)

  with_cookie_or_token :
      settings.auth_enabled ≡ true
      → (r : Result HttpError (Option User) × Accounts) → current_user hashes given.cookie now a ≡ r
      → continue r.0 (principal_of settings given) r.1 ≡ (ok p, a')
      → Entitled hashes settings given now a p
  unfolding by_token
  with_cookie_or_token on (err x, b) c e = cc
  with_cookie_or_token on (ok none, b) c e =
      with_token on
        (token_matches (or_option (truthy given.x_admin_token) given.bearer) settings.admin_token) b
        refl e
  with_cookie_or_token on (ok (some u), b) c e =
      let t = told_by hashes settings given now a b given.cookie c in
      by_session t.0 t.1 u on t.2 t.3 t.4 (cc e)

  as_local :
      (o : Result TooMany (Option User))
      → settings.auth_enabled ≡ false
      → scalar_one_or_none (select_where (has_username local_username) a.users) ≡ o
      → continue (server_error_on_many o) (λ u. pure (local_principal u)) a ≡ (ok p, a')
      → Entitled hashes settings given now a p
  as_local (err x) off o e = cc
  as_local (ok none) off o e =
      sign_in_off none off (no_user (scalar-none (has_username local_username) a.users o)) (cc e)
  as_local (ok (some u)) off o e =
      let found = scalar-some (has_username local_username) u a.users o in
      sign_in_off (some u) off (one_user u found.0 (text_eq→eq u.username local_username found.1))
        (cc e)

  pub require_user-Entitled :
      require_user hashes settings given now a ≡ (ok p, a') → Entitled hashes settings given now a p
  unfolding require_user local_user user_named
  require_user-Entitled e = elim (Bool-cases settings.auth_enabled) [
    | inl on ↦ with_cookie_or_token on (current_user hashes given.cookie now a) refl (rw on at e)
    | inr off ↦
        as_local (scalar_one_or_none (select_where (has_username local_username) a.users)) off refl
          (rw off at e)
  ]

module _ (hashes : Hashes) (settings : Settings) (given : Credentials) (now : ℕ) (a a' : Accounts)
    (p : Principal) where
  let_through :
      (r : Result HttpError Principal × Accounts)
      → require_user hashes settings given now a ≡ r
      → continue r.0 (only_admin hashes settings) r.1 ≡ (ok p, a')
      → Entitled hashes settings given now a p × (p.is_admin ≡ true)
  let_through (err x, b) r e = cc
  let_through (ok q, b) r e = elim (Bool-cases q.is_admin) [
    | inr no_admin ↦ absurd (cc (rw no_admin at e))
    | inl admin ↦
        let same : p ≡ q = cc in
        rw same (require_user-Entitled hashes settings given now a b q r, admin)
  ]

  -- `require_admin` lets only an administrator through. Where sign-in is off, as it is by default,
  -- that is any request, with the rights of the user `local`. Where it is on, the cookie is the
  -- token of a session that has not expired, of a user who is active and stands in the tables, or
  -- the admin token is configured and is the header or the bearer token that the request presents;
  -- the rights are those of that user, or of the admin token.
  pub require_admin-Entitled :
      require_admin hashes settings given now a ≡ (ok p, a')
      → Entitled hashes settings given now a p × (p.is_admin ≡ true)
  unfolding require_admin
  require_admin-Entitled e = let_through (require_user hashes settings given now a) refl e
