-- ===== src/Accounts/Creating.antt =====
-- A user who was created can sign in with the password that was given.
use doc_chat_platform.Security.Verifying.{verify_password-hash_password}
use doc_chat_platform.Text.Laws.{text_eq_refl}
use doc_chat_platform.Security.Encoding.{IsBytes}
use doc_chat_platform.Text.{Text, lower, strip}
use doc_chat_platform.Accounts.{
  Settings, Accounts, User, create_user, user_named, has_username, hashed, server_error_on_many,
  insert_user, refuse_known, new_user, or_text, has_user_id, login, create_session, has_token_hash,
  log_in,
}
use doc_chat_platform.Security.{
  Hashes, Bytes, HashError, hash_password, hash_session_token, verify_password,
}
use doc_chat_platform.Sql.{scalar_one_or_none, select_where, TooMany}
use doc_chat_platform.Base.{
  [], none, some, true, inl, inr, refl, arith, ok, err, Bool, List, Option, ◌++◌, ◌≡◌, ℕ, ◌∷◌,
  Result, continue, ◌>>◌, lift, ◌>>=◌, Bool-cases, any, ◌||◌, false,
}

module _ {A : Type 0} (p : A → Bool) where
  select_where-append :
      (xs ys : List A) → select_where p (xs ++ ys) ≡ select_where p xs ++ select_where p ys
  unfolding select_where
  select_where-append [] ys = refl
  select_where-append (x ∷ xs) ys = ground (arith, select_where-append xs ys)

  only_new :
      (rows : List A) (x : A)
      → scalar_one_or_none rows ≡ ok none
      → scalar_one_or_none (rows ++ (x ∷ [])) ≡ ok (some x)
  unfolding scalar_one_or_none
  only_new [] x e = refl
  only_new (y ∷ []) x e = cc
  only_new (y ∷ z ∷ r) x e = cc

  scalar-append_one :
      (xs : List A) (x : A)
      → scalar_one_or_none (select_where p xs) ≡ ok none
      → p x ≡ true
      → scalar_one_or_none (select_where p (xs ++ (x ∷ []))) ≡ ok (some x)
  scalar-append_one xs x e t =
      rw (select_where-append xs (x ∷ []))
        (unfold select_where in rw t (only_new (select_where p xs) x e))

module _ (hashes : Hashes) (settings : Settings) (i : ℕ) (salt : Bytes)
    (username password display : Text) (admin : Bool) (a a' : Accounts) (u : User) where
  inserted :
      (encoded : Result HashError Text)
      → continue
          (hashed hashes settings encoded)
          (λ t. insert_user hashes settings (
            new_user hashes settings i
              (lower (strip username))
              (or_text hashes settings display (strip username))
              admin
              t))
          a
        ≡ (ok u, a')
      → (t : Text) × (encoded ≡ ok t)
        × (u
            ≡ new_user hashes settings i
                (lower (strip username))
                (or_text hashes settings display (strip username))
                admin
                t)
        × (a' ≡ record a { users = a.users ++ (u ∷ []) })
  inserted (err e) h = cc
  inserted (ok t) h =
      let v =
        new_user hashes settings i (lower (strip username))
          (or_text hashes settings display (strip username)) admin t in
      elim (Bool-cases (any (has_user_id v.id) a.users || any (has_username v.username) a.users)) [
        | inl e ↦ absurd (cc (rw e at h))
        | inr e ↦ let h' = rw e at h in (t, refl, cc h', cc h')
      ]

  refused_or_inserted :
      (o : Result TooMany (Option User))
      → continue
          (server_error_on_many o)
          (λ found.
            refuse_known hashes settings found
            >> (lift (hashed hashes settings (hash_password hashes salt password)) >>= λ t.
                insert_user hashes settings (
                  new_user hashes settings i
                    (lower (strip username))
                    (or_text hashes settings display (strip username))
                    admin
                    t)))
          a
        ≡ (ok u, a')
      → (o ≡ ok none)
        × (t : Text) × (hash_password hashes salt password ≡ ok t)
        × (u
            ≡ new_user hashes settings i
                (lower (strip username))
                (or_text hashes settings display (strip username))
                admin
                t)
        × (a' ≡ record a { users = a.users ++ (u ∷ []) })
  refused_or_inserted (err e) h = cc
  refused_or_inserted (ok (some v)) h = cc
  refused_or_inserted (ok none) h =
      let r = inserted (hash_password hashes salt password) h in (refl, r.0, r.1, r.2, r.3)

  create_user_lem :
      create_user hashes settings i salt username password display admin a ≡ (ok u, a')
      → (scalar_one_or_none (select_where (has_username (lower (strip username))) a.users)
          ≡ ok none)
        × (t : Text) × (hash_password hashes salt password ≡ ok t)
        × (u
            ≡ new_user hashes settings i
                (lower (strip username))
                (or_text hashes settings display (strip username))
                admin
                t)
        × (a' ≡ record a { users = a.users ++ (u ∷ []) })
  unfolding create_user user_named
  create_user_lem h =
      refused_or_inserted
        (scalar_one_or_none (select_where (has_username (lower (strip username))) a.users)) h

login_succeeds :
    (hashes : Hashes) (settings : Settings) (dummy token username password h : Text) (now : ℕ)
    (a : Accounts) (u : User)
    → scalar_one_or_none (select_where (has_username (lower (strip username))) a.users)
      ≡ ok (some u)
    → verify_password hashes password u.password_hash ≡ true
    → u.is_active ≡ true
    → hash_session_token hashes token ≡ ok h
    → any (has_token_hash h) a.sessions ≡ false
    → (login hashes settings dummy token username password now a).0
      ≡ ok (token, log_in hashes settings now u)
unfolding login user_named create_session
login_succeeds hashes settings dummy token username password h now a u row pass active hash fresh =
    rw row (rw pass (rw active (rw hash (rw fresh))))

module _ (hashes : Hashes) (settings : Settings) (i : ℕ) (salt : Bytes)
    (username password display : Text) (admin : Bool) (a a' : Accounts) (u : User) where
  -- After an administrator has created a user, a login with the same name, however it is spelled in
  -- capitals or with white space around it, and the same password succeeds as that user, with a new
  -- token that has no session yet. (The keys of scrypt are bytes.)
  pub login-create_user :
      (dummy token spelled h : Text) (now : ℕ)
      → ((key : Bytes) → hashes.scrypt password salt 16384 8 1 ≡ some key → IsBytes key)
      → IsBytes salt
      → create_user hashes settings i salt username password display admin a ≡ (ok u, a')
      → lower (strip spelled) ≡ lower (strip username)
      → hash_session_token hashes token ≡ ok h
      → any (has_token_hash h) a.sessions ≡ false
      → (login hashes settings dummy token spelled password now a').0
        ≡ ok (token, log_in hashes settings now u)
  login-create_user dummy token spelled h now keys hs made same hash fresh =
      let c = create_user_lem hashes settings i salt username password display admin a a' u made in
      let named : has_username (lower (strip username)) u ≡ true =
        rw c.3 (text_eq_refl (lower (strip username))) in
      let pass : verify_password hashes password c.1 ≡ true =
        (verify_password-hash_password hashes salt password password keys hs c.2).1 refl in
      login_succeeds hashes settings dummy token spelled password h now a' u
        (rw same
          (rw c.4 (scalar-append_one (has_username (lower (strip username))) a.users u c.0 named)))
        (rw c.3 pass) (rw c.3) hash (rw c.4 fresh)
