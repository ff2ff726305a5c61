-- ===== src/Accounts/Logout.antt =====
-- The end of a session by logout.

use doc_chat_platform.Text.Laws.{text_eq→eq}
use doc_chat_platform.Sql.{find_where, delete_where}
use doc_chat_platform.Text.{Text}
use doc_chat_platform.Accounts.{
  Settings, User, Accounts, has_token_hash, has_user_id, current_user, joined, Session, live_user,
  logout, paired,
}
use doc_chat_platform.Security.{Hashes, hash_session_token}
use doc_chat_platform.Base.{
  [], true, false, inl, inr, ok, ℕ, ◌≡◌, Bool-cases, ◌∷◌, none, some, refl, Bool, List, Option,
  is_empty, if◌then◌else◌, ap, leb, ◌≢◌, ◌||◌, sym, not, ◌∙◌,
}

joined-delete_self :
    (h : Text) (users : List User) (ss : List Session)
    → joined h users (delete_where (has_token_hash h) ss) ≡ none
unfolding joined delete_where
joined-delete_self h users [] = refl
joined-delete_self h users (s ∷ ss) = elim (Bool-cases (has_token_hash h s)) [
  | inl e ↦ rw e (joined-delete_self h users ss)
  | inr e ↦ rw (e, e) (joined-delete_self h users ss)
]

not_same : (b : Bool) → (b ≡ true → ⊥) → b ≡ false
not_same true h = absurd (h refl)
not_same false h = refl

joined-delete_other :
    (h k : Text) (users : List User) (ss : List Session)
    → h ≢ k
    → joined h users (delete_where (has_token_hash k) ss) ≡ joined h users ss
unfolding joined delete_where
joined-delete_other h k users [] ne = refl
joined-delete_other h k users (s ∷ ss) ne = elim (Bool-cases (has_token_hash k s)) [
  | inr e ↦ rw e (
      ap
        (λ rest.
          if has_token_hash h s
          then paired s (find_where (has_user_id s.user_id) users) rest
          else rest)
        (joined-delete_other h k users ss ne))
  | inl e ↦
      let f : has_token_hash h s ≡ false =
        not_same (has_token_hash h s)
          (λ t. ne (sym (text_eq→eq s.token_hash h t) ∙ text_eq→eq s.token_hash k e)) in
      rw (e, f) (joined-delete_other h k users ss ne)
]

cookie_tells :
    (hashes : Hashes) (token : Text) (t : ℕ) (a b : Accounts) (h : Text)
    → is_empty token ≡ false
    → hash_session_token hashes token ≡ ok h
    → a.users ≡ b.users
    → joined h a.users a.sessions ≡ joined h b.users b.sessions
    → (current_user hashes (some token) t a).0 ≡ (current_user hashes (some token) t b).0
unfolding current_user
cookie_tells hashes [] t a b h e hash u j = cc
cookie_tells hashes (c ∷ cs) t a b h e hash u j =
    rw (hash, j) (live_anyhow (joined h b.users b.sessions))
  where
    live_anyhow : (o : Option (Session × User)) → (live_user h t o a).0 ≡ (live_user h t o b).0
    live_anyhow none = refl
    live_anyhow (some (s, u)) = elim (Bool-cases (leb s.expires_at t || not u.is_active)) [
      | inl e ↦ rw e
      | inr e ↦ rw e
    ]

nobody :
    (hashes : Hashes) (token : Text) (t : ℕ) (a : Accounts) (h : Text)
    → is_empty token ≡ false
    → hash_session_token hashes token ≡ ok h
    → joined h a.users a.sessions ≡ none
    → (current_user hashes (some token) t a).0 ≡ ok none
unfolding current_user
nobody hashes [] t a h e hash j = cc
nobody hashes (c ∷ cs) t a h e hash j = rw (hash, j)

logout_lem :
    (hashes : Hashes) (settings : Settings) (token : Text) (a : Accounts) (h : Text)
    → is_empty token ≡ false
    → hash_session_token hashes token ≡ ok h
    → logout hashes settings (some token) a
      ≡ (ok tt, record a { sessions = delete_where (has_token_hash h) a.sessions })
unfolding logout
logout_lem hashes settings [] a h e hash = cc
logout_lem hashes settings (c ∷ cs) a h e hash = rw hash

module _ (hashes : Hashes) (settings : Settings) (token other : Text) (h k : Text)
    (a : Accounts) where
  -- A logout with a cookie ends its session: from then on the cookie tells nobody, at any time. What
  -- the cookie of another session tells, one whose token has another hash, stays the same.
  pub current_user-logout :
      is_empty token ≡ false
      → is_empty other ≡ false
      → hash_session_token hashes token ≡ ok h
      → hash_session_token hashes other ≡ ok k
      → k ≢ h
      → (t : ℕ)
      → let a' = (logout hashes settings (some token) a).1 in
        ((logout hashes settings (some token) a).0 ≡ ok tt)
        × ((current_user hashes (some token) t a').0 ≡ ok none)
        × ((current_user hashes (some other) t a').0 ≡ (current_user hashes (some other) t a).0)
  current_user-logout e f hh hk ne t =
      let a' = record a { sessions = delete_where (has_token_hash h) a.sessions } in
      rw (logout_lem hashes settings token a h e hh) (
        refl,
        nobody hashes token t a' h e hh (joined-delete_self h a.users a.sessions),
        cookie_tells hashes other t a' a k f hk refl
            (joined-delete_other k h a.users a.sessions ne),
      )
