-- ===== src/Security/Verifying.antt =====
-- A password is accepted by the hash that was made of it.
use doc_chat_platform.Text.Laws.{text_eq→eq, text_eq_refl}
use doc_chat_platform.Security.Encoding.{IsBytes, has_no_dollar, no_dollar-b64, unb64-b64}
use doc_chat_platform.Text.{digit_value, Text, lstrip, rstrip, is_space, codes}
use doc_chat_platform.Security.{
  hash_password, Bytes, split_on, parse_int, verify_password, scheme_of, Hashes, prefix,
  compare_derived, b64,
}
use doc_chat_platform.Base.{
  [], some, true, false, refl, arith, ok, ◌≡◌, ◌++◌, ◌∷◌, ◌==◌, none, inl, inr, Option, ◌↔◌,
  Option-cases, ap,
}

split_on-none : (t : Text) → has_no_dollar t ≡ true → split_on b'$' t ≡ t ∷ []
unfolding split_on
split_on-none [] h = refl
split_on-none (c ∷ t) h =
    let e : (c == b'$') ≡ false = ground arith in rw e (rw (split_on-none t (ground arith)))

split_on-append :
    (t rest : Text)
    → has_no_dollar t ≡ true
    → split_on b'$' (t ++ (b'$' ∷ rest)) ≡ t ∷ split_on b'$' rest
unfolding split_on
split_on-append [] rest h = refl
split_on-append (c ∷ t) rest h =
    let e : (c == b'$') ≡ false = ground arith in rw e (rw (split_on-append t rest (ground arith)))

split-scheme :
    (salt digest : Bytes)
    → IsBytes salt
    → IsBytes digest
    → split_on b'$' (scheme_of salt digest)
      ≡ prefix ∷ codes "16384" ∷ codes "8" ∷ codes "1" ∷ b64 salt ∷ b64 digest ∷ []
split-scheme salt digest hs hd = rw (
  split_on-append prefix _ refl,
  split_on-append (codes "16384") _ refl,
  split_on-append (codes "8") _ refl,
  split_on-append (codes "1") _ refl,
  split_on-append (b64 salt) _ (no_dollar-b64 salt hs),
  split_on-none (b64 digest) (no_dollar-b64 digest hd),
)

read_numbers :
    (parse_int (codes "16384") ≡ some 16384)
    × (parse_int (codes "8") ≡ some 8)
    × (parse_int (codes "1") ≡ some 1)
unfolding parse_int digit_value lstrip rstrip is_space
read_numbers = (refl, refl, refl)

-- What `hash_password` returns, and the key in it.
hash_password-ok :
    (hashes : Hashes) (salt : Bytes) (password : Text) {encoded : Text}
    → hash_password hashes salt password ≡ ok encoded
    → (digest : Bytes) × (hashes.scrypt password salt 16384 8 1 ≡ some digest)
      × (encoded ≡ scheme_of salt digest)
unfolding hash_password
hash_password-ok hashes salt [] made = cc
hash_password-ok hashes salt (c ∷ cs) made =
    elim (Option-cases (hashes.scrypt (c ∷ cs) salt 16384 8 1)) [
      | inl e ↦ absurd (cc (rw e at made))
      | inr (digest, e) ↦ (digest, e, cc (rw e at made))
    ]

compared :
    (hashes : Hashes) (o : Option Bytes) (digest : Bytes)
    → (compare_derived hashes o digest ≡ true) ↔ (o ≡ some digest)
compared hashes none digest = (λ h. cc, λ h. cc)
compared hashes (some actual) digest = (
  λ h. ap some (text_eq→eq actual digest h),
  λ h. let e : actual ≡ digest = cc in rw e (text_eq_refl digest),
)

module _ (hashes : Hashes) (salt : Bytes) (password other : Text) {encoded : Text} where
  -- A hash of a password, made with any salt, accepts exactly the passwords that scrypt gives the
  -- same key from that salt and the parameters of the program; so it accepts the password itself,
  -- and never one for which scrypt fails.
  pub verify_password-hash_password :
      ((key : Bytes) → hashes.scrypt password salt 16384 8 1 ≡ some key → IsBytes key)
      → IsBytes salt
      → hash_password hashes salt password ≡ ok encoded
      → (verify_password hashes other encoded ≡ true)
        ↔ (hashes.scrypt other salt 16384 8 1 ≡ hashes.scrypt password salt 16384 8 1)
  unfolding verify_password
  verify_password-hash_password keys hs made =
      let h = hash_password-ok hashes salt password made in
      rw h.2 (
        rw (split-scheme salt h.0 hs (keys h.0 h.1)) (
          rw
            (
              text_eq_refl prefix,
              unb64-b64 salt hs,
              unb64-b64 h.0 (keys h.0 h.1),
              read_numbers.0,
              read_numbers.1,
              read_numbers.2,
            )
            (rw h.1 (compared hashes (hashes.scrypt other salt 16384 8 1) h.0))))
