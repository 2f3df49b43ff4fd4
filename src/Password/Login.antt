-- ===== src/Password/Login.antt =====
-- Logins after the password of a user was hashed again.
use caspaste.Prelude.{
  ◌≡◌, refl, sym, ap, ◌∙◌, Bool, true, false, Bool-cases, inl, inr, Option, none, some, [], ◌∷◌,
  Text, text_eq, text_eq_iff, text_eq_refl, has_prefix, length, All, arith,
}
use caspaste.Prelude.Base64.{AreBytes}
use caspaste.Password.Entries.{Entries, Result, ok, lookup, insert, load_file, content}
use caspaste.Password.Argon.{IdKey, Run, done, argon_key_len, hash_password, compared}
use caspaste.Password.Accounts.{
  check, check_hash, needs_rehash, hash_needs, login, and_rehash, load_and_check_with_rehash,
  rehash_password, written,
}
use caspaste.Password.Files.{IsPlain, Distinct, IsWritable, load_file-content, load_file-IsWritable}
use caspaste.Password.Verify.{hash_of, verify_hash_of, hash_of-IsPlain}

lookup-insert : (user hash : Text) (d : Entries) → lookup user (insert user hash d) ≡ some hash
unfolding lookup insert
lookup-insert user hash [] = rw (text_eq_refl user) refl
lookup-insert user hash ((u, h) ∷ d) = ground (arith, lookup-insert user hash d)

lookup-insert-other :
    (other user hash : Text) (d : Entries)
    → text_eq user other ≡ false
    → lookup other (insert user hash d) ≡ lookup other d
unfolding lookup insert
lookup-insert-other other user hash [] n = rw n refl
lookup-insert-other other user hash ((u, h) ∷ d) n =
    ground (arith, lookup-insert-other other user hash d n, text_eq_iff u user)

ap-IsPlain : {a b : Text} → a ≡ b → IsPlain a → IsPlain b
ap-IsPlain e p = rw (sym e) p

lookup-IsPlain :
    (user old : Text) (d : Entries)
    → All (λ e. IsPlain e.0 × IsPlain e.1) d
    → lookup user d ≡ some old
    → IsPlain user
unfolding lookup
lookup-IsPlain user old [] a f = cc
lookup-IsPlain user old ((u, h) ∷ d) a f = elim (Bool-cases (text_eq u user)) [
  | inl t ↦ ap-IsPlain ((text_eq_iff u user).0 t) a.0.0
  | inr g ↦ lookup-IsPlain user old d a.1 (ground (arith, g, f))
]

insert-IsPlain :
    (user hash : Text) (d : Entries)
    → All (λ e. IsPlain e.0 × IsPlain e.1) d
    → IsPlain user
    → IsPlain hash
    → All (λ e. IsPlain e.0 × IsPlain e.1) (insert user hash d)
unfolding insert
insert-IsPlain user hash [] a p q = ((p, q), tt)
insert-IsPlain user hash ((u, h) ∷ d) a p q = elim (Bool-cases (text_eq u user)) [
  | inl t ↦ rw t ((a.0.0, q), a.1)
  | inr f ↦ rw f (a.0, insert-IsPlain user hash d a.1 p q)
]

insert-others :
    (u user hash : Text) (d : Entries)
    → All (λ e. text_eq u e.0 ≡ false) d
    → text_eq u user ≡ false
    → All (λ e. text_eq u e.0 ≡ false) (insert user hash d)
unfolding insert
insert-others u user hash [] a f = (f, tt)
insert-others u user hash ((v, h) ∷ d) a f = elim (Bool-cases (text_eq v user)) [
  | inl t ↦ rw t (a.0, a.1)
  | inr g ↦ rw g (a.0, insert-others u user hash d a.1 f)
]

insert-Distinct : (user hash : Text) (d : Entries) → Distinct d → Distinct (insert user hash d)
unfolding insert
insert-Distinct user hash [] a = (tt, tt)
insert-Distinct user hash ((u, h) ∷ d) a = elim (Bool-cases (text_eq u user)) [
  | inl t ↦ rw t (a.0, a.1)
  | inr f ↦ rw f (insert-others u user hash d a.0 f, insert-Distinct user hash d a.1)
]

insert-IsWritable :
    (user old hash : Text) (d : Entries)
    → IsWritable d
    → lookup user d ≡ some old
    → IsPlain hash
    → IsWritable (insert user hash d)
insert-IsWritable user old hash d w f p = record {
  plain = insert-IsPlain user hash d w.plain (lookup-IsPlain user old d w.plain f) p;
  distinct = insert-Distinct user hash d w.distinct;
}

module _ (id_key : IdKey) (bcrypt : Text → Text → Bool) (user pass salt key : Text) where
  check_hash_of :
      (p key' : Text)
      → length key ≡ argon_key_len
      → AreBytes salt
      → AreBytes key
      → id_key p salt 3 65536 4 32 ≡ some key'
      → check_hash id_key bcrypt (some (hash_of salt key)) p ≡ done (text_eq key' key)
  unfolding check_hash has_prefix
  check_hash_of p key' l bs bk k = verify_hash_of id_key salt key p l bs bk ∙ ap (compared key) k

  argon_current : hash_needs id_key bcrypt (some (hash_of salt key)) ≡ false
  unfolding hash_needs has_prefix
  argon_current = refl

  after_check : (b : Bool) → and_rehash id_key bcrypt false (done b) ≡ done (ok (b, false))
  after_check false = refl
  after_check true = refl

  -- The file after the password of the user was hashed again.
  abbrev pub rewritten : Entries → Option Text
  rewritten d = some (content (insert user (hash_of salt key) d))

  rehash-written :
      (text : Text) (d : Entries)
      → load_file (some text) ≡ ok d
      → id_key pass salt 3 65536 4 32 ≡ some key
      → rehash_password id_key bcrypt written (some salt) (some text) user pass
        ≡ done (rewritten d, none)
  unfolding rehash_password hash_password
  rehash-written text d loads k = rw loads (rw k refl)

  loaded_again :
      (text old : Text) (d : Entries)
      → load_file (some text) ≡ ok d
      → lookup user d ≡ some old
      → load_file (rewritten d) ≡ ok (insert user (hash_of salt key) d)
  loaded_again text old d loads f = load_file-content (insert user (hash_of salt key) d) (
      insert-IsWritable user old (hash_of salt key) d (load_file-IsWritable text d loads) f
        (hash_of-IsPlain salt key))

  -- A login looks at the hash of its user alone.
  answer : Option Text → Text → Run (Result (Bool × Bool))
  answer hash p =
      and_rehash id_key bcrypt (hash_needs id_key bcrypt hash) (check_hash id_key bcrypt hash p)

  login-answer : (d : Entries) (u p : Text) → login id_key bcrypt (ok d) u p ≡ answer (lookup u d) p
  unfolding check needs_rehash answer
  login-answer d u p = refl

  login-user :
      (p key' : Text)
      → length key ≡ argon_key_len
      → AreBytes salt
      → AreBytes key
      → id_key p salt 3 65536 4 32 ≡ some key'
      → answer (some (hash_of salt key)) p ≡ done (ok (text_eq key' key, false))
  unfolding answer
  login-user p key' l bs bk k =
      ap (and_rehash id_key bcrypt (hash_needs id_key bcrypt (some (hash_of salt key))))
        (check_hash_of p key' l bs bk k)
      ∙ ap (λ n. and_rehash id_key bcrypt n (done (text_eq key' key))) argon_current
      ∙ after_check (text_eq key' key)

  login_after :
      (text old u p : Text) (d : Entries)
      → load_file (some text) ≡ ok d
      → lookup user d ≡ some old
      → load_and_check_with_rehash id_key bcrypt (rewritten d) u p
        ≡ answer (lookup u (insert user (hash_of salt key) d)) p
  unfolding load_and_check_with_rehash
  login_after text old u p d loads f =
      ap (λ r. login id_key bcrypt r u p) (loaded_again text old d loads f)
      ∙ login-answer (insert user (hash_of salt key) d) u p

  login_before :
      (text u p : Text) (d : Entries)
      → load_file (some text) ≡ ok d
      → load_and_check_with_rehash id_key bcrypt (some text) u p ≡ answer (lookup u d) p
  unfolding load_and_check_with_rehash
  login_before text u p d loads = ap (λ r. login id_key bcrypt r u p) loads ∙ login-answer d u p

  -- Let the file load, with a hash for the user, and let Argon2id give 32 bytes for the password.
  -- Then hashing the password again, if the file is written, gives a file from which the user logs
  -- in with just the passwords that Argon2id gives the same key for, without a call for another
  -- rehash, and from which every other user logs in as before.
  pub rehash_password-login :
      (text old other p key' q : Text) (d : Entries)
      → load_file (some text) ≡ ok d
      → lookup user d ≡ some old
      → length key ≡ argon_key_len
      → AreBytes salt
      → AreBytes key
      → id_key pass salt 3 65536 4 32 ≡ some key
      → id_key p salt 3 65536 4 32 ≡ some key'
      → text_eq user other ≡ false
      → (rehash_password id_key bcrypt written (some salt) (some text) user pass
          ≡ done (rewritten d, none))
        × (load_and_check_with_rehash id_key bcrypt (rewritten d) user p
            ≡ done (ok (text_eq key' key, false)))
        × (load_and_check_with_rehash id_key bcrypt (rewritten d) other q
            ≡ load_and_check_with_rehash id_key bcrypt (some text) other q)
  rehash_password-login text old other p key' q d loads f l bs bk kpass kp ne =
      let hash = hash_of salt key in
      (
        rehash-written text d loads kpass,
        login_after text old user p d loads f
            ∙ ap (λ o. answer o p) (lookup-insert user hash d)
            ∙ login-user p key' l bs bk kp,
        login_after text old other q d loads f
            ∙ ap (λ o. answer o q) (lookup-insert-other other user hash d ne)
            ∙ sym (login_before text other q d loads),
      )
