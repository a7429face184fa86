-- ===== src/Password.antt =====
-- common/auth/pwd.go: salted password hashes. MD5, base64 and the random source of Go's standard
-- library are parameters.
mod Tests
use apipro.Base.{
  ℕ, suc, ◌+◌, ◌*◌, ◌≡◌, refl, sym, ap, ◌∙◌, Bool, true, false, not, ◌&&◌, ◌||◌, Bool-cases, inl,
  inr, List, [], ◌∷◌, ◌++◌, Text, text_eq, text_eq_refl, eq_of_text_eq, Result, ok, err, guard,
  ◌>>=◌, ◌>>◌, length, ◌==◌, arith, eq_ℤ, ℤ, pos, if◌then◌else◌,
}
use apipro.Session.Hex.{hex, length-hex}

abbrev pub pwd_type_md5 : ℤ
pwd_type_md5 = pos 2

pub data PasswordError : Type 0 where
  unsupported_pwd_type empty_password : PasswordError
  no_random : ℕ → PasswordError

-- The 16 bytes of MD5, and base64.
pub record Hashing : Type 0 where
  pub md5_sum : Text → Text
  pub encode_base64 : Text → Text

abbrev no_text : Text → Bool
no_text [] = true
no_text (c ∷ cs) = false

module _ (k : Hashing) where
  unfoldable pub md5_hex : Text → Text
  md5_hex s = hex (k.md5_sum s)

  unfoldable pub client_password : Text → ℤ → Result PasswordError Text
  client_password plain pwd_type = do
    guard (eq_ℤ pwd_type pwd_type_md5) unsupported_pwd_type
    guard (not (no_text plain)) empty_password
    ok (md5_hex plain)

  -- What `rand.Read` gave for the 32 bytes.
  unfoldable pub random_salt : Result ℕ Text → Result PasswordError Text
  random_salt (ok raw) = ok (k.encode_base64 raw)
  random_salt (err e) = err (no_random e)

  unfoldable pub db_password : Text → Text → Text
  db_password client_md5 salt = md5_hex (client_md5 ++ salt)

  unfoldable pub hash_password : Text → Result ℕ Text → Result PasswordError (Text × Text)
  hash_password plain_md5 drawn = do
    guard (not (no_text plain_md5)) empty_password
    salt ← random_salt drawn
    ok (db_password plain_md5 salt, salt)

  unfoldable pub verify_password : Text → Text → Text → Bool
  verify_password plain_md5 stored_hash salt =
      if no_text plain_md5 || no_text stored_hash
      then false
      else text_eq (db_password plain_md5 salt) stored_hash

no_text-long : (u : Text) → length u ≡ 32 → no_text u ≡ false
no_text-long [] e = absurd (omega arith)
no_text-long (c ∷ cs) e = refl

module _ (k : Hashing) (sized : (s : Text) → length (k.md5_sum s) ≡ 16) where
  no_text-md5_hex : (s : Text) → no_text (md5_hex k s) ≡ false
  unfolding md5_hex
  no_text-md5_hex s =
      no_text-long (hex (k.md5_sum s)) (length-hex (k.md5_sum s) ∙ ap (λ n. n * 2) (sized s))

  verify_stored :
      (q stored salt : Text)
      → no_text stored ≡ false
      → verify_password k q stored salt ≡ (not (no_text q) && text_eq (db_password k q salt) stored)
  unfolding verify_password
  verify_stored [] stored salt h = refl
  verify_stored (c ∷ cs) stored salt h = rw h

  -- With digests of 16 bytes, a hash that was made for a password verifies another one exactly if that is not empty and has the
  -- same digest with the salt; so it verifies the password it was made from.
  pub verify-hash_password :
      (p q : Text) (drawn : Result ℕ Text) (stored salt : Text)
      → hash_password k p drawn ≡ ok (stored, salt)
      → (verify_password k p stored salt ≡ true)
        × (verify_password k q stored salt
            ≡ (not (no_text q) && text_eq (md5_hex k (q ++ salt)) (md5_hex k (p ++ salt))))
  unfolding hash_password db_password random_salt
  verify-hash_password [] q drawn stored salt h = cc
  verify-hash_password (c ∷ cs) q (err e) stored salt h = cc
  verify-hash_password (c ∷ cs) q (ok raw) stored salt h =
      let p = c ∷ cs in
      let salted : k.encode_base64 raw ≡ salt = cc h in
      let made : md5_hex k (p ++ k.encode_base64 raw) ≡ stored = cc h in
      let digest : stored ≡ md5_hex k (p ++ salt) =
        sym made ∙ ap (λ t. md5_hex k (p ++ t)) salted in
      let filled : no_text stored ≡ false = ap no_text digest ∙ no_text-md5_hex (p ++ salt) in
      (
        verify_stored p stored salt filled
            ∙ ap (text_eq (md5_hex k (p ++ salt))) digest
            ∙ text_eq_refl (md5_hex k (p ++ salt)),
        verify_stored q stored salt filled
            ∙ ap (λ t. not (no_text q) && text_eq (md5_hex k (q ++ salt)) t) digest,
      )
