-- ===== src/Password/Tests.antt =====
-- A password with a toy digest of 16 bytes.
use apipro.Base.{◌≡◌, refl, true, false, [], ◌∷◌, Text, codes, ok, replicate, length}
use apipro.Password.{
  Hashing, hash_password, verify_password, db_password, md5_hex, random_salt, verify-hash_password,
}
use apipro.Session.Hex.{hex}

abbrev first : Text → Text
first [] = replicate 16 0
first (c ∷ cs) = replicate 16 c

abbrev toy : Hashing
toy = record { md5_sum = first; encode_base64 = λ raw. raw }

length-first : (s : Text) → length (first s) ≡ 16
length-first [] = refl
length-first (c ∷ cs) = refl

abbrev stored : Text
unfolding hex
stored = hex (first (codes "ab"))

hashed : hash_password toy (codes "ab") (ok (codes "salt")) ≡ ok (stored, codes "salt")
unfolding hash_password db_password md5_hex random_salt stored hex
hashed = refl

verify-hash_password_example :
    (verify_password toy (codes "ab") stored (codes "salt") ≡ true)
    × (verify_password toy (codes "xy") stored (codes "salt") ≡ false)
unfolding md5_hex hex stored
verify-hash_password_example =
    verify-hash_password toy length-first (codes "ab") (codes "xy") (ok (codes "salt")) stored
      (codes "salt") hashed
