-- ===== src/Api/Kaptcha.antt =====
-- `KaptchaHandler`: a picture with a code for a phone number, at most one a minute. The bytes of crypto/rand
-- are a parameter, and the SVG around the code is left out.
use apipro.Base.{
  ℕ, zero, suc, ◌+◌, ◌%◌, ◌≡◌, refl, ap, ◌∙◌, Bool, true, false, [], ◌∷◌, ◌++◌, Text, length, codes,
  Result, ok, err, text_eq,
}
use apipro.Redis.{Redis, RedisLaws}

-- A bad request, the cooldown, or the picture of a code.
pub data Shown : Type 0 where
  missing_mobile cooldown : Shown
  image : Text → Shown

abbrev alphabet : Text
alphabet = codes "ABCDEFGHJKLMNPQRSTUVWXYZ23456789"

abbrev char_at : ℕ → Text → ℕ
char_at i [] = 0
char_at zero (c ∷ cs) = c
char_at (suc i) (c ∷ cs) = char_at i cs

-- The bytes are read one by one, from the given one on.
unfoldable pub code_from : (ℕ → ℕ) → ℕ → ℕ → Text
code_from bytes i zero = []
code_from bytes i (suc n) = char_at (bytes i % 32) alphabet ∷ code_from bytes (i + 1) n

unfoldable pub gen_kaptcha_code : (ℕ → ℕ) → ℕ → Text
unfolding code_from
gen_kaptcha_code bytes n = code_from bytes 0 n

abbrev pub cooldown_key : Text → Text
cooldown_key mobile = codes "yuyan:kaptcha:cd:" ++ mobile

abbrev pub kaptcha_key : Text → Text
kaptcha_key mobile = codes "yuyan:kaptcha:" ++ mobile

module _ (redis : Redis) (bytes : ℕ → ℕ) where
  open redis use {Db, setnx_ex, setex}

  -- An error of Redis lets the request pass.
  abbrev after_cooldown : Text → Db × Result ℕ Bool → Db × Shown
  after_cooldown mobile (db, ok false) = (db, cooldown)
  after_cooldown mobile (db, _) =
      let code = gen_kaptcha_code bytes 5 in
      ((setex (kaptcha_key mobile) code 300 db).0, image code)

  unfoldable pub kaptcha_handler : Text → Db → Db × Shown
  kaptcha_handler [] db = (db, missing_mobile)
  kaptcha_handler (c ∷ cs) db =
      let mobile = c ∷ cs in
      after_cooldown mobile (setnx_ex (cooldown_key mobile) (codes "1") 60 db)

module _ (redis : Redis) (bytes : ℕ → ℕ) where
  open redis use {Db, setnx_ex, setex}

  -- What is relied on of SETNX: where it answers, it takes no key that has a value.
  abbrev pub Setnx : RedisLaws redis → Type 0
  Setnx laws =
      (k v : Text) (t : ℕ) (db : Db) (b : Bool)
      → (setnx_ex k v t db).1 ≡ ok b
      → text_eq (laws.text db k) [] ≡ false
      → b ≡ false

  after_cooldown_inv :
      (mobile : Text) (p : Db × Result ℕ Bool) (db' : Db) (code : Text)
      → after_cooldown redis bytes mobile p ≡ (db', image code)
      → (code ≡ gen_kaptcha_code bytes 5) × (db' ≡ (setex (kaptcha_key mobile) code 300 p.0).0)
  after_cooldown_inv mobile (db, ok false) db' code e = cc
  after_cooldown_inv mobile (db, ok true) db' code e = (cc, cc)
  after_cooldown_inv mobile (db, err x) db' code e = (cc, cc)

  cooled :
      (mobile : Text) (p : Db × Result ℕ Bool)
      → p.1 ≡ ok false
      → (after_cooldown redis bytes mobile p).1 ≡ cooldown
  cooled mobile (db, ok false) e = refl
  cooled mobile (db, ok true) e = cc
  cooled mobile (db, err x) e = cc

  -- A picture for the number cd: followed by a number, if Redis takes its code, stores it under the
  -- cooldown key of that number: it has five characters, and the next request of the number itself, if
  -- Redis answers it, is refused for the cooldown.
  pub kaptcha_blocked :
      (laws : RedisLaws redis) (c : ℕ) (cs : Text) (db db' : Db) (code : Text) (b : Bool)
      → Setnx laws
      → kaptcha_handler redis bytes (codes "cd:" ++ c ∷ cs) db ≡ (db', image code)
      → (setex
          (cooldown_key (c ∷ cs))
          code
          300
          (setnx_ex (cooldown_key (codes "cd:" ++ c ∷ cs)) (codes "1") 60 db).0).1
        ≡ ok tt
      → (setnx_ex (cooldown_key (c ∷ cs)) (codes "1") 60 db').1 ≡ ok b
      → (length code ≡ 5) × ((kaptcha_handler redis bytes (c ∷ cs) db').1 ≡ cooldown)
  unfolding kaptcha_handler gen_kaptcha_code code_from
  kaptcha_blocked laws c cs db db' code b setnx shown taken answered =
      let key = cooldown_key (c ∷ cs) in
      let other = codes "cd:" ++ c ∷ cs in
      let p = setnx_ex (cooldown_key other) (codes "1") 60 db in
      let (made, stored) = after_cooldown_inv other p db' code shown in
      let held : laws.text db' key ≡ code =
        ap (λ x. laws.text x key) stored ∙ laws.setex-text key code 300 p.0 taken in
      let full : text_eq (laws.text db' key) [] ≡ false = ap (λ t. text_eq t []) (held ∙ made) in
      let refused : (setnx_ex key (codes "1") 60 db').1 ≡ ok false =
        answered ∙ ap ok (setnx key (codes "1") 60 db' b answered full) in
      (ap length made, cooled (c ∷ cs) (setnx_ex key (codes "1") 60 db') refused)
