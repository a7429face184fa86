-- ===== src/Codec/Blocks.antt =====
-- ECB over whole blocks, and encryption with its padding.
use apipro.Base.{
  ℕ, zero, suc, ◌+◌, ◌*◌, ◌/◌, ◌%◌, ◌<◌, ◌≡◌, ◌↔◌, refl, sym, ap, ◌∙◌, subst, [], ◌∷◌, ◌++◌, Text,
  length, take, drop, arith, ok, length-append, take-append-drop, take-append_length,
  drop-append_length, length-take, length-drop,
}
use mathlib.Core.Path.{ap₂}
use apipro.Codec.{
  block_size, pkcs7_pad, pkcs7_unpad, ecb_rounds, ecb_encrypt, ecb_decrypt, encrypt, decrypt,
}
use apipro.Codec.Cipher.{Aes, AesLaws, Bytes, IsBlock}
use apipro.Codec.Padding.{
  unpad-pad, pad-unpad, length-pkcs7_pad, pkcs7_pad-Bytes, Bytes-drop, Bytes-take, Bytes-append,
}

-- A text of `n` blocks.
abbrev pub Blocks : ℕ → Text → Type 0
Blocks n src = (length src ≡ n * 16) × Bytes src

first_IsBlock : (n : ℕ) (src : Text) → Blocks (suc n) src → IsBlock (take block_size src)
first_IsBlock n src h = (omega (arith, length-take 16 src), Bytes-take 16 src h.1)

rest_Blocks : (n : ℕ) (src : Text) → Blocks (suc n) src → Blocks n (drop block_size src)
rest_Blocks n src h = (omega (arith, length-drop 16 src), Bytes-drop 16 src h.1)

module _ (f : Text → Text) (keeps : (b : Text) → IsBlock b → IsBlock (f b)) where
  ecb_rounds-Blocks : (n : ℕ) (src : Text) → Blocks n src → Blocks n (ecb_rounds f n src)
  unfolding ecb_rounds
  ecb_rounds-Blocks zero src h = (omega arith, tt)
  ecb_rounds-Blocks (suc n) src h =
      let b = keeps _ (first_IsBlock n src h) in
      let rest = ecb_rounds-Blocks n (drop block_size src) (rest_Blocks n src h) in
      (
        omega (
          arith,
          length-append (f (take block_size src)) (ecb_rounds f n (drop block_size src)),
          b.0,
          rest.0,
        ),
        Bytes-append (f (take block_size src)) _ b.1 rest.1,
      )

  ecb_rounds_inverse :
      (g : Text → Text)
      → ((b : Text) → IsBlock b → g (f b) ≡ b)
      → (n : ℕ) (src : Text) → Blocks n src
      → ecb_rounds g n (ecb_rounds f n src) ≡ src
  unfolding ecb_rounds
  ecb_rounds_inverse g back zero [] h = refl
  ecb_rounds_inverse g back zero (b ∷ src) h = absurd (omega (arith, h.0))
  ecb_rounds_inverse g back (suc n) src h =
      let b = first_IsBlock n src h in
      let out = ecb_rounds f n (drop block_size src) in
      let first = f (take block_size src) in
      let size : length first ≡ 16 = (keeps (take block_size src) b).0 in
      ap₂ ◌++◌
        (ap g (ap (λ k. take k (first ++ out)) (sym size) ∙ take-append_length first out)
          ∙ back (take block_size src) b)
        (ap (ecb_rounds g n)
            (ap (λ k. drop k (first ++ out)) (sym size) ∙ drop-append_length first out)
          ∙ ecb_rounds_inverse g back n (drop block_size src) (rest_Blocks n src h))
      ∙ take-append-drop block_size src

module _ (aes : Aes) (laws : AesLaws aes) (key : Text) (sized : length key ≡ 16) where
  rounds : Text → ℕ
  rounds src = length src / block_size

  whole_Blocks :
      (src : Text) → length src % 16 ≡ 0 → Bytes src → Blocks (length src / block_size) src
  whole_Blocks src h b = (omega arith, b)

  padded_Blocks :
      (p : Text)
      → Bytes p
      → Blocks (length (pkcs7_pad p block_size) / block_size) (pkcs7_pad p block_size)
  padded_Blocks p b =
      whole_Blocks (pkcs7_pad p block_size) (omega (arith, length-pkcs7_pad p))
        (pkcs7_pad-Bytes p b)

  ecb_encrypt-Blocks : (n : ℕ) (src : Text) → Blocks n src → Blocks n (ecb_encrypt aes key src)
  unfolding ecb_encrypt
  ecb_encrypt-Blocks n src h =
      let e : length src / block_size ≡ n = omega (arith, h.0) in
      rw e
        (ecb_rounds-Blocks (aes.encrypt_block key) (λ b. laws.encrypt-IsBlock key b sized) n src h)

  ecb_decrypt-Blocks : (n : ℕ) (src : Text) → Blocks n src → Blocks n (ecb_decrypt aes key src)
  unfolding ecb_decrypt
  ecb_decrypt-Blocks n src h =
      let e : length src / block_size ≡ n = omega (arith, h.0) in
      rw e
        (ecb_rounds-Blocks (aes.decrypt_block key) (λ b. laws.decrypt-IsBlock key b sized) n src h)

  ecb_decrypt-encrypt :
      (n : ℕ) (src : Text) → Blocks n src → ecb_decrypt aes key (ecb_encrypt aes key src) ≡ src
  unfolding ecb_decrypt ecb_encrypt
  ecb_decrypt-encrypt n src h =
      let e : length src / block_size ≡ n = omega (arith, h.0) in
      let out = ecb_encrypt-Blocks n src h in
      let e' : length (ecb_encrypt aes key src) / block_size ≡ n = omega (arith, out.0) in
      ap (λ k. ecb_rounds (aes.decrypt_block key) k (ecb_encrypt aes key src)) e'
      ∙ ap (λ k. ecb_rounds (aes.decrypt_block key) n (ecb_rounds (aes.encrypt_block key) k src)) e
      ∙ ecb_rounds_inverse (aes.encrypt_block key) (λ b. laws.encrypt-IsBlock key b sized)
          (aes.decrypt_block key) (λ b. laws.decrypt-encrypt key b sized) n src h

  ecb_encrypt-decrypt :
      (n : ℕ) (src : Text) → Blocks n src → ecb_encrypt aes key (ecb_decrypt aes key src) ≡ src
  unfolding ecb_decrypt ecb_encrypt
  ecb_encrypt-decrypt n src h =
      let e : length src / block_size ≡ n = omega (arith, h.0) in
      let out = ecb_decrypt-Blocks n src h in
      let e' : length (ecb_decrypt aes key src) / block_size ≡ n = omega (arith, out.0) in
      ap (λ k. ecb_rounds (aes.encrypt_block key) k (ecb_decrypt aes key src)) e'
      ∙ ap (λ k. ecb_rounds (aes.encrypt_block key) n (ecb_rounds (aes.decrypt_block key) k src)) e
      ∙ ecb_rounds_inverse (aes.decrypt_block key) (λ b. laws.decrypt-IsBlock key b sized)
          (aes.encrypt_block key) (λ b. laws.encrypt-decrypt key b sized) n src h

  pub encrypt_lem :
      (p : Text) → encrypt aes p key ≡ ok (ecb_encrypt aes key (pkcs7_pad p block_size))
  unfolding encrypt
  encrypt_lem p = ground (arith, laws.accepts key sized, length-pkcs7_pad p)

  decrypt_lem :
      (ct : Text)
      → 0 < length ct
      → length ct % 16 ≡ 0
      → decrypt aes ct key ≡ pkcs7_unpad (ecb_decrypt aes key ct) block_size
  unfolding decrypt
  decrypt_lem ct h k = ground (arith, laws.accepts key sized)

  decrypt_inv :
      (ct p : Text)
      → decrypt aes ct key ≡ ok p
      → (length ct % 16 ≡ 0) × (pkcs7_unpad (ecb_decrypt aes key ct) block_size ≡ ok p)
  unfolding decrypt
  decrypt_inv ct p e = ground (arith, laws.accepts key sized)

  pub length-encrypt :
      (p ct : Text)
      → Bytes p
      → encrypt aes p key ≡ ok ct
      → (length ct ≡ (length p / 16 + 1) * 16) × Bytes ct
  length-encrypt p ct b e =
      let same : ecb_encrypt aes key (pkcs7_pad p block_size) ≡ ct = cc (encrypt_lem p) in
      let out = ecb_encrypt-Blocks _ (pkcs7_pad p block_size) (padded_Blocks p b) in
      let out' = subst (Blocks (length (pkcs7_pad p block_size) / block_size)) same out in
      (omega (arith, out'.0, length-pkcs7_pad p), out'.1)

  -- Decryption undoes encryption, and accepts nothing but what encryption makes.
  pub encrypt-decrypt_iff :
      (p ct : Text) → Bytes p → Bytes ct → (encrypt aes p key ≡ ok ct) ↔ (decrypt aes ct key ≡ ok p)
  encrypt-decrypt_iff p ct bp bc = (
    (λ e.
        let same : ecb_encrypt aes key (pkcs7_pad p block_size) ≡ ct = cc (encrypt_lem p) in
        let size = (length-encrypt p ct bp e).0 in
        decrypt_lem ct (omega (arith, size)) (omega (arith, size))
        ∙ ap (λ c. pkcs7_unpad (ecb_decrypt aes key c) block_size) (sym same)
        ∙ ap (λ c. pkcs7_unpad c block_size)
            (ecb_decrypt-encrypt _ (pkcs7_pad p block_size) (padded_Blocks p bp))
        ∙ unpad-pad p),
    (λ e.
        let (whole, unpadded) = decrypt_inv ct p e in
        let blocks = whole_Blocks ct whole bc in
        let plain = ecb_decrypt-Blocks _ ct blocks in
        encrypt_lem p
        ∙ ap ok (
            ap (ecb_encrypt aes key) (pad-unpad (ecb_decrypt aes key ct) p plain.1 unpadded)
            ∙ ecb_encrypt-decrypt _ ct blocks)),
  )
