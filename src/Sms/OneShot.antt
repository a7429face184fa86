-- ===== src/Sms/OneShot.antt =====
-- A code is accepted once.
use apipro.Base.{
  ℕ, ◌≡◌, refl, sym, ap, ◌∙◌, true, false, not, ◌||◌, [], ◌∷◌, Text, Result, ok, err, text_eq,
  eq_of_text_eq, arith, Bool-cases, inl, inr,
}
use apipro.Redis.{Redis, RedisLaws}
use apipro.Sms.{SmsStore, blank, bypassed, compared, verify}

module _ (r : Redis) (laws : RedisLaws r) where
  open laws use {text}

  compared-empty :
      (key input : Text) (p : r.Db × Result ℕ Text)
      → ((v : Text) → p.1 ≡ ok v → v ≡ [])
      → (compared r key input p).1 ≡ false
  unfolding compared
  compared-empty key input (db, err e) h = refl
  compared-empty key input (db, ok []) h = refl
  compared-empty key input (db, ok (c ∷ cs)) h = cc (h (c ∷ cs) refl)

  compared_ok :
      (key input : Text) (p : r.Db × Result ℕ Text)
      → (compared r key input p).1 ≡ true
      → (p.1 ≡ ok input) × ((compared r key input p).0 ≡ (r.del key p.0).0)
  unfolding compared
  compared_ok key input (db, err e) h = cc
  compared_ok key input (db, ok stored) h =
      elim (Bool-cases (blank stored || not (text_eq stored input))) [
        | inl e ↦ cc (rw e at h)
        | inr e ↦
            let same : text_eq stored input ≡ true = ground arith in
            (ap ok (eq_of_text_eq stored input same), rw e)
      ]

  verify_opened :
      (s : SmsStore) (key input : Text) (db : r.Db)
      → bypassed s input ≡ false
      → (verify r s key input db).1 ≡ true
      → verify r s key input db ≡ compared r key input (r.get key db)
  unfolding verify
  verify_opened s key input db plain h = elim (Bool-cases (blank input)) [
    | inl e ↦ cc (rw e at h)
    | inr e ↦ elim (Bool-cases (not s.connected)) [
      | inl e' ↦ cc (rw (e, plain, e') at h)
      | inr e' ↦ rw (e, plain, e')
    ]
  ]

  verify-empty :
      (s : SmsStore) (key input : Text) (db : r.Db)
      → bypassed s input ≡ false
      → text db key ≡ []
      → (verify r s key input db).1 ≡ false
  unfolding verify
  verify-empty s key input db plain h = elim (Bool-cases (blank input)) [
    | inl e ↦ rw e
    | inr e ↦ elim (Bool-cases (not s.connected)) [
      | inl e' ↦ rw (e, plain, e')
      | inr e' ↦
          rw (e, plain, e')
            (compared-empty key input (r.get key db) (λ v read. laws.get-text key db v read ∙ h))
    ]
  ]

  -- Without the bypass, a code is accepted only if Redis holds it under the key, and where Redis reports
  -- the deletion no code at all is accepted in any later state that keeps the key.
  pub verify_once :
      (s : SmsStore) (key input again : Text) (n : ℕ) (db later : r.Db)
      → bypassed s input ≡ false
      → bypassed s again ≡ false
      → (verify r s key input db).1 ≡ true
      → (r.del key (r.get key db).0).1 ≡ ok n
      → text later key ≡ text (verify r s key input db).0 key
      → (text db key ≡ input) × ((verify r s key again later).1 ≡ false)
  verify_once s key input again n db later plain plain' accepted deleted kept =
      let path = verify_opened s key input db plain accepted in
      let (read, removed) =
        compared_ok key input (r.get key db) (ap (λ o. o.1) (sym path) ∙ accepted) in
      (
        sym (laws.get-text key db input read),
        verify-empty s key again later plain' (
            kept
            ∙ ap (λ o. text o.0 key) path
            ∙ ap (λ d. text d key) removed
            ∙ laws.del-text key n (r.get key db).0 deleted),
      )
