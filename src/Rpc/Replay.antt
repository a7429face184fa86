-- ===== src/Rpc/Replay.antt =====
-- The answer of a registration is given again for a minute.
use apipro.Base.{ℕ, ◌≡◌, ◌≢◌, sym, ap, ◌∙◌, true, [], ◌∷◌, Text, some, Result, ok, err}
use apipro.Degrade.{can_serve_level, level_write, mode_normal}
use apipro.Degrade.Order.{can_serve_level-write}
use apipro.Redis.{RedisLaws}
use apipro.Rpc.Auth.{answer}
use apipro.Rpc.Closed.{Still-shape}
use apipro.Rpc.Node.{Services, Node, M, after, gate, on_db}
use apipro.Rpc.Phone.{normalize_cc}
use apipro.Rpc.Register.{idem_key, register_shape, remember, replay, handle_register}
use apipro.Rpc.Wire.{Exit, RegisterReq, raw, replied}
use apipro.Session.Env.{World}

err_after :
    {Db A B : Type 0} (p : Node Db × Result Exit A) (f : A → M Db B) (e : Exit)
    → p.1 ≡ err e
    → (after p f).1 ≡ err e
err_after (n, ok a) f e h = cc
err_after {A = A} {B = B} (n, err e') f e h = let same : e' ≡ e = cc h in ap err same

pair_eq : {A B : Type 0} (p : A × B) (a : A) (b : B) → p.0 ≡ a → p.1 ≡ b → p ≡ (a, b)
pair_eq (a', b') a b h h' = ap (λ x. (x, b')) h ∙ ap (λ y. (a, y)) h'

module _ (w : World) (v : Services w) where
  open w use {redis}

  replayed :
      (r : Result ℕ Text) (body : Text) (n : Node redis.Db)
      → r ≡ ok body
      → body ≢ []
      → (replay w v r n).1 ≡ err (replied (answer (raw body)))
  unfolding replay
  replayed (err e) body n h full = cc
  replayed (ok []) body n h full = absurd (full (sym (cc h)))
  replayed (ok (c ∷ cs)) body n h full =
      let same : c ∷ cs ≡ body = cc h in ap (λ t. err (replied (answer (raw t)))) same

  shape_at :
      (req : RegisterReq) (n : Node redis.Db)
      → (register_shape w v req n).1 ≡ ok tt
      → register_shape w v req n ≡ (n, ok tt)
  shape_at req n h = pair_eq (register_shape w v req n) n (ok tt) ((Still-shape w v req).still n) h

  -- The answer that Redis stored for a registration is the reply to a further one with the same phone and
  -- country, if that can be decoded and has the right shape, the mode is NORMAL, the stored text is still
  -- there and Redis answers the look at it: no code and no password of the request is looked at.
  pub handle_register-remember :
      (laws : RedisLaws redis) (param_json body : Text) (req : RegisterReq) (db : redis.Db)
      (n : Node redis.Db) (t : Text)
      → let country = normalize_cc v.strings req.country_code in
        let key = idem_key country req.phone in
        body ≢ []
        → (redis.setex key body 60 db).1 ≡ ok tt
        → laws.text n.db key ≡ laws.text (remember w v country req.phone (ok body) db).0 key
        → (redis.get key n.db).1 ≡ ok t
        → n.degrade.mode ≡ mode_normal
        → v.parse_register param_json ≡ some req
        → (register_shape w v req n).1 ≡ ok tt
        → (handle_register w v param_json n).1 ≡ err (replied (answer (raw body)))
  unfolding handle_register remember gate on_db
  handle_register-remember laws param_json body req db n t full stored kept answered normal parsed
        shaped =
      let country = normalize_cc v.strings req.country_code in
      let key = idem_key country req.phone in
      let same : t ≡ body =
        laws.get-text key n.db t answered ∙ kept ∙ laws.setex-text key body 60 db stored in
      let open_gate : can_serve_level n.degrade level_write ≡ true =
        (can_serve_level-write n.degrade).1 normal in
      let n' : Node redis.Db = record n { db = (redis.get key n.db).0 } in
      let hit : (replay w v (redis.get key n.db).1 n').1 ≡ err (replied (answer (raw body))) =
        replayed (redis.get key n.db).1 body n' (answered ∙ ap ok same) full in
      rw (parsed, shape_at req n shaped, open_gate)
        (err_after (replay w v (redis.get key n.db).1 n') _ (replied (answer (raw body))) hit)
