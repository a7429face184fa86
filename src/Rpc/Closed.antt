-- ===== src/Rpc/Closed.antt =====
-- Registration is open in NORMAL only, and what else closes it.
use apipro.Base.{
  ◌⊎◌, not, ◌&&◌, pos, ◌∷◌, ℕ, true, leb, eq_ℤ, if◌then◌else◌, [], List, Bool-cases, inl, inr, ◌≡◌,
  refl, sym, ◌∙◌, Bool, false, ◌≢◌, Text, ℤ, Option, none, some, Result, ok, err, subst,
}
use apipro.Degrade.{
  Mode, serve_table, Channel, can_serve_level, level_write, mode_normal, mode_degraded,
  promote_if_worse, severity,
}
use apipro.Degrade.Order.{can_serve_level-write}
use apipro.Models.{not_found, find_by_uid, find_by_phone}
use apipro.Password.{pwd_type_md5, empty_password, hash_password}
use apipro.Rpc.{code_business_error, code_rate_limited, code_phone_invalid}
use apipro.Rpc.Served.{Later, now, then_, whole_call-Keeps}
use apipro.Rpc.Show.{Shelf}
use apipro.Rpc.Keeps.{Moved}
use apipro.Rpc.Phone.{normalize_cc, validate_phone}
use apipro.Rpc.Auth.{no_text, text_or_empty}
use apipro.Rpc.Account.{handle_user_detail, member_or_exit, with_info, profile}
use apipro.Rpc.Node.{
  Services, Node, M, after, ◌>>=◌, require, gate, on_db, db_with_sem, db_failure, with_sem,
  record_db_error_for_degrade,
}
use apipro.Rpc.Register.{
  handle_register, idem_key, replay, check_codes, register_shape, register_user, register_row,
  hash_drawn, insert_hashed, register_account, registered_or_exit,
}
use apipro.Rpc.Wire
use apipro.Rpc.Wire.{
  Exit, RegisterReq, refusal, by_password, register_message, invalid_request, register_failed,
  nick_name_short, phone_malformed,
}
use apipro.Semaphore.{with_token}
use apipro.Session.{get_session}
use apipro.Session.Env.{World, Session}

module _ {Db : Type 0} where
  -- The step leaves the node as it is, with a value or without.
  pub record Still {A : Type 0} (m : M Db A) : Type 0 where
    pub still : (n : Node Db) → (m n).0 ≡ n

  Still-after :
      {A B : Type 0} (n : Node Db) (p : Node Db × Result Exit A) (f : A → M Db B)
      → p.0 ≡ n
      → ((a : A) → Still (f a))
      → (after p f).0 ≡ n
  Still-after n (n', ok a) f h k = (k a).still n' ∙ h
  Still-after n (n', err e) f h k = h

  Still-bind :
      {A B : Type 0} {m : M Db A} {f : A → M Db B}
      → Still m
      → ((a : A) → Still (f a))
      → Still (m >>= f)
  Still-bind {m = m} {f = f} h k = record { still = λ n. Still-after n (m n) f (h.still n) k }

  Still-require : (b : Bool) (e : Exit) → Still (require b e)
  unfolding require
  Still-require b e = record { still = λ n. refl }

module _ (w : World) (v : Services w) where
  open w use {redis}

  pub Still-shape : (req : RegisterReq) → Still (register_shape w v req)
  unfolding register_shape
  Still-shape req =
      Still-bind (Still-require _ _) λ a. Still-bind (Still-require _ _) λ b. Still-require _ _

  -- The fields that a registration needs.
  abbrev pub named : RegisterReq → Bool
  named req =
      eq_ℤ req.account_type (pos 1)
      && not (no_text req.phone)
      && not (no_text req.nick_name)
      && eq_ℤ req.pwd_type pwd_type_md5

  abbrev pub in_country : RegisterReq → Bool
  in_country req = validate_phone v.strings (normalize_cc v.strings req.country_code) req.phone

  -- The refusal of a registration that is closed: by its shape, if that is wrong, and else for the mode.
  abbrev pub closed_exit : Option RegisterReq → Exit
  closed_exit none = refusal code_business_error invalid_request
  closed_exit (some req) =
      if named req
      then (if leb 2 (v.rune_count req.nick_name)
          then (if in_country req
              then refusal code_rate_limited Wire.register_closed
              else refusal code_phone_invalid phone_malformed)
          else refusal code_business_error nick_name_short)
      else refusal code_business_error register_failed

  option_cases : {A : Type 0} (o : Option A) → (o ≡ none) ⊎ ((a : A) × (o ≡ some a))
  option_cases none = inl refl
  option_cases (some a) = inr (a, refl)

  -- While the mode is not NORMAL, every call of register is refused: one that cannot be decoded or has the
  -- wrong shape for that, and any other with the code for a limit, as closed. The node, the environment
  -- behind Redis and the driver included, stays as it is.
  pub register_closed :
      (param_json : Text) (n : Node redis.Db)
      → n.degrade.mode ≢ mode_normal
      → handle_register w v param_json n ≡ (n, err (closed_exit (v.parse_register param_json)))
  unfolding handle_register register_shape require gate
  register_closed param_json n h =
      let closed : can_serve_level n.degrade level_write ≡ false =
        elim (Bool-cases (can_serve_level n.degrade level_write)) [
          | inl e ↦ absurd (h ((can_serve_level-write n.degrade).0 e))
          | inr e ↦ e
        ] in
      elim (option_cases (v.parse_register param_json)) [
        | inl e ↦ rw e refl
        | inr (req, e) ↦ elim (Bool-cases (named req)) [
          | inr b1 ↦ rw (e, b1) refl
          | inl b1 ↦ elim (Bool-cases (leb 2 (v.rune_count req.nick_name))) [
            | inr b2 ↦ rw (e, b1, b2) refl
            | inl b2 ↦ elim (Bool-cases (in_country req)) [
              | inr b3 ↦ rw (e, b1, b2, b3) refl
              | inl b3 ↦ rw (e, b1, b2, b3, closed) refl
            ]
          ]
        ]
      ]

  missing :
      (uid : ℤ) (db : redis.Db)
      → (find_by_uid v.users uid db).1 ≡ err not_found
      → (profile w v uid db).1 ≡ err not_found
  unfolding profile with_info
  missing uid db h = rw h

  -- A node in NORMAL without a limit on its queries.
  abbrev pub normal_node : redis.Db → List Channel → Node redis.Db
  normal_node db watchers = record {
    db = db;
    degrade = record { mode = mode_normal; watchers = watchers };
    semaphore = none;
  }

  lost_profile :
      (sess : Session) (watchers : List Channel) (db : redis.Db)
      → (find_by_uid v.users sess.uid db).1 ≡ err not_found
      → (db_with_sem v.wake (profile w v sess.uid) (normal_node db watchers)).0.degrade.mode
        ≡ mode_degraded
  unfolding db_with_sem with_sem with_token record_db_error_for_degrade promote_if_worse severity
  lost_profile sess watchers db lost = rw (missing sess.uid db lost)

  lost_exit :
      (sess : Session) (watchers : List Channel) (db : redis.Db)
      → (find_by_uid v.users sess.uid db).1 ≡ err not_found
      → (db_with_sem v.wake (profile w v sess.uid) (normal_node db watchers)).1
        ≡ ok (err (db_failure not_found))
  unfolding db_with_sem with_sem with_token record_db_error_for_degrade promote_if_worse severity
  lost_exit sess watchers db lost = rw (missing sess.uid db lost)

  degraded :
      (sid : Text) (sess : Session) (watchers : List Channel) (db : redis.Db)
      → no_text sid ≡ false
      → (get_session w v.sessions sid db).1 ≡ ok sess
      → sess.is_guest ≡ false
      → (find_by_uid v.users sess.uid (get_session w v.sessions sid db).0).1 ≡ err not_found
      → (handle_user_detail w v sid (normal_node db watchers)).0.degrade.mode ≡ mode_degraded
  unfolding handle_user_detail require gate on_db member_or_exit can_serve_level serve_table
  degraded sid sess watchers db given found member lost =
      let db' = (get_session w v.sessions sid db).0 in
      rw (
        given,
        found,
        member,
        lost_exit sess watchers db' lost,
        lost_profile sess watchers db' lost,
      )

  Moved-degraded : (m : Mode) → Moved mode_degraded m → m ≡ mode_degraded
  Moved-degraded m (inl e) = e
  Moved-degraded m (inr (e, d)) = d

  later_degraded :
      {Json : Type 0} (shelf : Shelf redis Json) (n m : Node redis.Db)
      → Later w v shelf n m
      → n.degrade.mode ≡ mode_degraded
      → m.degrade.mode ≡ mode_degraded
  later_degraded shelf n m now h = h
  later_degraded shelf n m (then_ {m = k} r req stats counters pending) h =
      Moved-degraded m.degrade.mode (
        subst (λ x. Moved x m.degrade.mode) (later_degraded shelf n k r h)
          (whole_call-Keeps w v shelf req
            (record { node = k; stats = stats; counters = counters; pending = pending })).0)

  -- In NORMAL, with no limit on queries, a user's details that are asked for with a live session of a user
  -- whose row is gone put the mode to DEGRADED, and from then on, after any calls of any methods, every
  -- registration is refused, for its shape or else as closed, and leaves the node as it was.
  pub user_detail_closes_register :
      {Json : Type 0} (shelf : Shelf redis Json) (sid param_json : Text) (sess : Session)
      (watchers : List Channel) (db : redis.Db) (later : Node redis.Db)
      → no_text sid ≡ false
      → (get_session w v.sessions sid db).1 ≡ ok sess
      → sess.is_guest ≡ false
      → (find_by_uid v.users sess.uid (get_session w v.sessions sid db).0).1 ≡ err not_found
      → Later w v shelf (handle_user_detail w v sid (normal_node db watchers)).0 later
      → ((handle_user_detail w v sid (normal_node db watchers)).0.degrade.mode ≡ mode_degraded)
        × (handle_register w v param_json later
            ≡ (later, err (closed_exit (v.parse_register param_json))))
  user_detail_closes_register shelf sid param_json sess watchers db later given found member lost
        after' =
      let e = degraded sid sess watchers db given found member lost in
      (
        e,
        register_closed param_json later λ normal.
            let clash : mode_degraded ≡ mode_normal =
              sym (later_degraded shelf _ later after' e) ∙ normal in
            cc clash,
      )

  unhashed :
      (cc : Text) (req : RegisterReq) (db : redis.Db)
      → req.password ≡ []
      → (find_by_phone v.users cc req.phone db).1 ≡ err not_found
      → (register_user w v cc req db).1 ≡ err (by_password empty_password)
  unfolding register_user register_row hash_drawn hash_password insert_hashed
  unhashed cc req db empty free = rw (free, empty)

  register_account_unhashed :
      (cc : Text) (req : RegisterReq) (watchers : List Channel) (db : redis.Db)
      → req.password ≡ []
      → (find_by_phone v.users cc req.phone db).1 ≡ err not_found
      → let (n, ending) = register_account w v cc req (normal_node db watchers) in
        (n.degrade.mode ≡ mode_degraded)
        × (ending
            ≡ err (refusal code_business_error (register_message (by_password empty_password))))
  unfolding register_account registered_or_exit with_sem with_token record_db_error_for_degrade
      promote_if_worse severity
  register_account_unhashed cc req watchers db empty free =
      (rw (unhashed cc req db empty free), rw (unhashed cc req db empty free))

  not_replayed :
      (r : Result ℕ Text) (n : Node redis.Db) → text_or_empty r ≡ [] → replay w v r n ≡ (n, ok tt)
  unfolding replay
  not_replayed (err e) n h = refl
  not_replayed (ok []) n h = refl
  not_replayed (ok (c ∷ cs)) n h = cc h

  -- In NORMAL, with no limit on queries, a registration of the right shape that has no stored answer, whose
  -- codes pass and whose phone is free, but whose password is empty, is refused with the code for an
  -- error of the business and the message of the empty password, and puts the mode to DEGRADED.
  pub handle_register_unhashed :
      (param_json : Text) (req : RegisterReq) (watchers : List Channel) (db checked : redis.Db)
      → let country = normalize_cc v.strings req.country_code in
        let cached = redis.get (idem_key country req.phone) db in
        v.parse_register param_json ≡ some req
        → named req ≡ true
        → leb 2 (v.rune_count req.nick_name) ≡ true
        → in_country req ≡ true
        → text_or_empty cached.1 ≡ []
        → check_codes w v country req (normal_node cached.0 watchers)
          ≡ (normal_node checked watchers, ok tt)
        → req.password ≡ []
        → (find_by_phone v.users country req.phone checked).1 ≡ err not_found
        → let (n, ending) = handle_register w v param_json (normal_node db watchers) in
          (n.degrade.mode ≡ mode_degraded)
          × (ending
              ≡ err (refusal code_business_error (register_message (by_password empty_password))))
  unfolding handle_register register_shape require gate on_db can_serve_level serve_table
  handle_register_unhashed param_json req watchers db checked e b1 b2 b3 none_stored codes_pass
        empty free =
      let country = normalize_cc v.strings req.country_code in
      let cached = redis.get (idem_key country req.phone) db in
      rw
        (
          e,
          b1,
          b2,
          b3,
          not_replayed cached.1 (normal_node cached.0 watchers) none_stored,
          codes_pass,
        )
        (register_account_unhashed country req watchers checked empty free)
