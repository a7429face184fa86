-- ===== src/Chat/Routing.antt =====
-- The handler of comments, and the router, keep the invariant.
use apipro.Base.{ℕ, false, Text, ℤ, pos, ltb_ℤ, Option, none, some, codes}
use apipro.Chat.Comments.{deliver, publish, handle_comment, handle_like}
use apipro.Chat.Dispatch.{dispatch, handle_heart}
use apipro.Chat.Rules.{
  Steps-bind, Steps-return, Steps-here, Steps-change, Steps-on_db, Steps-ensure, Steps-if,
}
use apipro.Chat.Server.{Server, Services, send_binary, broadcast}
use apipro.Chat.Sound.{Grows, Grows-Relation, Grows-set_client}
use apipro.Chat.Speaking.{
  user_active, listed, address_allowed, ip_allowed, may_speak, rate_allows, admitted_content,
}
use apipro.Chat.Wire.{comment, CommentPush, CommentBody}
use apipro.Rpc.Auth.{no_text}
use apipro.Models.{UserTable, find_by_uid}
use apipro.Session.Env.{World}
use apipro.Chat.Guarding.{
  Keeping, Grows-fail, Grows-send_binary, Grows-broadcast, logged_in-Keeps, handle_login-Keeps,
  handle_logout-Keeps, handle_room_enter-Keeps, handle_room_leave-Keeps,
  handle_session_resume-Keeps,
}

module _ (w : World) (v : Services w) (c : ℕ) where
  open w use {redis}
  open redis use {Db, incr}

  handle_like-Keeps : (body : Text) → Keeping w v c (handle_like w v c body)
  unfolding handle_like
  handle_like-Keeps body =
      let r = Grows-Relation {Db = Db} in
      Steps-bind r (logged_in-Keeps w v c) (λ u.
        Steps-bind r (Steps-ensure r _ (λ s. r.still s)) (λ u.
          Steps-bind r (Steps-change r (Grows-send_binary w v c _ _))
            (λ u. Steps-bind r (Steps-here r) (λ s. Steps-change r (Grows-broadcast w v c _ _ _)))))

  user_active-Keeps :
      (o : Option (UserTable Db)) (uid : ℤ) → Keeping w v c (user_active w v c o uid)
  user_active-Keeps none uid = Steps-return Grows-Relation
  user_active-Keeps (some users) uid =
      Steps-if Grows-Relation (ltb_ℤ (pos 0) uid)
        (Steps-bind Grows-Relation (Steps-on_db Grows-Relation (find_by_uid users uid))
          (λ found. Steps-return Grows-Relation))
        (Steps-return Grows-Relation)

  listed-Keeps : (key ip : Text) → Keeping w v c (listed w v c key ip)
  listed-Keeps key ip =
      Steps-bind Grows-Relation (Steps-on_db Grows-Relation (v.collections.sismember key ip))
        (λ b. Steps-return Grows-Relation)

  ip_allowed-Keeps : (ip : Text) → Keeping w v c (ip_allowed w v c ip)
  unfolding ip_allowed
  ip_allowed-Keeps ip =
      let r = Grows-Relation {Db = Db} in
      Steps-bind r (listed-Keeps (codes "ban:ip:list") ip) (λ b.
        Steps-bind r (Steps-ensure r _ (Grows-fail w v c _ _)) (λ u.
          Steps-bind r (listed-Keeps (codes "black:ip:list") ip)
            (λ b. Steps-ensure r _ (Grows-fail w v c _ _))))

  address_allowed-Keeps : (ip : Text) → Keeping w v c (address_allowed w v c ip)
  unfolding address_allowed
  address_allowed-Keeps ip =
      Steps-if Grows-Relation (no_text ip) (Steps-return Grows-Relation) (ip_allowed-Keeps ip)

  may_speak-Keeps : (room : Text) → Keeping w v c (may_speak w v c room)
  unfolding may_speak
  may_speak-Keeps room =
      let r = Grows-Relation {Db = Db} in
      Steps-bind r (Steps-ensure r _ (Grows-fail w v c _ _)) (λ u. Steps-bind r (Steps-here r) (λ s.
        Steps-bind r (Steps-ensure r _ (Grows-fail w v c _ _)) (λ u.
          Steps-bind r (Steps-ensure r _ (Grows-fail w v c _ _)) (λ u.
            Steps-bind r (Steps-ensure r _ (Grows-fail w v c _ _)) (λ u.
              Steps-bind r (user_active-Keeps v.users_model (s.client c).uid) (λ known.
                Steps-bind r (Steps-ensure r _ (Grows-fail w v c _ _))
                  (λ u. address_allowed-Keeps (s.client c).ip)))))))

  rate_allows-Keeps : Keeping w v c (rate_allows w v c)
  unfolding rate_allows
  rate_allows-Keeps = record { keeps = λ s. Grows-set_client c _ s (λ e. e) (λ h. h) }

  admitted_content-Keeps : (raw : Text) → Keeping w v c (admitted_content w v c raw)
  unfolding admitted_content
  admitted_content-Keeps raw =
      let r = Grows-Relation {Db = Db} in
      Steps-bind r (Steps-ensure r _ (λ s. r.still s)) (λ u.
        Steps-bind r rate_allows-Keeps (λ allowed.
          Steps-bind r (Steps-ensure r _ (Grows-fail w v c _ _))
            (λ u. Steps-bind r (Steps-ensure r _ (Grows-fail w v c _ _)) (λ u. Steps-return r))))

  told-Keeps :
      (room push : Text) (op op' : ℕ) (body : Text) (db : Db) (s : Server Db)
      → Grows s (broadcast w v room op push (send_binary w v c op' body record s { db = db }))
  told-Keeps room push op op' body db s =
      let s1 = record s { db = db } in
      let s2 = send_binary w v c op' body s1 in
      Grows-Relation.chain s s2 (broadcast w v room op push s2)
        (Grows-send_binary w v c op' body s1) (Grows-broadcast w v c room op push s2)

  deliver-Keeps : (m : CommentPush) (s : Server Db) → Grows s (deliver w v c m s)
  unfolding deliver
  deliver-Keeps m s = told-Keeps m.room_num (v.marshal (comment m)) _ _ _ _ s

  publish-Keeps : (b : CommentBody) (content : Text) → Keeping w v c (publish w v c b content)
  unfolding publish
  publish-Keeps b content =
      let r = Grows-Relation {Db = Db} in
      Steps-bind r (Steps-here r) (λ s.
        Steps-bind r (Steps-on_db r (incr (codes "yuyan:chat:message_id")))
          (λ drawn. Steps-change r (deliver-Keeps _)))

  handle_comment-Keeps : (body : Text) → Keeping w v c (handle_comment w v c body)
  unfolding handle_comment
  handle_comment-Keeps body =
      let b = v.parse_comment body in
      let r = Grows-Relation {Db = Db} in
      Steps-bind r (logged_in-Keeps w v c) (λ u.
        Steps-bind r (may_speak-Keeps b.room_num) (λ u.
          Steps-bind r (admitted_content-Keeps b.content) (λ content. publish-Keeps b content)))

  handle_heart-Keeps : Keeping w v c (handle_heart w v c)
  unfolding handle_heart
  handle_heart-Keeps = Steps-change Grows-Relation (Grows-send_binary w v c _ _)

  pub dispatch-Keeps : (op : ℕ) (body : Text) → Keeping w v c (dispatch w v c op body)
  unfolding dispatch
  dispatch-Keeps op body =
      let r = Grows-Relation {Db = Db} in
      Steps-if r _ handle_heart-Keeps (
        Steps-if r _ ((handle_login-Keeps w v c body)) (
          Steps-if r _ ((handle_logout-Keeps w v c body)) (
            Steps-if r _ ((handle_room_enter-Keeps w v c body)) (
              Steps-if r _ ((handle_room_leave-Keeps w v c body)) (
                Steps-if r _ (handle_comment-Keeps body) (
                  Steps-if r _ (handle_like-Keeps body) (
                    Steps-if r _ ((handle_session_resume-Keeps w v c body))
                      (Steps-ensure r false (Grows-fail w v c _ _)))))))))
