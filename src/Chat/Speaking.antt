-- ===== src/Chat/Speaking.antt =====
-- The checks of `handleComment`.
use apipro.Base.{
  ℕ, Bool, true, false, not, [], Text, ℤ, pos, eq_ℤ, ltb_ℤ, Option, none, some, Result, ok, err,
  text_eq, length, take, codes, if◌then◌else◌,
}
use apipro.Chat.{allow_send}
use apipro.Chat.Content.{sanitize, match_blockword}
use apipro.Chat.Server.{Services, set_client}
use apipro.Chat.Sets.{has}
use apipro.Chat.Wire.{
  err_code_not_in_chat_server, err_code_sensitive_word, err_code_muted, err_code_account_disabled,
  missing_room, not_in_room, guests_muted, room_not_live, account_banned, ip_banned, rate_limited,
  sensitive,
}
use apipro.Models.{DbError, User, UserTable, find_by_uid}
use apipro.Rpc.Auth.{no_text}
use apipro.Session.Env.{World}
use apipro.Chat.Steps.{M, ◌>>=◌, ◌>>◌, return, here, on_db, ensure, fail}

-- `banned, _ :=` of a look-up in a set
abbrev pub member : Result ℕ Bool → Bool
member (ok b) = b
member (err e) = false

-- The status is 1, or not known.
abbrev pub active : Result DbError User → Bool
active (ok u) = eq_ℤ u.status (pos 1)
active (err e) = true

-- `content[:maxMsgLen]` where the content is longer.
abbrev pub cut : ℤ → Text → Text
cut (pos n) content = take n content
cut n content = []

-- A limit as a count; a limit below 0 lets nothing through.
abbrev pub count : ℤ → ℕ
count (pos n) = n
count n = 0

-- The content without what is past the limit.
abbrev pub shortened : ℤ → Text → Text
shortened max_len whole = if ltb_ℤ max_len (pos (length whole)) then cut max_len whole else whole

module _ (w : World) (v : Services w) (c : ℕ) where
  open w use {redis}
  open redis use {Db}
  open v use {collections}

  abbrev pub user_active : Option (UserTable Db) → ℤ → M Db Bool
  user_active none uid = return true
  user_active (some users) uid =
      if ltb_ℤ (pos 0) uid
      then (on_db (find_by_uid users uid) >>= λ found. return (active found))
      else return true

  abbrev pub listed : Text → Text → M Db Bool
  listed key ip = on_db (collections.sismember key ip) >>= λ r. return (member r)

  unfoldable pub ip_allowed : Text → M Db (Unit {0})
  ip_allowed ip = do
    banned ← listed (codes "ban:ip:list") ip
    ensure (not banned) (fail w v c err_code_muted ip_banned)
    black ← listed (codes "black:ip:list") ip
    ensure (not black) (fail w v c err_code_muted ip_banned)

  -- A client whose address is not known is not looked up.
  unfoldable pub address_allowed : Text → M Db (Unit {0})
  address_allowed ip = if no_text ip then return tt else ip_allowed ip

  -- The guards up to the look at the content.
  unfoldable pub may_speak : Text → M Db (Unit {0})
  may_speak room = do
    ensure (not (no_text room)) (fail w v c err_code_not_in_chat_server missing_room)
    s ← here
    ensure (has text_eq room (s.hub.rooms_of c))
        (fail w v c err_code_not_in_chat_server not_in_room)
    ensure (not (s.client c).is_guest) (fail w v c err_code_muted guests_muted)
    ensure (not ((s.client c).muted_rooms room)) (fail w v c err_code_muted room_not_live)
    known ← user_active v.users_model (s.client c).uid
    ensure known (fail w v c err_code_account_disabled account_banned)
    address_allowed (s.client c).ip

  -- `allowSend` on the client.
  unfoldable pub rate_allows : M Db Bool
  rate_allows s =
      let x = s.client c in
      let r = allow_send (count v.rate_per_min) (v.unix_nano s.db) x.send_times in
      (set_client c record x { send_times = r.0 } s, some r.1)

  unfoldable pub admitted_content : Text → M Db Text
  admitted_content raw = do
    let whole = sanitize v.strings raw
    ensure (not (no_text whole)) (λ s. s)
    let content = shortened v.max_msg_len whole
    allowed ← rate_allows
    ensure allowed (fail w v c err_code_muted rate_limited)
    ensure (not (match_blockword v.strings content)) (fail w v c err_code_sensitive_word sensitive)
    return content
