-- ===== src/Session/Env.antt =====
-- A session record, and what the session store takes from outside: Redis, the clock, the random
-- source and the JSON codec.
use apipro.Base.{ℕ, ◌≡◌, Bool, Text, ℤ, Result, ok, [], ◌≢◌, length}
use apipro.Redis.{Redis, RedisLaws}

pub record Session : Type 0 where
  pub access_token : Text
  pub refresh_token : Text
  pub uid : ℤ
  pub nick_name : Text
  pub icon : Text
  pub user_type : ℤ
  pub device_type : Text
  pub plat : ℤ
  pub is_guest : Bool
  pub access_expire_at : ℤ
  pub refresh_expire_at : ℤ

pub record World : Type 1 where
  pub redis : Redis
  -- `time.Now().Unix()`
  pub unix : redis.Db → ℕ
  -- so many random bytes
  pub read_random : ℕ → redis.Db → redis.Db × Result ℕ Text
  -- `json.Marshal` and `json.Unmarshal` of a session
  pub encode : Session → Result ℕ Text
  pub decode : Text → Result ℕ Session

-- What is relied on: Redis keeps to its laws, drawing random bytes leaves it alone and gives as many
-- as were asked for, and a session that is encoded is not empty and decodes to itself.
pub record WorldLaws (w : World) : Type 1 where
  pub redis_laws : RedisLaws w.redis
  pub random_keeps :
      (n : ℕ) (j : Text) (db : w.redis.Db)
      → redis_laws.text (w.read_random n db).0 j ≡ redis_laws.text db j
  pub length-read_random :
      (n : ℕ) (bytes : Text) (db : w.redis.Db)
      → (w.read_random n db).1 ≡ ok bytes
      → length bytes ≡ n
  pub decode-encode :
      (s : Session) (body : Text) → w.encode s ≡ ok body → (w.decode body ≡ ok s) × (body ≢ [])
