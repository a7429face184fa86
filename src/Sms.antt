-- ===== src/Sms.antt =====
-- cmd/rpc/internal/svc/sms_store.go: one-time codes in Redis. Trimming, lower case and the random
-- source of Go's standard library are parameters.
pub mod OneShot
mod Tests
use apipro.Base.{
  ℕ, zero, suc, ◌+◌, ◌%◌, Bool, true, false, not, ◌&&◌, ◌||◌, List, [], ◌∷◌, ◌++◌, Text, ℤ, Result,
  ok, err, ◌==◌, text_eq, codes, if◌then◌else◌,
}
use apipro.Redis.{Redis}
use apipro.Redis.Decimal.{print_int}

abbrev pub sms_key_prefix : Text
sms_key_prefix = codes "yuyan:sms:"

abbrev pub sms_ttl : ℕ
sms_ttl = 300

-- `connected` is false where the store has no client.
pub record SmsStore : Type 0 where
  pub connected : Bool
  pub mode : Text
  pub bypass : Text

pub record Strings : Type 0 where
  pub trim_space : Text → Text
  pub to_lower : Text → Text

abbrev pub blank : Text → Bool
blank [] = true
blank (c ∷ cs) = false

-- `strings.TrimPrefix` with "+"
abbrev pub trim_plus : Text → Text
trim_plus [] = []
trim_plus (c ∷ cs) = if c == 0x2B then cs else c ∷ cs

-- The digits for what `rand.Read` gave for each byte.
unfoldable pub random_digits : List ℕ → Text
random_digits [] = []
random_digits (b ∷ bs) = (0x30 + b % 10) ∷ random_digits bs

module _ (strings : Strings) where
  unfoldable pub new_sms_store : Bool → Text → Text → SmsStore
  new_sms_store connected mode bypass = record {
    connected = connected;
    mode = strings.to_lower (strings.trim_space mode);
    bypass = strings.trim_space bypass;
  }

  unfoldable pub sms_key : Text → Text → ℤ → Text
  sms_key cc phone sms_type =
      sms_key_prefix
      ++ (trim_plus (strings.trim_space cc)
          ++ (codes ":" ++ (strings.trim_space phone ++ (codes ":" ++ print_int sms_type))))

-- The test of the bypass of development.
unfoldable pub bypassed : SmsStore → Text → Bool
bypassed s input = text_eq s.mode (codes "dev") && not (blank s.bypass) && text_eq input s.bypass

module _ (r : Redis) where
  abbrev pub code_stored : Text → r.Db × Result ℕ (Unit {0}) → r.Db × Result ℕ Text
  code_stored code (db, ok u) = (db, ok code)
  code_stored code (db, err e) = (db, err e)

  -- `drawn` are the four random bytes; the store dereferences its client.
  unfoldable pub issue : Text → List ℕ → r.Db → r.Db × Result ℕ Text
  issue key drawn db =
      let code = random_digits drawn in code_stored code (r.setex key code sms_ttl db)

  unfoldable pub compared : Text → Text → r.Db × Result ℕ Text → r.Db × Bool
  compared key input (db, err e) = (db, false)
  compared key input (db, ok stored) =
      if blank stored || not (text_eq stored input) then (db, false) else ((r.del key db).0, true)

  unfoldable pub verify : SmsStore → Text → Text → r.Db → r.Db × Bool
  verify s key input db =
      if blank input
      then (db, false)
      else if bypassed s input
      then (db, true)
      else if not s.connected
      then (db, false)
      else compared key input (r.get key db)
