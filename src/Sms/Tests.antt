-- ===== src/Sms/Tests.antt =====
-- A code in the Redis in memory.
use apipro.Base.{◌≡◌, refl, true, false, [], ◌∷◌, codes}
use apipro.Redis.Memory.{Db, memory, memory_laws}
use apipro.Sms.{SmsStore, issue, random_digits, verify, compared, bypassed}
use apipro.Sms.OneShot.{verify_once}

abbrev prod : SmsStore
prod = record { connected = true; mode = codes "prod"; bypass = codes "1234" }

abbrev empty : Db
empty = record { texts = λ k. []; windows = λ k. []; fails = [] }

abbrev sent : Db
unfolding issue random_digits
sent = (issue memory (codes "k") (1 ∷ 12 ∷ 23 ∷ 34 ∷ []) empty).0

abbrev used : Db
unfolding verify compared bypassed
used = (verify memory prod (codes "k") (codes "1234") sent).0

verify_once_example :
    (sent.texts (codes "k") ≡ codes "1234")
    × ((verify memory prod (codes "k") (codes "1234") used).1 ≡ false)
unfolding verify compared bypassed used sent issue random_digits
verify_once_example =
    verify_once memory memory_laws prod (codes "k") (codes "1234") (codes "1234") 1 sent used refl
      refl refl refl refl
