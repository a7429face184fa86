-- ===== src/Chat/Tests.antt =====
-- A small chat.
use apipro.Base.{◌≡◌, refl, true, List, [], ◌∷◌, Text, codes, arith, ok}
use apipro.Codec.Shift.{shift, shift-AesLaws}
use apipro.Chat.Membership.{Call, join, leave}
use apipro.Chat.Frame.{is_frame, read_frame, encode_binary_frame, read_frame-encode_binary_frame}

abbrev response_key : Text
response_key = codes "0123456789abcdef"

-- Two clients in one room, one of which is in a second room too.
abbrev evening : List Call
evening =
    join (codes "1001") 1
    ∷ join (codes "1001") 2
    ∷ join (codes "7") 1
    ∷ leave (codes "1001") 2
    ∷ join (codes "1001") 2
    ∷ []

read_frame-encode_binary_frame_example :
    (is_frame (encode_binary_frame shift 1005 (codes "{}") response_key) ≡ true)
    × (read_frame shift (encode_binary_frame shift 1005 (codes "{}") response_key) response_key
        ≡ ok (1005, codes "{}"))
read_frame-encode_binary_frame_example =
    read_frame-encode_binary_frame shift response_key (codes "{}") 1005 shift-AesLaws refl
      (omega arith) (omega arith, (omega arith, tt)) (omega arith)
