-- ===== src/Chat/Content.antt =====
-- The texts of the chat: `isSafeRoom`, `sanitize` and `matchBlockword`, on the bytes of a string.
use apipro.Base.{
  ℕ, zero, suc, Bool, true, false, not, ◌&&◌, ◌||◌, List, [], ◌∷◌, ◌++◌, Text, leb, ◌==◌, length,
  take, codes, if◌then◌else◌,
}
use apipro.Models.{contains}
use apipro.Sms.{Strings}

abbrev pub within : ℕ → ℕ → ℕ → Bool
within lo hi c = leb lo c && leb c hi

abbrev pub alphanumeric : ℕ → Bool
alphanumeric c = within 0x30 0x39 c || within 0x61 0x7A c || within 0x41 0x5A c

-- The loop of `isSafeRoom`: a rune that passes is one byte.
abbrev pub all_alphanumeric : Text → Bool
all_alphanumeric [] = true
all_alphanumeric (c ∷ cs) = let rest = all_alphanumeric cs in alphanumeric c && rest

unfoldable pub is_safe_room : Text → Bool
is_safe_room room = not (length room == 0) && leb (length room) 32 && all_alphanumeric room

-- A continuation byte of UTF-8.
abbrev pub cont : ℕ → Bool
cont c = within 0x80 0xBF c

-- The first of the continuation bytes, which for some leading bytes has a narrower range.
abbrev pub second_byte : ℕ → ℕ → Bool
second_byte a b =
    cont b
    && (if a == 0xE0 then leb 0xA0 b else true)
    && (if a == 0xED then leb b 0x9F else true)
    && (if a == 0xF0 then leb 0x90 b else true)
    && (if a == 0xF4 then leb b 0x8F else true)

abbrev pub tail_width : ℕ → Text → ℕ
tail_width a (b ∷ c ∷ d ∷ rest) =
    if within 0xC2 0xDF a
    then (if second_byte a b then 1 else 0)
    else if within 0xE0 0xEF a
    then (if second_byte a b && cont c then 2 else 0)
    else if within 0xF0 0xF4 a && second_byte a b && cont c && cont d
    then 3
    else 0
tail_width a (b ∷ c ∷ []) =
    if within 0xC2 0xDF a
    then (if second_byte a b then 1 else 0)
    else if within 0xE0 0xEF a && second_byte a b && cont c
    then 2
    else 0
tail_width a (b ∷ []) = if within 0xC2 0xDF a && second_byte a b then 1 else 0
tail_width a [] = 0

-- What `sanitize` writes for the rune that begins with a byte and goes on for so many more: a byte that
-- begins none is read as U+FFFD.
abbrev pub written : ℕ → ℕ → Text
written c zero =
    if c == 0x3C
    then codes "&lt;"
    else if c == 0x3E
    then codes "&gt;"
    else if c == 0x26
    then codes "&amp;"
    else if c == 0x22
    then codes "&#34;"
    else if c == 0x27
    then codes "&#39;"
    else if leb c 0x7F
    then c ∷ []
    else 0xEF ∷ 0xBF ∷ 0xBD ∷ []
written c (suc k) = c ∷ []

-- The loop over the runes; the number counts the bytes that are left of the rune begun.
unfoldable pub escape : ℕ → Text → Text
escape k [] = []
escape zero (c ∷ cs) = let k = tail_width c cs in written c k ++ escape k cs
escape (suc k) (c ∷ cs) = c ∷ escape k cs

abbrev max_content : ℕ
max_content = 500

-- `strings.Contains` over the built-in list.
abbrev pub blockwords : List Text
blockwords =
    codes "fuck"
    ∷ codes "shit"
    ∷ codes "bitch"
    ∷ codes "asshole"
    ∷ codes "dick"
    ∷ (0xE8 ∷ 0xB5 ∷ 0x8C ∷ 0xE5 ∷ 0x8D ∷ 0x9A ∷ [])
    ∷ (0xE8 ∷ 0xB5 ∷ 0x8C ∷ 0xE5 ∷ 0x9C ∷ 0xBA ∷ [])
    ∷ (0xE5 ∷ 0x8D ∷ 0x9A ∷ 0xE5 ∷ 0xBD ∷ 0xA9 ∷ [])
    ∷ (0xE8 ∷ 0x89 ∷ 0xB2 ∷ 0xE6 ∷ 0x83 ∷ 0x85 ∷ [])
    ∷ (0xE9 ∷ 0xBB ∷ 0x84 ∷ 0xE8 ∷ 0xB5 ∷ 0x8C ∷ 0xE6 ∷ 0xAF ∷ 0x92 ∷ [])
    ∷ (0xE5 ∷ 0x8F ∷ 0x8D ∷ 0xE5 ∷ 0x8A ∷ 0xA8 ∷ [])
    ∷ (0xE6 ∷ 0xB3 ∷ 0x95 ∷ 0xE8 ∷ 0xBD ∷ 0xAE ∷ [])
    ∷ (0xE5 ∷ 0x85 ∷ 0xAD ∷ 0xE5 ∷ 0x9B ∷ 0x9B ∷ [])
    ∷ (0xE5 ∷ 0x8F ∷ 0xB0 ∷ 0xE7 ∷ 0x8B ∷ 0xAC ∷ [])
    ∷ (0xE6 ∷ 0xB8 ∷ 0xAF ∷ 0xE7 ∷ 0x8B ∷ 0xAC ∷ [])
    ∷ (0xE7 ∷ 0xA7 ∷ 0x81 ∷ 0xE6 ∷ 0x9C ∷ 0x8D ∷ [])
    ∷ (0xE5 ∷ 0xA4 ∷ 0x96 ∷ 0xE6 ∷ 0x8C ∷ 0x82 ∷ [])
    ∷ (0xE5 ∷ 0x88 ∷ 0xB7 ∷ 0xE5 ∷ 0xB1 ∷ 0x8F ∷ [])
    ∷ []

abbrev any_in : Text → List Text → Bool
any_in low [] = false
any_in low (w ∷ ws) = let rest = any_in low ws in contains low w || rest

module _ (strings : Strings) where
  unfoldable pub sanitize : Text → Text
  unfolding escape
  sanitize s = escape 0 (take max_content (strings.trim_space s))

  unfoldable pub match_blockword : Text → Bool
  match_blockword text = any_in (strings.to_lower text) blockwords
