-- ===== src/Rpc/Phone.antt =====
-- `normalizeCC` and `validatePhone`.
use apipro.Base.{
  ℕ, ◌≤◌, ◌≡◌, Bool, true, false, not, ◌&&◌, ◌||◌, [], ◌∷◌, Text, leb, ◌==◌, text_eq, eq_of_text_eq,
  codes, if◌then◌else◌, length, arith, Bool-cases, inl, inr,
}
use apipro.Sms.{Strings, trim_plus}

abbrev pub digit : ℕ → Bool
digit c = leb 0x30 c && leb c 0x39

abbrev pub all_digits : Text → Bool
all_digits [] = true
all_digits (c ∷ cs) = let rest = all_digits cs in digit c && rest

abbrev head_is : (ℕ → Bool) → Text → Bool
head_is p [] = false
head_is p (c ∷ cs) = p c

-- `[35789]`
abbrev vn_first : ℕ → Bool
vn_first c = c == 0x33 || c == 0x35 || c == 0x37 || c == 0x38 || c == 0x39

-- `^[35789][0-9]{8}$`
abbrev pub vn_phone : Text → Bool
vn_phone phone = length phone == 9 && head_is vn_first phone && all_digits phone

abbrev pub cn_phone : Text → Bool
cn_phone phone = length phone == 11 && head_is (λ c. c == 0x31) phone && all_digits phone

module _ (strings : Strings) where
  unfoldable pub normalize_cc : Text → Text
  normalize_cc cc = trim_plus (strings.trim_space cc)

  unfoldable pub validate_phone : Text → Text → Bool
  unfolding normalize_cc
  validate_phone cc phone =
      let phone' = strings.trim_space phone in
      let cc' = normalize_cc cc in
      if length phone' == 0
      then false
      else if text_eq cc' (codes "86")
      then cn_phone phone'
      else if text_eq cc' (codes "84")
      then vn_phone phone'
      else leb 5 (length phone') && all_digits phone'

  -- A number that passes is, once trimmed, of digits only and five of them or more; with the country
  -- code 86 it has eleven, and with 84 nine.
  pub validate_phone_digits :
      (cc phone : Text)
      → validate_phone cc phone ≡ true
      → let phone' = strings.trim_space phone in
        (all_digits phone' ≡ true)
        × (5 ≤ length phone')
        × ((not (text_eq (normalize_cc cc) (codes "86")) || length phone' == 11) ≡ true)
        × ((not (text_eq (normalize_cc cc) (codes "84")) || length phone' == 9) ≡ true)
  unfolding validate_phone
  validate_phone_digits cc phone h = elim (Bool-cases (text_eq (normalize_cc cc) (codes "86"))) [
    | inl e ↦
        let china = eq_of_text_eq (normalize_cc cc) (codes "86") e in
        let other : text_eq (normalize_cc cc) (codes "84") ≡ false = rw china in ground arith
    | inr e ↦ ground arith
  ]
