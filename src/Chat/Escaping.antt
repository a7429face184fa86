-- ===== src/Chat/Escaping.antt =====
-- What `sanitize` lets through.
use apipro.Base.{
  ℕ, zero, suc, ◌≤◌, ◌≡◌, refl, Bool, true, false, not, ◌&&◌, ◌||◌, [], ◌∷◌, ◌++◌, Text, ◌==◌, take,
  codes, if◌then◌else◌, arith, ◌∙◌,
}
use apipro.Chat.Content.{within, cont, second_byte, tail_width, written, escape, sanitize}
use apipro.Sms.{Strings}

abbrev pub begins : Text → Text → Bool
begins [] t = true
begins (b ∷ bs) [] = false
begins (b ∷ bs) (c ∷ cs) = let rest = begins bs cs in b == c && rest

-- One of the five entities, without its ampersand.
abbrev pub entity : Text → Bool
entity t =
    begins (codes "lt;") t
    || begins (codes "gt;") t
    || begins (codes "amp;") t
    || begins (codes "#34;") t
    || begins (codes "#39;") t

abbrev pub markup : ℕ → Bool
markup c = c == 0x3C || c == 0x3E || c == 0x22 || c == 0x27

-- No angle bracket and no quote, and no ampersand but at the head of an entity.
unfoldable pub inert : Text → Bool
inert [] = true
inert (c ∷ cs) = let rest = inert cs in not (markup c) && (not (c == 0x26) || entity cs) && rest

-- So many bytes from here on continue a rune.
abbrev Continued : ℕ → Text → Type 0
Continued zero cs = Unit {0}
Continued (suc k) [] = Unit {0}
Continued (suc k) (c ∷ cs) = (cont c ≡ true) × Continued k cs

inert_high : (c : ℕ) (cs : Text) → 0x80 ≤ c → inert (c ∷ cs) ≡ inert cs
unfolding inert
inert_high c cs h = ground arith

inert-written_one : (c : ℕ) (cs : Text) → inert cs ≡ true → inert (written c 0 ++ cs) ≡ true
unfolding inert
inert-written_one c cs h = ground arith

cont-second_byte : (a b : ℕ) → second_byte a b ≡ true → cont b ≡ true
cont-second_byte a b h = ground arith

-- What a leading byte says of the bytes behind it.
Follows : ℕ → Text → ℕ → Type 0
Follows a cs zero = Unit {0}
Follows a cs (suc k) = (0x80 ≤ a) × Continued (suc k) cs

Follows-if :
    (a : ℕ) (cs : Text) (t : Bool) (m n : ℕ)
    → (t ≡ true → Follows a cs m)
    → (t ≡ false → Follows a cs n)
    → Follows a cs (if t then m else n)
Follows-if a cs true m n p q = p refl
Follows-if a cs false m n p q = q refl

two_bytes :
    (a b : ℕ) (cs : Text) → (within 0xC2 0xDF a && second_byte a b) ≡ true → Follows a (b ∷ cs) 1
unfolding Follows
two_bytes a b cs h = (ground arith, (ground arith, tt))

three_bytes :
    (a b c : ℕ) (cs : Text)
    → (within 0xE0 0xEF a && second_byte a b && cont c) ≡ true
    → Follows a (b ∷ c ∷ cs) 2
unfolding Follows
three_bytes a b c cs h = (ground arith, (ground arith, (ground arith, tt)))

four_bytes :
    (a b c d : ℕ) (cs : Text)
    → (within 0xF0 0xF4 a && second_byte a b && cont c && cont d) ≡ true
    → Follows a (b ∷ c ∷ d ∷ cs) 3
unfolding Follows
four_bytes a b c d cs h = (ground arith, (ground arith, (ground arith, (ground arith, tt))))

no_tail : (a : ℕ) (cs : Text) → Follows a cs 0
unfolding Follows
no_tail a cs = tt

Follows-tail_width : (a : ℕ) (cs : Text) → Follows a cs (tail_width a cs)
Follows-tail_width a [] = no_tail a []
Follows-tail_width a (b ∷ []) =
    Follows-if a (b ∷ []) _ 1 0 (two_bytes a b []) (λ h. no_tail a (b ∷ []))
Follows-tail_width a (b ∷ c ∷ []) =
    let cs = b ∷ c ∷ [] in
    Follows-if a cs _ _ _
      (λ w.
        Follows-if a cs (second_byte a b) 1 0 (λ h. two_bytes a b (c ∷ []) (rw (w, h)))
          (λ h. no_tail a cs))
      (λ w. Follows-if a cs _ 2 0 (three_bytes a b c []) (λ h. no_tail a cs))
Follows-tail_width a (b ∷ c ∷ d ∷ rest) =
    let cs = b ∷ c ∷ d ∷ rest in
    Follows-if a cs _ _ _
      (λ w.
        Follows-if a cs (second_byte a b) 1 0 (λ h. two_bytes a b (c ∷ d ∷ rest) (rw (w, h)))
          (λ h. no_tail a cs))
      (λ w.
        Follows-if a cs (within 0xE0 0xEF a) _ _
          (λ w'.
            Follows-if a cs (second_byte a b && cont c) 2 0
              (λ h. three_bytes a b c (d ∷ rest) (rw (w', h))) (λ h. no_tail a cs))
          (λ w'. Follows-if a cs _ 3 0 (four_bytes a b c d rest) (λ h. no_tail a cs)))

Continued-of-Follows : (a : ℕ) (cs : Text) (k : ℕ) → Follows a cs k → Continued k cs
unfolding Follows
Continued-of-Follows a cs zero f = tt
Continued-of-Follows a cs (suc k) f = f.1

inert-written :
    (a : ℕ) (cs t : Text) (k : ℕ)
    → Follows a cs k
    → inert t ≡ true
    → inert (written a k ++ t) ≡ true
unfolding Follows
inert-written a cs t zero f h = inert-written_one a t h
inert-written a cs t (suc k) f h = inert_high a t f.0 ∙ h

inert-escape : (k : ℕ) (cs : Text) → Continued k cs → inert (escape k cs) ≡ true
unfolding escape
inert-escape k [] h = unfold inert in refl
inert-escape zero (c ∷ cs) h =
    let k = tail_width c cs in
    let f = Follows-tail_width c cs in
    inert-written c cs (escape k cs) k f (inert-escape k cs (Continued-of-Follows c cs k f))
inert-escape (suc k) (c ∷ cs) (h, hs) = inert_high c _ (ground arith) ∙ inert-escape k cs hs

-- What `sanitize` gives holds no angle bracket and no quote, and each ampersand in it begins one of the
-- five entities, whatever bytes it is given and wherever it cuts them.
pub inert-sanitize : (strings : Strings) (s : Text) → inert (sanitize strings s) ≡ true
unfolding sanitize
inert-sanitize strings s = inert-escape 0 (take 500 (strings.trim_space s)) tt
