-- ===== src/RateLimit/ClientIp.antt =====
-- `clientIP` of common/ratelimit/ratelimit.go. A missing header is "".
use apipro.Base.{
  ℕ, ◌≡◌, refl, ap, false, [], ◌∷◌, ◌++◌, Text, ◌==◌, if◌then◌else◌, arith, Option, none, some,
}

abbrev pub comma : ℕ
comma = 0x2C

abbrev pub colon : ℕ
colon = 0x3A

-- The loop that looks for the first comma.
unfoldable pub before_comma : Text → Text
before_comma [] = []
before_comma (c ∷ cs) = let rest = c ∷ before_comma cs in if c == comma then [] else rest

-- The loop that looks for a colon from the end: what stands before the last one.
unfoldable pub before_last_colon : Text → Option Text
before_last_colon [] = none
before_last_colon (c ∷ cs) = elim (before_last_colon cs) [
  | some host ↦ some (c ∷ host)
  | none ↦ if c == colon then some [] else none
]

unfoldable pub client_ip : Text → Text → Text → Text
client_ip (c ∷ xff) xri remote = before_comma (c ∷ xff)
client_ip [] (c ∷ xri) remote = c ∷ xri
client_ip [] [] remote = elim (before_last_colon remote) [ some host ↦ host | none ↦ remote ]

abbrev pub Free : ℕ → Text → Type 0
Free b [] = Unit {0}
Free b (c ∷ cs) = ((c == b) ≡ false) × Free b cs

before_comma-append : (cs rest : Text) → Free comma cs → before_comma (cs ++ comma ∷ rest) ≡ cs
unfolding before_comma
before_comma-append [] rest h = refl
before_comma-append (c ∷ cs) rest h = rw h.0 (ap (◌∷◌ c) (before_comma-append cs rest h.1))

before_last_colon-Free : (cs : Text) → Free colon cs → before_last_colon cs ≡ none
unfolding before_last_colon
before_last_colon-Free [] h = refl
before_last_colon-Free (c ∷ cs) h = ground (arith, before_last_colon-Free cs h.1)

before_last_colon-append :
    (host port : Text) → Free colon port → before_last_colon (host ++ colon ∷ port) ≡ some host
unfolding before_last_colon
before_last_colon-append [] port h = ground (arith, before_last_colon-Free port h)
before_last_colon-append (c ∷ host) port h = ground (arith, before_last_colon-append host port h)

-- The client is the first entry of a forwarding header, else the real-IP header, else the remote
-- address without its port, in which the host may itself hold colons.
pub client_ip-order :
    (c d : ℕ) (first rest xri host port remote : Text)
    → Free comma (c ∷ first)
    → Free colon port
    → (client_ip ((c ∷ first) ++ comma ∷ rest) xri remote ≡ c ∷ first)
      × (client_ip [] (d ∷ xri) remote ≡ d ∷ xri)
      × (client_ip [] [] (host ++ colon ∷ port) ≡ host)
unfolding client_ip
client_ip-order c d first rest xri host port remote h k = (
  before_comma-append (c ∷ first) rest h,
  refl,
  ground (arith, before_last_colon-append host port k),
)
