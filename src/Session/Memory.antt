-- ===== src/Session/Memory.antt =====
-- A world in memory for the session store: a constant clock, a constant random source and a codec that
-- writes the numbers and the lengths of the texts before the texts.
use apipro.Base.{
  ℕ, zero, suc, ◌≡◌, refl, sym, ap, ◌∙◌, Bool, true, false, [], ◌∷◌, ◌++◌, ◌≢◌, Text, ℤ, pos,
  negsuc, Result, ok, err, length, take, drop, take-append_length, drop-append_length, replicate,
  length-replicate,
}
use apipro.Redis.Memory.{memory, memory_laws}
use apipro.Session.Env.{Session, World, WorldLaws}

abbrev sign : ℤ → ℕ
sign (pos n) = 0
sign (negsuc n) = 1

abbrev size : ℤ → ℕ
size (pos n) = n
size (negsuc n) = n

abbrev number : ℕ → ℕ → ℤ
number zero n = pos n
number (suc k) n = negsuc n

abbrev bit : Bool → ℕ
bit true = 1
bit false = 0

abbrev flag : ℕ → Bool
flag zero = false
flag (suc k) = true

number-sign : (z : ℤ) → number (sign z) (size z) ≡ z
number-sign (pos n) = refl
number-sign (negsuc n) = refl

flag-bit : (b : Bool) → flag (bit b) ≡ b
flag-bit true = refl
flag-bit false = refl

abbrev encode : Session → Text
encode s =
    sign s.uid
    ∷ size s.uid
    ∷ sign s.user_type
    ∷ size s.user_type
    ∷ sign s.plat
    ∷ size s.plat
    ∷ sign s.access_expire_at
    ∷ size s.access_expire_at
    ∷ sign s.refresh_expire_at
    ∷ size s.refresh_expire_at
    ∷ bit s.is_guest
    ∷ length s.access_token
    ∷ length s.refresh_token
    ∷ length s.nick_name
    ∷ length s.icon
    ∷ (s.access_token ++ (s.refresh_token ++ (s.nick_name ++ (s.icon ++ s.device_type))))

abbrev decode : Text → Result ℕ Session
decode (a₁ ∷ b₁ ∷ a₂ ∷ b₂ ∷ a₃ ∷ b₃ ∷ a₄ ∷ b₄ ∷ a₅ ∷ b₅ ∷ g ∷ n₁ ∷ n₂ ∷ n₃ ∷ n₄ ∷ cs) =
    let c₁ = drop n₁ cs in
    let c₂ = drop n₂ c₁ in
    let c₃ = drop n₃ c₂ in
    ok record {
      access_token = take n₁ cs;
      refresh_token = take n₂ c₁;
      uid = number a₁ b₁;
      nick_name = take n₃ c₂;
      icon = take n₄ c₃;
      user_type = number a₂ b₂;
      device_type = drop n₄ c₃;
      plat = number a₃ b₃;
      is_guest = flag g;
      access_expire_at = number a₄ b₄;
      refresh_expire_at = number a₅ b₅;
    }
decode _ = err 3

decode-encode : (s : Session) → decode (encode s) ≡ ok s
decode-encode s =
    let c₃ = s.icon ++ s.device_type in
    let c₂ = s.nick_name ++ c₃ in
    let c₁ = s.refresh_token ++ c₂ in
    rw (
      take-append_length s.access_token c₁,
      drop-append_length s.access_token c₁,
      take-append_length s.refresh_token c₂,
      drop-append_length s.refresh_token c₂,
      take-append_length s.nick_name c₃,
      drop-append_length s.nick_name c₃,
      take-append_length s.icon s.device_type,
      drop-append_length s.icon s.device_type,
      number-sign s.uid,
      number-sign s.user_type,
      number-sign s.plat,
      number-sign s.access_expire_at,
      number-sign s.refresh_expire_at,
      flag-bit s.is_guest,
    )

abbrev pub world : ℕ → World
world t = record {
  redis = memory;
  unix = λ db. t;
  read_random = λ n db. (db, ok (replicate n 7));
  encode = λ s. ok (encode s);
  decode = decode;
}

decode-body :
    (s : Session) (body : Text) → (world 0).encode s ≡ ok body → (decode body ≡ ok s) × (body ≢ [])
decode-body s body h =
    let same : encode s ≡ body = cc h in
    (ap decode (sym same) ∙ decode-encode s, λ e. cc (same ∙ e))

pub world_laws : (t : ℕ) → WorldLaws (world t)
world_laws t = record {
  redis_laws = memory_laws;
  random_keeps = λ n j db. refl;
  length-read_random = λ n bytes db h. ap length (sym (cc h)) ∙ length-replicate n 7;
  decode-encode = decode-body;
}
