-- ===== src/Codec/Transport.antt =====
-- pkg/codec/middleware.go: the middleware that decrypts a request, hands its business JSON to a handler and
-- encrypts what the handler writes. encoding/json, strconv and the reading of a body are parameters.
use apipro.Base.{
  ℕ, ◌-◌, ◌*◌, ◌%◌, ◌^◌, Bool, ◌&&◌, [], ◌∷◌, Text, ℤ, pos, negsuc, eq_ℤ, length, ltb, leb, ◌==◌,
  if◌then◌else◌, Option, none, some, Result, ok, err, codes,
}
use apipro.Codec.{Error, frame_header_len, has_magic, encode_frame, decode_frame, decrypt}
use apipro.Codec.Cipher.{Aes}

pub record TransportConfig : Type 0 where
  pub request_key : Text
  pub response_key : Text

-- A raw message that is empty is nil.
pub record PlainResp : Type 0 where
  pub code : ℤ
  pub meg : Text
  pub seq : ℤ
  pub new_session : Text
  pub result : Text

pub record Envelope : Type 0 where
  pub session_id : Text
  pub seq : ℤ
  pub plat : Text
  pub param : Text

-- What WithParamCtx puts into the context of a request.
pub record Context : Type 0 where
  pub param : Text
  pub session_id : Text
  pub plat : Text
  pub seq : ℤ

-- `json.Unmarshal` to either type, `json.Marshal`, and `strconv.Atoi`.
pub record Library : Type 0 where
  pub unmarshal_envelope : Text → Result ℕ Envelope
  pub unmarshal_resp : Text → Result ℕ PlainResp
  pub marshal : PlainResp → Result ℕ Text
  pub atoi : Text → Result ℕ ℤ

-- What reading the body up to a limit gives, and the three headers.
pub record Request : Type 0 where
  pub read_all : ℕ → Result ℕ Text
  pub x_session : Text
  pub x_plat : Text
  pub x_seq : Text

-- A body with status 200, or the plain text of an internal error.
pub data Response : Type 0 where
  written : Text → Response
  encrypt_error : Response

abbrev pub is_empty : Text → Bool
is_empty s = length s == 0

abbrev int32_of : ℕ → ℤ
int32_of n = if ltb n (2 ^ 31) then pos n else negsuc (2 ^ 32 - 1 - n)

-- The conversion `int32(n)`.
unfoldable pub int32 : ℤ → ℤ
int32 (pos n) = int32_of (n % 2 ^ 32)
int32 (negsuc n) = int32_of (2 ^ 32 - 1 - n % 2 ^ 32)

abbrev pub framed : Result Error Text → Response
framed (ok ct) = written ct
framed (err e) = encrypt_error

module _ (lib : Library) where
  -- An envelope without a param is none.
  abbrev with_param : Result ℕ Envelope → Option Envelope
  with_param (err e) = none
  with_param (ok e) =
      if is_empty e.param && is_empty e.session_id && eq_ℤ e.seq (pos 0) && is_empty e.plat
      then none
      else if is_empty e.param
      then none
      else some e

  -- The first byte is an opening brace.
  unfoldable pub try_parse_envelope : Text → Option Envelope
  try_parse_envelope [] = none
  try_parse_envelope (c ∷ cs) =
      if c == 123 then with_param (lib.unmarshal_envelope (c ∷ cs)) else none

  abbrev or_zero : Result ℕ ℤ → ℤ
  or_zero (ok n) = int32 n
  or_zero (err e) = pos 0

  abbrev seq_header : Text → ℤ
  seq_header [] = pos 0
  seq_header (c ∷ cs) = or_zero (lib.atoi (c ∷ cs))

  abbrev context_from : Request → Text → Option Envelope → Context
  context_from r plain (some e) = record {
    param = e.param;
    session_id = e.session_id;
    plat = e.plat;
    seq = e.seq;
  }
  context_from r plain none = record {
    param = plain;
    session_id = r.x_session;
    plat = r.x_plat;
    seq = seq_header r.x_seq;
  }

  unfoldable pub context_of : Request → Text → Context
  context_of r plain = context_from r plain (try_parse_envelope plain)

  -- An error leaves the bytes nil.
  abbrev pub marshalled : PlainResp → Text
  marshalled pr = elim (lib.marshal pr) [ ok out ↦ out | err e ↦ [] ]

  abbrev pub wrapped : Text → ℤ → Text → Text
  wrapped out seq session_id =
      marshalled
        record { code = pos 200; meg = []; seq = seq; new_session = session_id; result = out }

  abbrev with_seq : ℤ → PlainResp → PlainResp
  with_seq seq pr = if eq_ℤ pr.seq (pos 0) then record pr { seq = seq } else pr

  abbrev or_wrapped : Text → ℤ → Text → Result ℕ Text → Text
  or_wrapped out seq session_id (ok filled) = filled
  or_wrapped out seq session_id (err e) = wrapped out seq session_id

  abbrev envelope_of : Text → ℤ → Text → Result ℕ PlainResp → Text
  envelope_of out seq session_id (err e) = wrapped out seq session_id
  envelope_of out seq session_id (ok pr) =
      if eq_ℤ pr.code (pos 0)
      then wrapped out seq session_id
      else or_wrapped out seq session_id (lib.marshal (with_seq seq pr))

  unfoldable pub build_envelope : Text → ℤ → Text → Text
  build_envelope out seq session_id = envelope_of out seq session_id (lib.unmarshal_resp out)

module _ (lib : Library) (aes : Aes) where
  unfoldable pub abort_encrypted : Text → ℤ → Text → ℤ → Text → Response
  abort_encrypted key code meg seq session_id = framed (
      encode_frame aes
        (marshalled lib
          record { code = code; meg = meg; seq = seq; new_session = session_id; result = [] })
        key)

module _ (aes : Aes) (cfg : TransportConfig) where
  -- Framed first, or raw AES.
  unfoldable pub opened : Text → Result Error Text
  opened body =
      if leb frame_header_len (length body) && has_magic body
      then decode_frame aes body cfg.request_key
      else decrypt aes body cfg.request_key

module _ (lib : Library) (aes : Aes) (cfg : TransportConfig) {W : Type 0}
    (next : Context → W → W × Text) where
  -- The handler and the answer around what it wrote.
  abbrev pub respond : Context → W × Text → W × Response
  respond ctx (s, out) = (
    s,
    framed (encode_frame aes (build_envelope lib out ctx.seq ctx.session_id) cfg.response_key),
  )

  abbrev pub handled : Request → W → Result Error Text → W × Response
  handled r s (ok plain) = let ctx = context_of lib r plain in respond ctx (next ctx s)
  handled r s (err e) = (
    s,
    abort_encrypted lib aes cfg.response_key (pos 101) (codes "invalid encrypted request") (pos 0)
        [],
  )

  abbrev pub with_body : Request → W → Result ℕ Text → W × Response
  with_body r s (ok body) = handled r s (opened aes cfg body)
  with_body r s (err e) = (
    s,
    abort_encrypted lib aes cfg.response_key (pos 101) (codes "invalid request body") (pos 0) [],
  )

  unfoldable pub transport : Request → W → W × Response
  transport r s = with_body r s (r.read_all (8 * 1024 * 1024))
