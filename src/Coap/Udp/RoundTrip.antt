-- ===== src/Coap/Udp/RoundTrip.antt =====
-- The datagrams of loft/src/coap/udp.rs, sent and received.
use loft.Prelude.{
  ℕ, suc, ◌-◌, ◌+◌, ◌/◌, ◌%◌, ◌^◌, ◌≤◌, ◌<◌, ◌≡◌, ◌≢◌, refl, ap, ◌∙◌, inl, inr, List, [], ◌∷◌, ◌++◌,
  All, length, take, drop, arith, length-append, take-append, drop-append, take_of_length-le,
  length-take, length-drop,
}
use loft.Prelude.Bits.{or_four}
use loft.Coap.Message.{Message, bare}
use loft.Coap.Wire.Defs.{
  ok, stuck, be16, from_be16, encode_options_and_payload, decode_options_and_payload, sort,
}
use loft.Coap.Wire.Sort.{sort-of-Ordered, Ordered}
use loft.Coap.Wire.RoundTrip.{FitsWire, decode-encode}
use loft.Coap.Wire.Decode.{Received, decode-Received, decode-ne-stuck, Decoded-cases}
use loft.Coap.Udp.Defs.{
  MessageType, confirmable, non_confirmable, acknowledgement, reset, Datagram, max_token_len,
  version, from_bits, token_len, first_byte, encode, decode_body, decode,
}

-- The messages that both framings carry without loss.
pub record Sendable (m : Message) : Type 0 where
  pub token_fits : length m.token ≤ max_token_len
  pub options_fit : All FitsWire m.options

-- The message with its options in wire order.
abbrev pub on_wire : Message → Message
on_wire m = record m { options = sort m.options }

first_byte-fields :
    (t : MessageType) (tkl : ℕ)
    → tkl ≤ max_token_len
    → (first_byte t tkl / 64 ≡ version)
      × (from_bits (first_byte t tkl / 16) ≡ t)
      × (first_byte t tkl % 16 ≡ tkl)
unfolding first_byte from_bits
first_byte-fields confirmable tkl h = ground (arith, or_four 4 tkl)
first_byte-fields non_confirmable tkl h = ground (arith, or_four 5 tkl)
first_byte-fields acknowledgement tkl h = ground (arith, or_four 6 tkl)
first_byte-fields reset tkl h = ground (arith, or_four 7 tkl)

decode_body-sent :
    (t : MessageType) (mid : ℕ) (m : Message)
    → Sendable m
    → decode_body t (length m.token) m.code mid (m.token ++ encode_options_and_payload m)
      ≡ ok (record { message_type = t; message_id = mid; message = on_wire m })
unfolding decode_body
decode_body-sent t mid m s = ground (
  arith,
  length-append m.token (encode_options_and_payload m),
  take-append m.token (encode_options_and_payload m),
  drop-append m.token (encode_options_and_payload m),
  decode-encode m (bare m.code m.token) s.options_fit refl refl,
)

encode-sent :
    (d : Datagram)
    → Sendable d.message
    → encode d
      ≡ first_byte d.message_type (length d.message.token)
        ∷ d.message.code
        ∷ (be16 d.message_id ++ (d.message.token ++ encode_options_and_payload d.message))
unfolding encode
encode-sent d s =
    let m = d.message in
    let short : token_len m ≡ length m.token = omega (arith, s.token_fits) in
    ground (arith, short, take_of_length-le (length m.token) m.token (omega arith))

-- A datagram with a token of at most 8 bytes, a 16-bit message id and options that fit the wire
-- forms decodes to itself, its options in wire order.
pub decode_datagram-encode :
    (d : Datagram)
    → Sendable d.message
    → d.message_id < 2 ^ 16
    → decode (encode d) ≡ ok (record d { message = on_wire d.message })
decode_datagram-encode d s h =
    let n = length d.message.token in
    let fields = first_byte-fields d.message_type n s.token_fits in
    let mid : from_be16 (d.message_id / 256 % 256) (d.message_id % 256) ≡ d.message_id =
      omega arith in
    rw (encode-sent d s) (
      unfold decode in
      ground (arith, fields, mid, decode_body-sent d.message_type d.message_id d.message s))

-- A datagram whose options already stand in ascending order decodes to itself.
pub decode_datagram-encode-Ordered :
    (d : Datagram)
    → Sendable d.message
    → d.message_id < 2 ^ 16
    → Ordered 0 d.message.options
    → decode (encode d) ≡ ok d
decode_datagram-encode-Ordered d s h up =
    decode_datagram-encode d s h ∙ rw (sort-of-Ordered 0 d.message.options up)

decode_body-Received :
    (t : MessageType) (tkl code mid : ℕ) (rest : List ℕ) (d : Datagram)
    → decode_body t tkl code mid rest ≡ ok d
    → Received (length rest - tkl) d.message
      × (length d.message.token ≡ tkl)
      × (tkl ≤ max_token_len)
      × (tkl ≤ length rest)
unfolding decode_body
decode_body-Received t tkl code mid rest d e =
    let buf = drop tkl rest in
    let token = take tkl rest in
    elim (Decoded-cases (decode_options_and_payload buf (bare code token))
      (decode-ne-stuck buf _)) [
        | inl (m, p) ↦
            let got = decode-Received buf code token m p in
            let made : (d.message ≡ m) × (tkl ≤ max_token_len) × (tkl ≤ length rest) =
              ground arith in
            rw (made.0, ← length-drop tkl rest)
              (got.0, ap length got.2 ∙ omega (arith, length-take tkl rest), made.1, made.2)
        | inr (x, p) ↦ absurd (ground arith)
      ]

rest_left : (n tkl t : ℕ) → t ≡ tkl → suc (suc (suc (suc n))) - (4 + t) ≡ n - tkl
rest_left n tkl t e = omega arith

-- Any bytes that decode have at least four bytes of header, a token of at most 8 bytes, and options in
-- ascending order of 16-bit numbers; header, token, option values and payload take no more bytes than
-- were received.
pub decode_datagram-Received :
    (buf : List ℕ) (d : Datagram)
    → decode buf ≡ ok d
    → Received (length buf - (4 + length d.message.token)) d.message
      × (length d.message.token ≤ max_token_len)
      × (4 + length d.message.token ≤ length buf)
unfolding decode
decode_datagram-Received [] d e = absurd (cc)
decode_datagram-Received (b0 ∷ []) d e = absurd (cc)
decode_datagram-Received (b0 ∷ b1 ∷ []) d e = absurd (cc)
decode_datagram-Received (b0 ∷ b1 ∷ b2 ∷ []) d e = absurd (cc)
decode_datagram-Received (b0 ∷ b1 ∷ b2 ∷ b3 ∷ rest) d e =
    let body : decode_body (from_bits (b0 / 16)) (b0 % 16) b1 (from_be16 b2 b3) rest ≡ ok d =
      ground arith in
    let got = decode_body-Received _ _ _ _ rest d body in
    (
      rw (rest_left (length rest) (b0 % 16) (length d.message.token) got.1) got.0,
      omega (arith, got),
      omega (arith, got),
    )

-- Decoding ends with a datagram or an error on every input.
pub decode_datagram-ne-stuck : (buf : List ℕ) → decode buf ≢ stuck
unfolding decode
decode_datagram-ne-stuck [] e = cc
decode_datagram-ne-stuck (b0 ∷ []) e = cc
decode_datagram-ne-stuck (b0 ∷ b1 ∷ []) e = cc
decode_datagram-ne-stuck (b0 ∷ b1 ∷ b2 ∷ []) e = cc
decode_datagram-ne-stuck (b0 ∷ b1 ∷ b2 ∷ b3 ∷ rest) e =
    ground (arith, decode-ne-stuck (drop (b0 % 16) rest) (bare b1 (take (b0 % 16) rest)))
