-- ===== src/Coap/Udp/Defs.antt =====
-- `MessageType`, `Datagram`, and its encoder and decoder.
use Prim.Native.Nat.{bit_or}
use loft.Prelude.{
  ℕ, ◌*◌, ◌/◌, ◌%◌, min, not, List, ◌∷◌, ◌++◌, length, take, drop, ltb, ◌==◌, if◌then◌else◌,
}
use loft.Coap.Message.{Message, bare}
use loft.Coap.Wire.Defs.{
  Decoded, ok, err, ◌>>=◌, truncated, bad_option_encoding, bad_token_length, be16, from_be16,
  encode_options_and_payload, decode_options_and_payload,
}

abbrev pub max_token_len : ℕ
max_token_len = 8

abbrev pub version : ℕ
version = 1

pub data MessageType : Type 0 where
  confirmable non_confirmable acknowledgement reset : MessageType

-- `bits & 0b11`
unfoldable pub from_bits : ℕ → MessageType
from_bits bits =
    if bits % 4 == 0
    then confirmable
    else if bits % 4 == 1
    then non_confirmable
    else if bits % 4 == 2
    then acknowledgement
    else reset

unfoldable pub bits : MessageType → ℕ
bits confirmable = 0
bits non_confirmable = 1
bits acknowledgement = 2
bits reset = 3

pub record Datagram : Type 0 where
  pub message_type : MessageType
  pub message_id : ℕ
  pub message : Message

-- `token.len().min(MAX_TOKEN_LEN)`
abbrev pub token_len : Message → ℕ
token_len m = min (length m.token) max_token_len

-- `(VERSION << 6) | (bits << 4) | tkl`
unfoldable pub first_byte : MessageType → ℕ → ℕ
unfolding bits
first_byte t tkl = bit_or (bit_or (version * 64 % 256) (bits t * 16 % 256)) tkl

unfoldable pub encode : Datagram → List ℕ
unfolding first_byte
encode d =
    let m = d.message in
    let tkl = token_len m in
    first_byte d.message_type tkl
    ∷ m.code
    ∷ (be16 d.message_id ++ (take tkl m.token ++ encode_options_and_payload m))

-- What stands behind the header, whose fields are given.
unfoldable pub decode_body : MessageType → ℕ → ℕ → ℕ → List ℕ → Decoded Datagram
decode_body t tkl code mid rest =
    if ltb max_token_len tkl
    then err bad_token_length
    else if ltb (length rest) tkl
    then err truncated
    else do
      message ← decode_options_and_payload (drop tkl rest) (bare code (take tkl rest))
      ok (record { message_type = t; message_id = mid; message = message })

-- Fewer than four bytes are `truncated`.
unfoldable pub decode : List ℕ → Decoded Datagram
unfolding decode_body from_bits
decode (b0 ∷ code ∷ b2 ∷ b3 ∷ rest) =
    if not (b0 / 64 == version)
    then err bad_option_encoding
    else decode_body (from_bits (b0 / 16)) (b0 % 16) code (from_be16 b2 b3) rest
decode _ = err truncated
