-- ===== src/Coap/Tests.antt =====
-- Runs of loft/src/coap on concrete messages, and the laws at them.
use loft.Prelude.{
  ℕ, ◌+◌, ◌-◌, ◌≤◌, ◌<◌, ◌≡◌, ◌≢◌, ◌↔◌, refl, true, some, none, List, [], ◌∷◌, ◌++◌, length, codes,
  arith,
}
use loft.Coap.Code
use loft.Coap.Message.{
  Message, bare, values_of, encode_uint, read_uint, leading_zeros, fold_uint, option_uint,
  set_option_uint, without,
}
use loft.Coap.Message.Options.{option_uint-set_option_uint}
use loft.Coap.Wire.Defs.{
  ok, err, stuck, truncated, insert, sort, nibble_ext, encode_option, encode_sorted, encode_payload,
  encode_options_and_payload, read_ext1, read_ext2, read_nibble_ext, read_option, decode_loop,
  decode_options_and_payload,
}
use loft.Coap.Wire.RoundTrip.{decode-encode}
use loft.Coap.Wire.Decode.{Received, decode-ne-stuck}
use loft.Coap.Udp.Defs as Udp
use loft.Coap.Udp.Defs.{
  Datagram, MessageType, confirmable, from_bits, bits, first_byte, decode_body, max_token_len,
}
use loft.Coap.Udp.RoundTrip.{Sendable, on_wire, decode_datagram-encode, decode_datagram-Received}
use loft.Coap.Tcp.Defs.{
  encode_frame, try_decode_frame, next_frame, len_ext, read_len, read_len1, read_len2, read_len4,
  take_frame, with_len, drained,
}
use loft.Coap.Tcp.RoundTrip.{Framed, next_frame-encode_frame}
use loft.Coap.Block.Defs.{Block, size_for, offset, capped, more_after, byte_range}
use loft.Coap.Block.Defs as Block
use loft.Coap.Block.Laws.{decode_block-encode, more_after-byte_range}

program : Unit {0}
unfolding values_of encode_uint read_uint leading_zeros fold_uint option_uint set_option_uint
    without insert sort nibble_ext encode_option encode_sorted encode_payload
    encode_options_and_payload read_ext1 read_ext2 read_nibble_ext read_option decode_loop
    decode_options_and_payload Udp.encode Udp.decode from_bits bits first_byte decode_body
    encode_frame try_decode_frame next_frame len_ext read_len read_len1 read_len2 read_len4
    take_frame with_len drained Block.encode Block.decode capped more_after
program = tt

-- A block-wise GET with its options out of order.
abbrev fetch : Message
fetch = record {
  code = Code.get;
  token = 7 ∷ 9 ∷ [];
  options =
      (Code.block2, 6 ∷ [])
      ∷ (Code.uri_path, codes "device")
      ∷ (Code.uri_path, codes "shadow")
      ∷ [];
  payload = 1 ∷ 2 ∷ 255 ∷ [];
}

abbrev fetch_bytes : List ℕ
fetch_bytes = 182 ∷ (codes "device" ++ (6 ∷ (codes "shadow" ++ (193 ∷ 6 ∷ 255 ∷ 1 ∷ 2 ∷ 255 ∷ []))))

fetch_encoded : encode_options_and_payload fetch ≡ fetch_bytes
unfolding program
fetch_encoded = refl

fetch-Sendable : Sendable fetch
fetch-Sendable = record {
  token_fits = omega arith;
  options_fit =
      ((omega arith, omega arith), ((omega arith, omega arith), ((omega arith, omega arith), tt)));
}

decode-encode_example :
    decode_options_and_payload (encode_options_and_payload fetch) (bare Code.get (7 ∷ 9 ∷ []))
    ≡ ok (on_wire fetch)
decode-encode_example =
    decode-encode fetch (bare Code.get (7 ∷ 9 ∷ [])) fetch-Sendable.options_fit refl refl

abbrev datagram : Datagram
datagram = record { message_type = confirmable; message_id = 0x1234; message = fetch }

decode_datagram-encode_example :
    Udp.decode (Udp.encode datagram) ≡ ok (record datagram { message = on_wire fetch })
decode_datagram-encode_example = decode_datagram-encode datagram fetch-Sendable (omega arith)

fetch-Framed : Framed fetch
unfolding program
fetch-Framed = record { sendable = fetch-Sendable; body_fits = omega arith }

next_frame-encode_frame_example :
    next_frame (encode_frame fetch ++ (34 ∷ [])) ≡ ok (some (on_wire fetch), 34 ∷ [])
next_frame-encode_frame_example = next_frame-encode_frame fetch (34 ∷ []) fetch-Framed

fetch_frame : encode_frame fetch ≡ 210 ∷ 7 ∷ 1 ∷ 7 ∷ 9 ∷ fetch_bytes
unfolding program
fetch_frame = refl

-- An empty message, two bytes, with the start of another frame behind it.
some_frame : try_decode_frame (0 ∷ 225 ∷ []) ≢ ok none
unfolding program
some_frame e = cc

decode-ne-stuck_example : decode_options_and_payload fetch_bytes (bare Code.get []) ≢ stuck
decode-ne-stuck_example = decode-ne-stuck fetch_bytes (bare Code.get [])

cut_short : decode_options_and_payload (182 ∷ codes "devic") (bare Code.get []) ≡ err truncated
unfolding program
cut_short = refl

decode_datagram-Received_example :
    Received (length (Udp.encode datagram) - (4 + 2)) (on_wire fetch)
    × (2 ≤ max_token_len)
    × (4 + 2 ≤ length (Udp.encode datagram))
unfolding program
decode_datagram-Received_example =
    decode_datagram-Received (Udp.encode datagram) (record datagram { message = on_wire fetch })
      refl

abbrev second_block : Block
second_block = record { num = 3; more = true; szx = 6 }

decode_block-encode_example : Block.decode (Block.encode second_block) ≡ some second_block
decode_block-encode_example = decode_block-encode second_block (omega arith) (omega arith)

-- Block 3 of 1024 bytes is block 24 of 128 bytes.
capped_run : capped second_block 3 ≡ record { num = 24; more = true; szx = 3 }
unfolding program
capped_run = refl

more_after-byte_range_example :
    (more_after second_block 5000 ≡ true) ↔ ((byte_range second_block).1 + 1 < 5000)
more_after-byte_range_example = more_after-byte_range second_block 5000

option_uint-set_option_uint_example :
    option_uint (set_option_uint fetch Code.size2 2500) Code.size2 ≡ some 2500
option_uint-set_option_uint_example =
    option_uint-set_option_uint fetch Code.size2 2500 (omega arith)
