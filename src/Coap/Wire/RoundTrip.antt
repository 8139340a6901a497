-- ===== src/Coap/Wire/RoundTrip.antt =====
-- Decoding what the encoder of loft/src/coap/message.rs wrote.
use Prim.Native.Nat.{bit_or}
use loft.Prelude.{
  ℕ, zero, suc, ◌+◌, ◌-◌, ◌*◌, ◌/◌, ◌%◌, ◌^◌, ◌≤◌, ◌<◌, ◌≡◌, refl, ◌∙◌, List, [], ◌∷◌, ◌++◌, length,
  arith, All, length-append, take-append, drop-append, append_assoc, append-nil,
}
use loft.Prelude.Bits.{or_four}
use loft.Coap.Message.{Message, OptionEntry, push_option}
use loft.Coap.Wire.Defs.{
  ok, sort, nibble_ext, encode_option, encode_sorted, encode_payload, encode_options_and_payload,
  read_nibble_ext, read_option, decode_loop, decode_options_and_payload,
}
use loft.Coap.Wire.Sort.{Ordered, sort-Ordered, sort-All}

-- The largest delta and length that a nibble form holds is 269 + 65535.
abbrev pub ext_limit : ℕ
ext_limit = 65805

abbrev pub FitsWire : OptionEntry → Type 0
FitsWire o = (o.0 < 2 ^ 16) × (length o.1 < ext_limit)

nibble_ext-lt : (v : ℕ) → (nibble_ext v).0 < 15
unfolding nibble_ext
nibble_ext-lt v = ground arith

-- Each nibble form is read back, with what follows it.
pub read_nibble_ext-nibble_ext :
    (v : ℕ) (rest : List ℕ)
    → v < ext_limit
    → read_nibble_ext (nibble_ext v).0 ((nibble_ext v).1 ++ rest) ≡ ok (v, rest)
unfolding nibble_ext read_nibble_ext
read_nibble_ext-nibble_ext v rest h = ground arith

-- The first byte of an option holds the two nibbles, and is not the payload marker.
header : (d l : ℕ) → d < 15 → l < 15 → bit_or (d * 16 % 256) l ≡ d * 16 + l
header d l h k = ground (arith, or_four d l)

first_byte_nibbles :
    (d l : ℕ)
    → d < 15
    → l < 15
    → (bit_or (d * 16 % 256) l / 16 ≡ d)
      × (bit_or (d * 16 % 256) l % 16 ≡ l)
      × (bit_or (d * 16 % 256) l < 255)
first_byte_nibbles d l h k = ground (arith, header d l h k)

-- Nibbles `d` and `l` with their extensions, as the decoder takes them apart.
read_option-parts :
    (prev number d l byte : ℕ) (de le value rest : List ℕ)
    → byte / 16 ≡ d
    → byte % 16 ≡ l
    → read_nibble_ext d (de ++ (le ++ (value ++ rest))) ≡ ok (number - prev, le ++ (value ++ rest))
    → read_nibble_ext l (le ++ (value ++ rest)) ≡ ok (length value, value ++ rest)
    → prev ≤ number
    → number < 2 ^ 16
    → read_option prev byte (de ++ (le ++ (value ++ rest))) ≡ ok (number, value, rest)
unfolding read_option
read_option-parts prev number d l byte de le value rest bd bl rd rl up fits =
    ground (arith, length-append value rest, take-append value rest, drop-append value rest)

-- One encoded option in front of `rest`, its pieces bracketed to the right.
encode_option-append :
    (prev number : ℕ) (value rest : List ℕ)
    → let d = nibble_ext (number - prev) in
      let l = nibble_ext (length value % 2 ^ 32) in
      encode_option prev (number, value) ++ rest
      ≡ bit_or (d.0 * 16 % 256) l.0 ∷ (d.1 ++ (l.1 ++ (value ++ rest)))
unfolding encode_option
encode_option-append prev number value rest = simp append_assoc

decode_loop_option :
    (fuel prev number : ℕ) (value rest : List ℕ) (msg : Message)
    → prev ≤ number
    → FitsWire (number, value)
    → decode_loop (suc fuel) prev (encode_option prev (number, value) ++ rest) msg
      ≡ decode_loop fuel number rest (push_option msg number value)
decode_loop_option fuel prev number value rest msg up fits =
    let d = nibble_ext (number - prev) in
    let l = nibble_ext (length value % 2 ^ 32) in
    let byte = bit_or (d.0 * 16 % 256) l.0 in
    let small : length value % 2 ^ 32 ≡ length value = omega arith in
    let nibbles = first_byte_nibbles d.0 l.0 (nibble_ext-lt _) (nibble_ext-lt _) in
    let parts =
      read_option-parts prev number d.0 l.0 byte d.1 l.1 value rest nibbles.0 nibbles.1
        (read_nibble_ext-nibble_ext (number - prev) _ (omega arith))
        (read_nibble_ext-nibble_ext (length value % 2 ^ 32) (value ++ rest) (omega arith)
          ∙ rw small)
        up fits.0 in
    rw encode_option-append (unfold decode_loop in ground (arith, parts, nibbles.2))

decode_loop_payload :
    (fuel prev : ℕ) (payload : List ℕ) (msg : Message)
    → msg.payload ≡ []
    → decode_loop (suc fuel) prev (encode_payload payload) msg
      ≡ ok (record msg { payload = payload })
unfolding decode_loop encode_payload
decode_loop_payload fuel prev [] msg h = ground arith
decode_loop_payload fuel prev (b ∷ bs) msg h = refl

decode_loop-encode_sorted :
    (os : List OptionEntry) (fuel prev : ℕ) (payload : List ℕ) (msg : Message)
    → Ordered prev os
    → All FitsWire os
    → msg.payload ≡ []
    → length os < fuel
    → decode_loop fuel prev (encode_sorted prev os ++ encode_payload payload) msg
      ≡ ok (record msg { options = msg.options ++ os; payload = payload })
unfolding encode_sorted
decode_loop-encode_sorted os zero prev payload msg up fits clean enough = absurd (omega arith)
decode_loop-encode_sorted [] (suc fuel) prev payload msg up fits clean enough =
    rw append-nil (decode_loop_payload fuel prev payload msg clean)
decode_loop-encode_sorted ((n, v) ∷ os) (suc fuel) prev payload msg up fits clean enough =
    rw append_assoc (
      decode_loop_option fuel prev n v _ msg up.0 fits.0
      ∙ decode_loop-encode_sorted os fuel n payload (push_option msg n v) up.1 fits.1 clean
          (omega arith)
      ∙ rw append_assoc)

-- Every option takes a byte, so the length of the region bounds the number of rounds.
length-le-encode_sorted :
    (prev : ℕ) (os : List OptionEntry) → length os ≤ length (encode_sorted prev os)
unfolding encode_sorted encode_option
length-le-encode_sorted prev [] = omega arith
length-le-encode_sorted prev (o ∷ os) = omega (
  arith,
  length-append (encode_option prev o) (encode_sorted o.0 os),
  length-le-encode_sorted o.0 os,
)

-- Decoding the encoded region into a message with no options and no payload gives the options,
-- sorted stably by number, and the payload, for every message whose option numbers are 16-bit and
-- whose option values are shorter than 65805 bytes.
pub decode-encode :
    (m base : Message)
    → All FitsWire m.options
    → base.options ≡ []
    → base.payload ≡ []
    → decode_options_and_payload (encode_options_and_payload m) base
      ≡ ok (record base { options = sort m.options; payload = m.payload })
unfolding decode_options_and_payload encode_options_and_payload
decode-encode m base fits fresh clean =
    let os = sort m.options in
    let bound = length-append (encode_sorted 0 os) (encode_payload m.payload) in
    decode_loop-encode_sorted os (suc (length (encode_options_and_payload m))) 0 m.payload base
      (sort-Ordered m.options) (sort-All FitsWire m.options fits) clean
      (omega (arith, bound, length-le-encode_sorted 0 os))
    ∙ rw fresh
