-- ===== src/Coap/Tcp/RoundTrip.antt =====
-- The frame decoder of loft/src/coap/tcp.rs on what the encoder wrote.
use Prim.Native.Nat.{bit_or}
use loft.Prelude.{
  ℕ, suc, ◌+◌, ◌*◌, ◌/◌, ◌%◌, ◌≤◌, ◌<◌, ◌≡◌, refl, ap, ◌∙◌, some, List, [], ◌∷◌, ◌++◌, length, take,
  drop, arith, length-append, take-front, drop-front, take-append, drop-append, take_of_length-le,
  append_assoc,
}
use loft.Prelude.Bits.{or_four}
use loft.Coap.Message.{Message, bare}
use loft.Coap.Wire.Defs.{ok, encode_options_and_payload, decode_options_and_payload}
use loft.Coap.Wire.RoundTrip.{decode-encode}
use loft.Coap.Udp.Defs.{max_token_len, token_len}
use loft.Coap.Udp.RoundTrip.{Sendable, on_wire}
use loft.Coap.Tcp.Defs.{
  max_frame_body, len_ext, encode_frame, read_len, at, take_frame, with_len, try_decode_frame,
  next_frame,
}

-- The length of the region behind the token.
abbrev pub body_len : Message → ℕ
body_len m = length (encode_options_and_payload m)

-- What the frame decoder accepts.
pub record Framed (m : Message) : Type 0 where
  pub sendable : Sendable m
  pub body_fits : body_len m ≤ max_frame_body

len_ext-lt : (n : ℕ) → (len_ext n).0 < 16
unfolding len_ext
len_ext-lt n = ground arith

-- Each length form is read back, with the count of its extension bytes.
read_len-len_ext :
    (n : ℕ) (rest : List ℕ)
    → n ≤ max_frame_body
    → read_len (len_ext n).0 ((len_ext n).1 ++ rest) ≡ some (n, length (len_ext n).1)
unfolding len_ext read_len
read_len-len_ext n rest h = ground arith

header :
    (d l : ℕ)
    → d < 16
    → l ≤ 8
    → (bit_or (d * 16 % 256) l / 16 ≡ d) × (bit_or (d * 16 % 256) l % 16 ≡ l)
header d l h k = ground (arith, or_four d l)

encode_frame-sent :
    (m : Message)
    → Sendable m
    → encode_frame m
      ≡ bit_or ((len_ext (body_len m)).0 * 16 % 256) (length m.token)
        ∷ ((len_ext (body_len m)).1 ++ (m.code ∷ (m.token ++ encode_options_and_payload m)))
unfolding encode_frame
encode_frame-sent m s =
    let short : token_len m ≡ length m.token = omega (arith, s.token_fits) in
    ground (arith, short, take_of_length-le (length m.token) m.token (omega arith))

at-append : (xs ys : List ℕ) (x : ℕ) → at (xs ++ (x ∷ ys)) (length xs) ≡ x
at-append [] ys x = refl
at-append (y ∷ xs) ys x = at-append xs ys x

at_suc : (n : ℕ) (x : ℕ) (xs : List ℕ) → at (x ∷ xs) (1 + n) ≡ at xs n
at_suc n x xs = let e : 1 + n ≡ suc n = omega arith in rw e

-- The places of a frame `h ∷ ext ++ c ∷ tok ++ body` with `rest` behind it.
module _ (h c : ℕ) (ext tok body rest : List ℕ) where
  abbrev buf : List ℕ
  buf = h ∷ (ext ++ (c ∷ (tok ++ (body ++ rest))))

  abbrev front : List ℕ
  front = h ∷ (ext ++ (c ∷ []))

  length-front : length front ≡ 1 + length ext + 1
  length-front = omega (arith, length-append ext (c ∷ []))

  buf-front : buf ≡ front ++ (tok ++ (body ++ rest))
  buf-front = simp append_assoc

  length-buf : length buf ≡ 1 + length ext + 1 + length tok + length body + length rest
  length-buf = omega (
    arith,
    length-append ext (c ∷ (tok ++ (body ++ rest))),
    length-append tok (body ++ rest),
    length-append body rest,
  )

  buf-whole : take (1 + length ext + 1 + length tok + length body) buf ≡ front ++ (tok ++ body)
  buf-whole = rw buf-front (
      ap (take _) (simp append_assoc)
      ∙ take-front _ (front ++ (tok ++ body)) rest
          (omega (arith, length-front, length-append front (tok ++ body), length-append tok body)))

  buf-region : drop (1 + length ext + 1 + length tok) (front ++ (tok ++ body)) ≡ body
  buf-region =
      rw (← append_assoc front tok body)
        (drop-front _ (front ++ tok) body (omega (arith, length-front, length-append front tok)))

  buf-code : at buf (1 + length ext) ≡ c
  buf-code = rw at_suc (at-append ext (tok ++ (body ++ rest)) c)

  buf-behind : drop (1 + length ext + 1) buf ≡ tok ++ (body ++ rest)
  buf-behind = rw buf-front (drop-front _ front _ (omega (arith, length-front)))

  take_frame-whole :
      {msg : Message}
      → decode_options_and_payload body (bare c tok) ≡ ok msg
      → take_frame buf (length ext) (length tok) (length body)
        ≡ ok (some (msg, 1 + length ext + 1 + length tok + length body))
  unfolding take_frame
  take_frame-whole {msg} decoded = ground (
    arith,
    length-buf,
    buf-whole,
    buf-region,
    buf-code,
    buf-behind,
    take-append tok (body ++ rest),
    decoded,
  )

frame_size : Message → ℕ
frame_size m = 1 + length (len_ext (body_len m)).1 + 1 + length m.token + body_len m

length-encode_frame : (m : Message) → Sendable m → length (encode_frame m) ≡ frame_size m
unfolding frame_size
length-encode_frame m s =
    let ext = (len_ext (body_len m)).1 in
    rw (encode_frame-sent m s) (
      omega (
        arith,
        length-append ext (m.code ∷ (m.token ++ encode_options_and_payload m)),
        length-append m.token (encode_options_and_payload m),
      ))

-- What the decoder goes on with once the header has told the lengths.
pub try_decode_frame-take_frame :
    (byte tkl n ext_bytes : ℕ) (rest : List ℕ)
    → byte % 16 ≡ tkl
    → tkl ≤ max_token_len
    → read_len (byte / 16) rest ≡ some (n, ext_bytes)
    → n ≤ max_frame_body
    → try_decode_frame (byte ∷ rest) ≡ take_frame (byte ∷ rest) ext_bytes tkl n
unfolding try_decode_frame with_len
try_decode_frame-take_frame byte tkl n ext_bytes rest low short known fits = ground arith

-- A frame at the head of the buffer is decoded, whatever follows it.
pub try_decode_frame-encode_frame :
    (m : Message) (rest : List ℕ)
    → Framed m
    → try_decode_frame (encode_frame m ++ rest) ≡ ok (some (on_wire m, length (encode_frame m)))
unfolding frame_size
try_decode_frame-encode_frame m rest f =
    let body = encode_options_and_payload m in
    let len = len_ext (body_len m) in
    let byte = bit_or (len.0 * 16 % 256) (length m.token) in
    let nibbles = header len.0 (length m.token) (len_ext-lt (body_len m)) f.sendable.token_fits in
    let decoded = decode-encode m (bare m.code m.token) f.sendable.options_fit refl refl in
    let tail : List ℕ = len.1 ++ (m.code ∷ (m.token ++ (body ++ rest))) in
    let known = read_len-len_ext (body_len m) (m.code ∷ (m.token ++ (body ++ rest))) f.body_fits in
    rw (length-encode_frame m f.sendable, encode_frame-sent m f.sendable)
      (simp append_assoc (
        try_decode_frame-take_frame byte (length m.token) (body_len m) (length len.1) tail nibbles.1
          f.sendable.token_fits (ap (λ b. read_len b tail) nibbles.0 ∙ known) f.body_fits
        ∙ take_frame-whole byte m.code len.1 m.token body rest decoded))

-- `next_frame` returns the message and keeps what follows its frame.
pub next_frame-encode_frame :
    (m : Message) (rest : List ℕ)
    → Framed m
    → next_frame (encode_frame m ++ rest) ≡ ok (some (on_wire m), rest)
unfolding next_frame
next_frame-encode_frame m rest f =
    rw (try_decode_frame-encode_frame m rest f)
      (ap (λ b. ok (some (on_wire m), b)) (drop-append (encode_frame m) rest))
