-- ===== src/Coap/Tcp/Stream.antt =====
-- The frame decoder of loft/src/coap/tcp.rs on bytes that arrive in pieces.
use loft.Prelude.{
  ℕ, zero, suc, ◌+◌, ◌/◌, ◌%◌, ◌≤◌, ◌<◌, ◌≡◌, ◌≢◌, refl, sym, ap, ◌∙◌, ◌⊎◌, inl, inr, none, some,
  List, [], ◌∷◌, ◌++◌, length, take, drop, ltb, arith, length-append, length-drop, take-append_le,
  drop-append_le, append-nil, Bool-cases, Option-cases,
}
use loft.Coap.Message.{Message, bare}
use loft.Coap.Wire.Defs.{DecodeError, ok, err, stuck, decode_options_and_payload}
use loft.Coap.Wire.Decode.{decode-ne-stuck, Decoded-cases}
use loft.Coap.Udp.Defs.{max_token_len}
use loft.Coap.Udp.RoundTrip.{on_wire}
use loft.Coap.Tcp.Defs.{
  max_frame_body, encode_frame, read_len, at, take_frame, with_len, try_decode_frame,
}
use loft.Coap.Tcp.RoundTrip.{Framed, try_decode_frame-encode_frame}

read_len-append :
    (n : ℕ) (rest more : List ℕ) {r : ℕ × ℕ}
    → read_len n rest ≡ some r
    → read_len n (rest ++ more) ≡ some r
unfolding read_len
read_len-append n [] more e = ground arith
read_len-append n (a ∷ []) more e = ground arith
read_len-append n (a ∷ b ∷ []) more e = ground arith
read_len-append n (a ∷ b ∷ c ∷ []) more e = ground arith
read_len-append n (a ∷ b ∷ c ∷ d ∷ rest) more e = ground arith

at-append_lt : (n : ℕ) (xs ys : List ℕ) → n < length xs → at (xs ++ ys) n ≡ at xs n
at-append_lt n [] ys h = absurd (omega arith)
at-append_lt zero (x ∷ xs) ys h = refl
at-append_lt (suc n) (x ∷ xs) ys h = at-append_lt n xs ys (omega arith)

take_frame-append :
    (buf more : List ℕ) (e t b : ℕ)
    → take_frame buf e t b ≢ ok none
    → take_frame (buf ++ more) e t b ≡ take_frame buf e t b
unfolding take_frame
take_frame-append buf more e t b decided =
    elim (Bool-cases (ltb (length buf) (1 + e + 1 + t + b))) [
      | inl short ↦ absurd (decided (rw short))
      | inr whole ↦
          let enough : 1 + e + 1 + t + b ≤ length buf = ground arith in
          rw
            (
              take-append_le (1 + e + 1 + t + b) buf more enough,
              at-append_lt (1 + e) buf more (omega arith),
              drop-append_le (1 + e + 1) buf more (omega arith),
              take-append_le t (drop (1 + e + 1) buf) more
                  (omega (arith, length-drop (1 + e + 1) buf)),
            )
            (ground (arith, length-append buf more))
    ]

with_len-append :
    (buf more : List ℕ) (tkl : ℕ) (r : ℕ × ℕ)
    → with_len buf tkl (some r) ≢ ok none
    → with_len (buf ++ more) tkl (some r) ≡ with_len buf tkl (some r)
unfolding with_len
with_len-append buf more tkl (n, e) decided = elim (Bool-cases (ltb max_frame_body n)) [
  | inl over ↦ rw over
  | inr fits ↦ rw fits (take_frame-append buf more e tkl n (λ h. decided (rw fits h)))
]

-- A decision of the decoder, a frame or an error, is the same with more bytes behind the buffer.
pub try_decode_frame-append :
    (buf more : List ℕ)
    → try_decode_frame buf ≢ ok none
    → try_decode_frame (buf ++ more) ≡ try_decode_frame buf
unfolding try_decode_frame
try_decode_frame-append [] more decided = absurd (decided refl)
try_decode_frame-append (first ∷ rest) more decided =
    elim (Bool-cases (ltb max_token_len (first % 16))) [
      | inl long ↦ rw long
      | inr short ↦ elim (Option-cases (read_len (first / 16) rest)) [
        | inl unknown ↦ absurd (decided (rw (short, unknown) (unfold with_len in refl)))
        | inr (r, known) ↦
            rw (short, known, read_len-append (first / 16) rest more known)
              (with_len-append (first ∷ rest) more (first % 16) r
                (λ h. decided (rw (short, known) h)))
      ]
    ]

-- What `take_frame` and `try_decode_frame` consume lies in the buffer.
take_frame-consumed :
    (buf : List ℕ) (e t b : ℕ) (m : Message) (n : ℕ)
    → take_frame buf e t b ≡ ok (some (m, n))
    → (2 ≤ n) × (n ≤ length buf)
unfolding take_frame
take_frame-consumed buf e t b m n h =
    let region = drop (1 + e + 1 + t) (take (1 + e + 1 + t + b) buf) in
    let start = bare (at buf (1 + e)) (take t (drop (1 + e + 1) buf)) in
    elim (Decoded-cases (decode_options_and_payload region start) (decode-ne-stuck region start)) [
      | inl (x, p) ↦ ground arith
      | inr (x, p) ↦ ground arith
    ]

take_frame-ne-stuck : (buf : List ℕ) (e t b : ℕ) → take_frame buf e t b ≢ stuck
unfolding take_frame
take_frame-ne-stuck buf e t b h =
    let region = drop (1 + e + 1 + t) (take (1 + e + 1 + t + b) buf) in
    let start = bare (at buf (1 + e)) (take t (drop (1 + e + 1) buf)) in
    elim (Decoded-cases (decode_options_and_payload region start) (decode-ne-stuck region start)) [
      | inl (x, p) ↦ ground arith
      | inr (x, p) ↦ ground arith
    ]

pub try_decode_frame-consumed :
    (buf : List ℕ) (m : Message) (n : ℕ)
    → try_decode_frame buf ≡ ok (some (m, n))
    → (2 ≤ n) × (n ≤ length buf)
unfolding try_decode_frame with_len
try_decode_frame-consumed [] m n h = absurd (ground arith)
try_decode_frame-consumed (first ∷ rest) m n h = elim (Option-cases (read_len (first / 16) rest)) [
  | inl unknown ↦ absurd (ground arith)
  | inr ((b, e), known) ↦ take_frame-consumed (first ∷ rest) e (first % 16) b m n (ground arith)
]

pub try_decode_frame-ne-stuck : (buf : List ℕ) → try_decode_frame buf ≢ stuck
unfolding try_decode_frame with_len
try_decode_frame-ne-stuck [] h = cc
try_decode_frame-ne-stuck (first ∷ rest) h = elim (Option-cases (read_len (first / 16) rest)) [
  | inl unknown ↦ ground arith
  | inr ((b, e), known) ↦ ground (arith, take_frame-ne-stuck (first ∷ rest) e (first % 16) b)
]

-- The three answers of the decoder.
pub frame_cases :
    (buf : List ℕ)
    → (try_decode_frame buf ≡ ok none)
      ⊎ ((r : Message × ℕ) × (try_decode_frame buf ≡ ok (some r)))
      ⊎ ((e : DecodeError) × (try_decode_frame buf ≡ err e))
frame_cases buf = elim (Decoded-cases (try_decode_frame buf) (try_decode_frame-ne-stuck buf)) [
  | inl (none, p) ↦ inl p
  | inl (some r, p) ↦ inr (inl (r, p))
  | inr (e, p) ↦ inr (inr (e, p))
]

-- Every proper prefix of a frame makes the decoder ask for more bytes.
pub try_decode_frame-prefix :
    (m : Message) (front back : List ℕ) (x : ℕ)
    → Framed m
    → encode_frame m ≡ front ++ (x ∷ back)
    → try_decode_frame front ≡ ok none
try_decode_frame-prefix m front back x f cut =
    let whole : try_decode_frame (front ++ (x ∷ back))
        ≡ ok (some (on_wire m, length (encode_frame m))) =
      ap try_decode_frame (sym cut ∙ sym (append-nil (encode_frame m)))
      ∙ try_decode_frame-encode_frame m [] f in
    elim (frame_cases front) [
      | inl p ↦ p
      | inr (inl ((y, n), p)) ↦ absurd (
          ground (
            arith,
            whole,
            cut,
            length-append front (x ∷ back),
            try_decode_frame-consumed front y n p,
            try_decode_frame-append front (x ∷ back),
          ))
      | inr (inr (e, p)) ↦ absurd (ground (arith, whole, try_decode_frame-append front (x ∷ back)))
    ]
