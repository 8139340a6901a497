-- ===== src/Coap/Wire/Decode.antt =====
-- The decoder of loft/src/coap/message.rs on any bytes, well formed or not.
use loft.Prelude.{
  ℕ, zero, suc, ◌+◌, ◌/◌, ◌%◌, ◌^◌, ◌≤◌, ◌<◌, ◌≡◌, ◌≢◌, ◌⊎◌, inl, inr, refl, sym, ◌∙◌, List, [],
  ◌∷◌, ◌++◌, length, ◌==◌, arith, All, length-take, length-drop, append_assoc, append-nil,
  Bool-cases,
}
use loft.Coap.Message.{Message, OptionEntry, push_option, bare}
use loft.Coap.Wire.Defs.{
  Decoded, DecodeError, ok, err, stuck, read_nibble_ext, read_option, decode_loop,
  decode_options_and_payload,
}
use loft.Coap.Wire.Sort.{Ordered}

-- To split on a decoded value that is not `stuck`.
pub Decoded-cases {ℓ} :
    {A : Type ℓ} (r : Decoded A)
    → r ≢ stuck
    → ((a : A) × (r ≡ ok a)) ⊎ ((e : DecodeError) × (r ≡ err e))
Decoded-cases (ok a) h = inl (a, refl)
Decoded-cases (err e) h = inr (e, refl)
Decoded-cases stuck h = absurd (h refl)

read_nibble_ext-ne-stuck : (n : ℕ) (buf : List ℕ) → read_nibble_ext n buf ≢ stuck
unfolding read_nibble_ext
read_nibble_ext-ne-stuck n [] e = ground arith
read_nibble_ext-ne-stuck n (a ∷ []) e = ground arith
read_nibble_ext-ne-stuck n (a ∷ b ∷ rest) e = ground arith

read_nibble_ext-shrinks :
    (n : ℕ) (buf : List ℕ) (v : ℕ) (rest : List ℕ)
    → read_nibble_ext n buf ≡ ok (v, rest)
    → length rest ≤ length buf
unfolding read_nibble_ext
read_nibble_ext-shrinks n [] v rest e = ground arith
read_nibble_ext-shrinks n (a ∷ []) v rest e = ground arith
read_nibble_ext-shrinks n (a ∷ b ∷ more) v rest e = ground arith

read_option-ne-stuck : (number byte : ℕ) (buf : List ℕ) → read_option number byte buf ≢ stuck
unfolding read_option
read_option-ne-stuck number byte buf e =
    elim (Decoded-cases (read_nibble_ext (byte / 16) buf)
      (read_nibble_ext-ne-stuck (byte / 16) buf)) [
        | inl ((d, buf1), p) ↦ ground (arith, read_nibble_ext-ne-stuck (byte % 16) buf1)
        | inr (x, p) ↦ ground arith
      ]

-- What an accepted option took from the buffer.
read_option-bounds :
    (number byte : ℕ) (buf : List ℕ) (n : ℕ) (v rest : List ℕ)
    → read_option number byte buf ≡ ok (n, v, rest)
    → (number ≤ n) × (n < 2 ^ 16) × (length v + length rest ≤ length buf)
unfolding read_option
read_option-bounds number byte buf n v rest e =
    elim (Decoded-cases (read_nibble_ext (byte / 16) buf)
      (read_nibble_ext-ne-stuck (byte / 16) buf)) [
        | inl ((d, buf1), p) ↦
            elim (Decoded-cases (read_nibble_ext (byte % 16) buf1)
              (read_nibble_ext-ne-stuck (byte % 16) buf1)) [
                | inl ((l, buf2), q) ↦ ground (
                  arith,
                  read_nibble_ext-shrinks (byte / 16) buf d buf1 p,
                  read_nibble_ext-shrinks (byte % 16) buf1 l buf2 q,
                  length-take l buf2,
                  length-drop l buf2,
                )
                | inr (x, q) ↦ ground arith
              ]
        | inr (x, p) ↦ ground arith
      ]

decode_loop-ne-stuck :
    (fuel number : ℕ) (buf : List ℕ) (msg : Message)
    → length buf < fuel
    → decode_loop fuel number buf msg ≢ stuck
unfolding decode_loop
decode_loop-ne-stuck zero number buf msg h e = absurd (omega arith)
decode_loop-ne-stuck (suc fuel) number [] msg h e = cc
decode_loop-ne-stuck (suc fuel) number (byte ∷ buf) msg h e =
    elim (Decoded-cases (read_option number byte buf) (read_option-ne-stuck number byte buf)) [
      | inl ((n, v, rest), p) ↦ ground (
        arith,
        read_option-bounds number byte buf n v rest p,
        decode_loop-ne-stuck fuel n rest (push_option msg n v),
      )
      | inr (x, p) ↦ ground arith
    ]

-- The decoder returns a message or a `DecodeError` on every input: its loop ends.
pub decode-ne-stuck : (buf : List ℕ) (msg : Message) → decode_options_and_payload buf msg ≢ stuck
unfolding decode_options_and_payload
decode-ne-stuck buf msg = decode_loop-ne-stuck (suc (length buf)) 0 buf msg (omega arith)

-- The bytes that the values of options take.
unfoldable pub total : List OptionEntry → ℕ
total [] = 0
total ((n, v) ∷ os) = length v + total os

abbrev pub IsU16 : OptionEntry → Type 0
IsU16 o = o.0 < 2 ^ 16

-- What decoding adds to a message.
pub record Adds (number : ℕ) (size : ℕ) (before after : Message) : Type 0 where
  pub added : List OptionEntry
  pub options : after.options ≡ before.options ++ added
  pub ordered : Ordered number added
  pub numbers : All IsU16 added
  pub size_le : total added + length after.payload ≤ size + length before.payload
  pub code : after.code ≡ before.code
  pub token : after.token ≡ before.token

Adds-push :
    {number n : ℕ} {size left : ℕ} (v : List ℕ) (msg : Message) {m : Message}
    → (number ≤ n) × (n < 2 ^ 16) × (length v + left ≤ size)
    → Adds n left (push_option msg n v) m
    → Adds number (suc size) msg m
unfolding total
Adds-push {n = n} v msg b a = record {
  added = (n, v) ∷ a.added;
  options = a.options ∙ append_assoc msg.options ((n, v) ∷ []) a.added;
  ordered = (b.0, a.ordered);
  numbers = (b.1, a.numbers);
  size_le = omega (arith, a.size_le, b.2);
  code = a.code;
  token = a.token;
}

Adds-nothing :
    (number size : ℕ) (msg m : Message)
    → m.options ≡ msg.options
    → length m.payload ≤ size + length msg.payload
    → m.code ≡ msg.code
    → m.token ≡ msg.token
    → Adds number size msg m
unfolding total
Adds-nothing number size msg m same size_le code token = record {
  added = [];
  options = same ∙ sym (append-nil msg.options);
  ordered = tt;
  numbers = tt;
  size_le = omega arith;
  code = code;
  token = token;
}

-- A round that succeeds ends at the payload marker or reads an option and goes on.
decode_round :
    (fuel number byte : ℕ) (buf : List ℕ) (msg m : Message)
    → decode_loop (suc fuel) number (byte ∷ buf) msg ≡ ok m
    → (m ≡ record msg { payload = buf })
      ⊎ ((r : ℕ × List ℕ × List ℕ) × (read_option number byte buf ≡ ok r)
          × (decode_loop fuel r.0 r.2 (push_option msg r.0 r.1) ≡ ok m))
unfolding decode_loop
decode_round fuel number byte buf msg m e = elim (Bool-cases (byte == 0xFF)) [
  | inl marker ↦ inl (ground arith)
  | inr other ↦
      elim (Decoded-cases (read_option number byte buf) (read_option-ne-stuck number byte buf)) [
        | inl (r, p) ↦ inr (r, p, ground arith)
        | inr (x, p) ↦ absurd (ground arith)
      ]
]

decode_loop-Adds :
    (fuel number : ℕ) (buf : List ℕ) (msg m : Message)
    → decode_loop fuel number buf msg ≡ ok m
    → Adds number (length buf) msg m
decode_loop-Adds fuel number [] msg m e =
    let same : m ≡ msg = unfold decode_loop in cc in
    Adds-nothing number 0 msg m (ground arith) (ground arith) (ground arith) (ground arith)
decode_loop-Adds zero number (byte ∷ buf) msg m e = unfold decode_loop in absurd (ground arith)
decode_loop-Adds (suc fuel) number (byte ∷ buf) msg m e =
    elim (decode_round fuel number byte buf msg m e) [
      | inl last ↦
          Adds-nothing number _ msg m (ground arith) (ground arith) (ground arith) (ground arith)
      | inr ((n, v, rest), p, more) ↦
          Adds-push v msg (read_option-bounds number byte buf n v rest p)
            (decode_loop-Adds fuel n rest (push_option msg n v) m more)
    ]

-- A message that decodes adds options in ascending order of their 16-bit numbers, and their values
-- and the payload together take no more bytes than the input has; code and token stay.
pub decode-Adds :
    (buf : List ℕ) (msg m : Message)
    → decode_options_and_payload buf msg ≡ ok m
    → Adds 0 (length buf) msg m
unfolding decode_options_and_payload
decode-Adds buf msg m e = decode_loop-Adds (suc (length buf)) 0 buf msg m e

-- A received message: its options stand in ascending order of 16-bit numbers, and what it holds takes
-- at most `size` bytes.
pub record Received (size : ℕ) (m : Message) : Type 0 where
  pub ordered : Ordered 0 m.options
  pub numbers : All IsU16 m.options
  pub size_le : total m.options + length m.payload ≤ size

-- A message decoded from any bytes has its options in ascending order of 16-bit numbers, its option
-- values and payload together take no more bytes than the region had, and its code and token are the
-- ones the header gave.
pub decode-Received :
    (buf : List ℕ) (code : ℕ) (token : List ℕ) (m : Message)
    → decode_options_and_payload buf (bare code token) ≡ ok m
    → Received (length buf) m × (m.code ≡ code) × (m.token ≡ token)
decode-Received buf code token m e =
    let a = decode-Adds buf (bare code token) m e in
    (
      record {
        ordered = rw a.options a.ordered;
        numbers = rw a.options a.numbers;
        size_le = rw a.options (omega (arith, a.size_le));
      },
      a.code,
      a.token,
    )
