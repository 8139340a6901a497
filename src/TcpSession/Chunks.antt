-- ===== src/TcpSession/Chunks.antt =====
-- The session loop of loft/src/tls_tcp.rs on the same bytes in different reads.
use loft.Prelude.{
  pick, skip, ℕ, zero, suc, ◌+◌, ◌≤◌, ◌<◌, ◌≡◌, ◌≢◌, refl, sym, ap, ◌∙◌, true, false, Option, none,
  some, List, [], ◌∷◌, ◌++◌, length, drop, is_empty, if◌then◌else◌, arith, Bool-cases, inl, inr,
  All, length-append, length-drop, drop-append_le, append_assoc, append-nil,
}
use loft.Coap.Message.{Message}
use loft.Coap.Wire.Defs.{Decoded, DecodeError, ok, err}
use loft.Coap.Tcp.Defs.{drained, next_frame}
use loft.Coap.Tcp.Stream.{try_decode_frame-append, try_decode_frame-consumed, frame_cases}
use loft.Handler.Types.{DeviceSession}
use loft.TcpSession.{World, Served, react, drain, on_read, serve}

-- The three answers of the decoder, with what they say of a longer buffer.
data Next (buf : List ℕ) : Type 0 where
  waiting : next_frame buf ≡ ok (none, buf) → Next buf
  frame :
      (m : Message) (n : ℕ)
      → n ≤ length buf
      → 2 ≤ n
      → ((more : List ℕ) → next_frame (buf ++ more) ≡ ok (some m, drop n buf ++ more))
      → Next buf
  bad : (e : DecodeError) → ((more : List ℕ) → next_frame (buf ++ more) ≡ err e) → Next buf

Next-cases : (buf : List ℕ) → Next buf
unfolding next_frame drained
Next-cases buf = elim (frame_cases buf) [
  | inl p ↦ waiting (rw p refl)
  | inr (inl ((m, n), p)) ↦
      let within = try_decode_frame-consumed buf m n p in
      frame m n within.1 within.0 (λ more.
        rw (try_decode_frame-append buf more (λ e. ground (arith, p)), p)
          (ap (λ rest. ok (some m, rest)) (drop-append_le n buf more within.1)))
  | inr (inr (e, p)) ↦
      bad e (λ more. rw (try_decode_frame-append buf more (λ q. ground (arith, p)), p) refl)
]

at_once :
    (buf : List ℕ) (d : Decoded (Option Message × List ℕ))
    → ((more : List ℕ) → next_frame (buf ++ more) ≡ d)
    → next_frame buf ≡ d
at_once buf d h = ap next_frame (sym (append-nil buf)) ∙ h []

whole :
    (buf : List ℕ) (m : Message) (n : ℕ)
    → ((more : List ℕ) → next_frame (buf ++ more) ≡ ok (some m, drop n buf ++ more))
    → next_frame buf ≡ ok (some m, drop n buf)
whole buf m n p =
    ap next_frame (sym (append-nil buf))
    ∙ p []
    ∙ ap (λ rest. ok (some m, rest)) (append-nil (drop n buf))

module _ (w : World) (session : DeviceSession) where
  -- Fuel above the buffer's length is enough: more changes nothing.
  drain-enough :
      (n m : ℕ) (buf : List ℕ) (s : Served)
      → length buf < n
      → length buf < m
      → drain w session n buf s ≡ drain w session m buf s
  unfolding drain
  drain-enough zero m buf s h k = absurd (omega arith)
  drain-enough (suc n) zero buf s h k = absurd (omega arith)
  drain-enough (suc n) (suc m) buf s h k = elim (Next-cases buf) [
    | waiting p ↦ rw p refl
    | frame x c inside two p ↦
        let shorter = length-drop c buf in
        let rest =
          drain-enough n m (drop c buf) (react w session x s) (omega arith) (omega arith) in
        rw (whole buf x c p, rest) refl
    | bad e p ↦ rw (at_once buf (err e) p) refl
  ]

  -- The next round of the outer loop, if there is one.
  abbrev then_read : List ℕ → Served × List ℕ → Served × List ℕ
  then_read more (s, buf) =
      let next = on_read w session more (s, buf) in if s.is_open then next else (s, buf)

  drain-append :
      (fuel n : ℕ) (buf more : List ℕ) (s : Served)
      → s.is_open ≡ true
      → length buf < fuel
      → length buf + length more < n
      → then_read more (drain w session fuel buf s) ≡ drain w session n (buf ++ more) s
  unfolding drain on_read
  drain-append zero n buf more s alive a b = absurd (omega arith)
  drain-append (suc fuel) zero buf more s alive a b = absurd (omega arith)
  drain-append (suc fuel) (suc n) buf more s alive a b = elim (Next-cases buf) [
    | waiting p ↦ rw p (
        pick _ _ alive
        ∙ drain-enough (suc (length (buf ++ more))) (suc n) (buf ++ more) s (omega arith)
            (omega (arith, length-append buf more)))
    | frame x k inside two p ↦
        let after = react w session x s in
        let shorter = length-drop k buf in
        elim (Bool-cases after.is_open) [
          | inl goes_on ↦
              rw (whole buf x k p, p more)
                (ap (then_read more)
                    (pick (drain w session fuel (drop k buf) after) (after, []) goes_on)
                  ∙ drain-append fuel n (drop k buf) more after goes_on (omega arith) (omega arith)
                  ∙ sym (pick (drain w session n (drop k buf ++ more) after) (after, []) goes_on))
          | inr ended ↦
              rw (whole buf x k p, p more)
                (ap (then_read more)
                    (skip (drain w session fuel (drop k buf) after) (after, []) ended)
                  ∙ skip (on_read w session more (after, [])) (after, []) ended
                  ∙ sym (skip (drain w session n (drop k buf ++ more) after) (after, []) ended))
        ]
    | bad e p ↦ rw (at_once buf (err e) p, p more) refl
  ]

  -- Two reads, or the bytes of both in one.
  on_read-append :
      (a b : List ℕ) (s : Served) (buf : List ℕ)
      → s.is_open ≡ true
      → then_read b (on_read w session a (s, buf)) ≡ on_read w session (a ++ b) (s, buf)
  unfolding on_read
  on_read-append a b s buf alive =
      let lengths = length-append buf (a ++ b) in
      let inner = length-append a b in
      let outer = length-append buf a in
      drain-append (suc (length (buf ++ a))) (suc (length (buf ++ (a ++ b)))) (buf ++ a) b s alive
        (omega arith) (omega arith)
      ∙ ap (λ bytes. drain w session (suc (length (buf ++ (a ++ b)))) bytes s)
          (append_assoc buf a b)

  -- Reads after the end change nothing.
  serve-ended :
      (reads : List (List ℕ)) (s : Served) (buf : List ℕ)
      → s.is_open ≡ false
      → serve w session reads (s, buf) ≡ (s, buf)
  unfolding serve
  serve-ended [] s buf ended = refl
  serve-ended (bytes ∷ reads) s buf ended = rw ended refl

  serve-then :
      (b : List ℕ) (reads : List (List ℕ)) (s : Served) (buf : List ℕ)
      → is_empty b ≡ false
      → serve w session (b ∷ reads) (s, buf) ≡ serve w session reads (then_read b (s, buf))
  unfolding serve
  serve-then b reads s buf filled = elim (Bool-cases s.is_open) [
    | inl goes_on ↦
        skip (s, buf) (serve w session reads (on_read w session b (s, buf)))
          (ground (arith, goes_on, filled))
        ∙ ap (serve w session reads) (sym (pick (on_read w session b (s, buf)) (s, buf) goes_on))
    | inr ended ↦
        pick (s, buf) (serve w session reads (on_read w session b (s, buf))) (ground (arith, ended))
        ∙ sym (serve-ended reads s buf ended)
        ∙ ap (serve w session reads) (sym (skip (on_read w session b (s, buf)) (s, buf) ended))
  ]

-- A read split in two.
serve-append :
    (w : World) (session : DeviceSession) (s : Served) (buf a b : List ℕ) (reads : List (List ℕ))
    → a ≢ []
    → b ≢ []
    → serve w session (a ∷ b ∷ reads) (s, buf) ≡ serve w session ((a ++ b) ∷ reads) (s, buf)
unfolding serve
serve-append w session s buf [] b reads h k = absurd (h refl)
serve-append w session s buf (x ∷ a) [] reads h k = absurd (k refl)
serve-append w session s buf (x ∷ a) (y ∷ b) reads h k = elim (Bool-cases s.is_open) [
  | inl goes_on ↦
      let first = on_read w session (x ∷ a) (s, buf) in
      skip (s, buf) (serve w session ((y ∷ b) ∷ reads) first) (ground (arith, goes_on))
      ∙ serve-then w session (y ∷ b) reads first.0 first.1 refl
      ∙ ap (serve w session reads) (on_read-append w session (x ∷ a) (y ∷ b) s buf goes_on)
      ∙ sym (
          skip (s, buf) (serve w session reads (on_read w session ((x ∷ a) ++ (y ∷ b)) (s, buf)))
            (ground (arith, goes_on)))
  | inr ended ↦
      serve-ended w session ((x ∷ a) ∷ (y ∷ b) ∷ reads) s buf ended
      ∙ sym (serve-ended w session (((x ∷ a) ++ (y ∷ b)) ∷ reads) s buf ended)
]

-- The bytes of several reads.
unfoldable pub joined : List (List ℕ) → List ℕ
joined [] = []
joined (bytes ∷ reads) = bytes ++ joined reads

append-ne : (a b : List ℕ) → a ≢ [] → a ++ b ≢ []
append-ne [] b h = absurd (h refl)
append-ne (x ∷ a) b h = λ e. cc

-- However the bytes of a session are cut into reads, none of them empty, the outcome is that of one read
-- of them all: the frames written, the upstream calls, the Block1 table, and the bytes of an incomplete
-- frame that are left.
pub serve-joined :
    (w : World) (session : DeviceSession) (s : Served) (buf a : List ℕ) (reads : List (List ℕ))
    → a ≢ []
    → All (λ bytes. bytes ≢ []) reads
    → serve w session (a ∷ reads) (s, buf) ≡ serve w session ((a ++ joined reads) ∷ []) (s, buf)
unfolding joined
serve-joined w session s buf a [] h hs =
    ap (λ bytes. serve w session (bytes ∷ []) (s, buf)) (sym (append-nil a))
serve-joined w session s buf a (b ∷ reads) h hs =
    serve-append w session s buf a b reads h hs.0
    ∙ serve-joined w session s buf (a ++ b) reads (append-ne a b h) hs.1
    ∙ ap (λ bytes. serve w session (bytes ∷ []) (s, buf)) (append_assoc a b (joined reads))
