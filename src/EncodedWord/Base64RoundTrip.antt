-- ===== src/EncodedWord/Base64RoundTrip.antt =====
-- base64 decoding undoes base64 encoding.
use mime.Base.{
  ℕ, ◌<◌, ◌+◌, ◌*◌, ◌/◌, ◌%◌, [], ◌∷◌, some, false, All, ◌≡◌, refl, ap, ◌∙◌, arith, ◌==◌, ◌||◌,
}
use mime.Base.Bytes.{Bytes, IsByte}
use mime.EncodedWord.Base64.{
  digit, digit_value, encode, decode_three, decode_padded, decode_quanta, skip_newlines, decode,
}

digit_value-digit : (n : ℕ) → n < 64 → digit_value (digit n) ≡ some n
unfolding digit_value digit
digit_value-digit n h = ground arith

-- a digit is neither the padding nor a newline
digit_plain :
    (n : ℕ)
    → n < 64
    → ((digit n == b'=') ≡ false) × ((digit n == b'\n' || digit n == b'\r') ≡ false)
unfolding digit
digit_plain n h = ground arith

decode_three-digit :
    (a b c : ℕ)
    → IsByte a
    → IsByte b
    → IsByte c
    → decode_three
        (digit (a / 4))
        (digit (a % 4 * 16 + b / 16))
        (digit (b % 16 * 4 + c / 64))
        (digit (c % 64))
      ≡ some (a ∷ b ∷ c ∷ [])
unfolding decode_three
decode_three-digit a b c ha hb hc =
    rw
      (
        digit_value-digit (a / 4) (omega arith),
        digit_value-digit (a % 4 * 16 + b / 16) (omega arith),
        digit_value-digit (b % 16 * 4 + c / 64) (omega arith),
        digit_value-digit (c % 64) (omega arith),
      )
      (ground arith)

decode_one :
    (a : ℕ) → IsByte a → decode_padded (digit (a / 4)) (digit (a % 4 * 16)) b'=' ≡ some (a ∷ [])
unfolding decode_padded
decode_one a ha =
    rw (digit_value-digit (a / 4) (omega arith), digit_value-digit (a % 4 * 16) (omega arith))
      (ground arith)

decode_two :
    (a b : ℕ)
    → IsByte a
    → IsByte b
    → decode_padded (digit (a / 4)) (digit (a % 4 * 16 + b / 16)) (digit (b % 16 * 4))
      ≡ some (a ∷ b ∷ [])
unfolding decode_padded
decode_two a b ha hb =
    rw
      (
        digit_value-digit (a / 4) (omega arith),
        digit_value-digit (a % 4 * 16 + b / 16) (omega arith),
        digit_value-digit (b % 16 * 4) (omega arith),
        (digit_plain (b % 16 * 4) (omega arith)).0,
      )
      (ground arith)

-- a quantum with no padding, in front of what is decoded behind it
quantum :
    (w x y z : ℕ) (rest : Bytes) {a b c : ℕ} {s : Bytes}
    → (z == b'=') ≡ false
    → decode_three w x y z ≡ some (a ∷ b ∷ c ∷ [])
    → decode_quanta rest ≡ some s
    → decode_quanta (w ∷ x ∷ y ∷ z ∷ rest) ≡ some (a ∷ b ∷ c ∷ s)
unfolding decode_quanta
quantum w x y z [] n f r = ground arith
quantum w x y z (e ∷ rest) n f r = rw (f, r, decode_quanta)

quanta-encode : (s : Bytes) → All IsByte s → decode_quanta (encode s) ≡ some s
unfolding encode
quanta-encode [] h = unfold decode_quanta in refl
quanta-encode (a ∷ []) (ha, _) = unfold decode_quanta in decode_one a ha
quanta-encode (a ∷ b ∷ []) (ha, (hb, _)) = unfold decode_quanta in decode_two a b ha hb
quanta-encode (a ∷ b ∷ c ∷ s) (ha, (hb, (hc, h))) =
    quantum _ _ _ _ (encode s) (digit_plain (c % 64) (omega arith)).0
      (decode_three-digit a b c ha hb hc) (quanta-encode s h)

abbrev NotNewline : ℕ → Type 0
NotNewline c = (c == b'\n' || c == b'\r') ≡ false

encode-NotNewline : (s : Bytes) → All IsByte s → All NotNewline (encode s)
unfolding encode
encode-NotNewline [] h = tt
encode-NotNewline (a ∷ []) (ha, _) = (
  (digit_plain (a / 4) (omega arith)).1,
  ((digit_plain (a % 4 * 16) (omega arith)).1, (refl, (refl, tt))),
)
encode-NotNewline (a ∷ b ∷ []) (ha, (hb, _)) = (
  (digit_plain (a / 4) (omega arith)).1,
  (
    (digit_plain (a % 4 * 16 + b / 16) (omega arith)).1,
    ((digit_plain (b % 16 * 4) (omega arith)).1, (refl, tt)),
  ),
)
encode-NotNewline (a ∷ b ∷ c ∷ s) (ha, (hb, (hc, h))) = (
  (digit_plain (a / 4) (omega arith)).1,
  (
    (digit_plain (a % 4 * 16 + b / 16) (omega arith)).1,
    (
      (digit_plain (b % 16 * 4 + c / 64) (omega arith)).1,
      ((digit_plain (c % 64) (omega arith)).1, encode-NotNewline s h),
    ),
  ),
)

skip_newlines-NotNewline : (s : Bytes) → All NotNewline s → skip_newlines s ≡ s
unfolding skip_newlines
skip_newlines-NotNewline [] h = refl
skip_newlines-NotNewline (c ∷ s) (hc, h) = rw hc (ap (◌∷◌ c) (skip_newlines-NotNewline s h))

-- For every byte string: decoding gives back what encoding has made.
pub decode-encode : (s : Bytes) → All IsByte s → decode (encode s) ≡ some s
unfolding decode
decode-encode s h =
    ap decode_quanta (skip_newlines-NotNewline (encode s) (encode-NotNewline s h))
    ∙ quanta-encode s h
