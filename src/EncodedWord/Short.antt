-- ===== src/EncodedWord/Short.antt =====
-- `bEncode` and `qEncode` where they write one word.
use mime.Base.{
  ℕ, suc, zero, ◌≤◌, ◌+◌, ◌-◌, ◌*◌, ◌/◌, [], ◌∷◌, ◌++◌, false, ◌≡◌, ◌⊎◌, inl, inr, refl, ap, sym,
  ◌∙◌, arith, length, take, drop, append_assoc, length-drop, take-append-drop, Bool-cases, le→ltb,
  true,
}
use mime.Base.Bytes.{Bytes}
use mime.EncodedWord.Base64
use mime.EncodedWord.Encode.{
  WordEncoder, b_encoding, q_encoding, is_utf8, max_content_len, is_plain, q_encode_loop,
  encode_content, b_encode, q_encode,
}
use mime.EncodedWord.QEncoding.{write_q_string, write_q_byte}
use mime.Runes.Width.{decode_rune-width}
use mime.Runes.{decode_rune}

-- what is written for the content when it is not split
abbrev pub single : WordEncoder → Bytes → Bytes
single b_encoding s = Base64.encode s
single q_encoding s = write_q_string s

-- The content is short enough for one word, however it is spelled.
abbrev pub Fits : WordEncoder → Bytes → Type 0
Fits b_encoding s = (length s + 2) / 3 * 4 ≤ max_content_len
Fits q_encoding s = 3 * length s ≤ max_content_len

pub write_q_string-append :
    (s t : Bytes) → write_q_string (s ++ t) ≡ write_q_string s ++ write_q_string t
unfolding write_q_string
write_q_string-append [] t = refl
write_q_string-append (b ∷ s) t =
    ap (λ z. write_q_byte b ++ z) (write_q_string-append s t)
    ∙ sym (append_assoc (write_q_byte b) (write_q_string s) (write_q_string t))

pub less : (n : ℕ) → suc n - 1 ≡ n
less n = omega arith

write_take-drop :
    (n b : ℕ) (s : Bytes)
    → 1 ≤ n
    → write_q_string (take n (b ∷ s)) ++ write_q_string (drop (n - 1) s) ≡ write_q_string (b ∷ s)
write_take-drop zero b s h = absurd (omega arith)
write_take-drop (suc n) b s h =
    ap (λ k. write_q_string (b ∷ take n s) ++ write_q_string (drop k s)) (less n)
    ∙ sym (write_q_string-append (b ∷ take n s) (drop n s))
    ∙ ap (λ z. write_q_string (b ∷ z)) (take-append-drop n s)

module _ (charset : Bytes) where
  q_encode_loop_short :
      (current_len skip : ℕ) (s : Bytes)
      → current_len + 3 * length (drop skip s) ≤ max_content_len
      → q_encode_loop charset current_len skip s ≡ write_q_string (drop skip s)
  unfolding q_encode_loop
  q_encode_loop_short current_len zero [] h = unfold write_q_string in refl
  q_encode_loop_short current_len (suc skip) [] h = unfold write_q_string in refl
  q_encode_loop_short current_len (suc skip) (b ∷ s) h = q_encode_loop_short current_len skip s h
  q_encode_loop_short current_len zero (b ∷ s) h =
      let width = (decode_rune (b ∷ s)).1 in
      let (low, high) = decode_rune-width b s in
      elim (Bool-cases (is_plain charset b)) [
        | inl e ↦
            rw
              (
                e,
                le→ltb max_content_len (current_len + 1) (omega arith),
                q_encode_loop_short (current_len + 1) 0 s (omega arith),
              )
              (write_take-drop 1 b s (omega arith))
        | inr e ↦
            rw
              (
                e,
                le→ltb max_content_len (current_len + 3 * width) (omega arith),
                q_encode_loop_short (current_len + 3 * width) (width - 1) s
                    (omega (arith, length-drop (width - 1) s)),
              )
              (write_take-drop width b s low)
      ]

encode_content_other :
    (e : WordEncoder) (charset s : Bytes)
    → is_utf8 charset ≡ false
    → encode_content e charset s ≡ single e s
unfolding encode_content b_encode q_encode
encode_content_other b_encoding charset s h = rw h refl
encode_content_other q_encoding charset s h = rw h refl

encode_content-Fits :
    (e : WordEncoder) (charset s : Bytes)
    → Fits e s
    → is_utf8 charset ≡ true
    → encode_content e charset s ≡ single e s
unfolding encode_content b_encode q_encode
encode_content-Fits b_encoding charset s h u = rw u (ground arith)
encode_content-Fits q_encoding charset s h u =
    rw u (q_encode_loop_short charset 0 0 s (omega arith))

pub encode_content-single :
    (e : WordEncoder) (charset s : Bytes)
    → (is_utf8 charset ≡ false) ⊎ Fits e s
    → encode_content e charset s ≡ single e s
encode_content-single e charset s (inl h) = encode_content_other e charset s h
encode_content-single e charset s (inr h) = elim (Bool-cases (is_utf8 charset)) [
  | inl u ↦ encode_content-Fits e charset s h u
  | inr u ↦ encode_content_other e charset s u
]
