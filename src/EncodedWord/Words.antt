-- ===== src/EncodedWord/Words.antt =====
-- What `bEncode` and `qEncode` write: one word after the other, each with a part of the content.
use mime.Base.{
  ℕ, suc, zero, ◌≤◌, Bool, false, ◌+◌, ◌-◌, ◌*◌, [], ◌∷◌, ◌++◌, true, All, All-append, inl, inr, ap,
  sym, subst, arith, take, drop, append-nil, append_assoc, take-append-drop, Bool-cases, leb, ltb,
  ◌∙◌, if◌then◌else◌, not, ◌||◌, length, ◌/◌,
}
use mime.Base.Bytes.{Bytes, IsByte}
use mime.EncodedWord.Base64
use mime.EncodedWord.Encode.{
  WordEncoder, b_encoding, q_encoding, is_utf8, max_content_len, max_base64_len, is_plain,
  split_word, b_encode_loop, q_encode_loop, encode_content, b_encode, q_encode,
}
use mime.EncodedWord.QEncoding.{write_q_string}
use mime.EncodedWord.Short.{single, write_q_string-append, less}
use mime.Runes.Width.{decode_rune-width}
use mime.Runes.{decode_rune}

-- `Words e charset w s`: the text `w`, between the opening of the first word and the closing of the
-- last one, stands for the content `s`.
pub data Words (e : WordEncoder) (charset : Bytes) : Bytes → Bytes → Type 0 where
  last : (s : Bytes) → All IsByte s → Words e charset (single e s) s
  more :
      (s w t : Bytes)
      → All IsByte s
      → Words e charset w t
      → Words e charset (single e s ++ (split_word e charset ++ w)) (s ++ t)

All-take : (n : ℕ) (s : Bytes) → All IsByte s → All IsByte (take n s)
All-take zero s h = tt
All-take (suc n) [] h = tt
All-take (suc n) (b ∷ s) (hb, h) = (hb, All-take n s h)

module _ (charset : Bytes) where
  b_encode_loop-Words :
      (current_len : ℕ) (piece : Bytes) (skip : ℕ) (s : Bytes)
      → All IsByte piece
      → All IsByte s
      → Words b_encoding charset (b_encode_loop charset current_len piece skip s) (piece ++ s)
  unfolding b_encode_loop
  b_encode_loop-Words current_len piece skip [] hp hs =
      subst (Words b_encoding charset (Base64.encode piece)) (sym (append-nil piece))
        (last piece hp)
  b_encode_loop-Words current_len piece (suc skip) (b ∷ s) hp (hb, hs) =
      subst (Words b_encoding charset (b_encode_loop charset current_len (piece ++ b ∷ []) skip s))
        (append_assoc piece (b ∷ []) s)
        (b_encode_loop-Words current_len (piece ++ b ∷ []) skip s
          (All-append IsByte piece (b ∷ []) hp (hb, tt)) hs)
  b_encode_loop-Words current_len piece zero (b ∷ s) hp (hb, hs) =
      let width = (decode_rune (b ∷ s)).1 in
      elim (Bool-cases (leb (current_len + width) max_base64_len)) [
        | inl e ↦ rw e (
            subst
              (Words b_encoding charset
                (b_encode_loop charset (current_len + width) (piece ++ b ∷ []) (width - 1) s))
              (append_assoc piece (b ∷ []) s)
              (b_encode_loop-Words (current_len + width) (piece ++ b ∷ []) (width - 1) s
                (All-append IsByte piece (b ∷ []) hp (hb, tt)) hs))
        | inr e ↦
            rw e (
              more piece _ (b ∷ s) hp
                (b_encode_loop-Words width (b ∷ []) (width - 1) s (hb, tt) hs))
      ]

  -- Q-encoded bytes in front make the first word longer.
  Words-front :
      (p w s : Bytes)
      → All IsByte p
      → Words q_encoding charset w s
      → Words q_encoding charset (write_q_string p ++ w) (p ++ s)
  Words-front p _ _ hp (last s hs) =
      rw (sym (write_q_string-append p s)) (last (p ++ s) (All-append IsByte p s hp hs))
  Words-front p _ _ hp (more s w t hs h) =
      subst (λ z. Words q_encoding charset z (p ++ (s ++ t)))
        (ap (λ z. z ++ (split_word q_encoding charset ++ w)) (write_q_string-append p s)
          ∙ append_assoc (write_q_string p) (write_q_string s) (split_word q_encoding charset ++ w))
        (subst (Words q_encoding charset _) (append_assoc p s t)
          (more (p ++ s) w t (All-append IsByte p s hp hs) h))

  take_front :
      (n b : ℕ) (s w : Bytes)
      → 1 ≤ n
      → All IsByte (b ∷ s)
      → Words q_encoding charset w (drop (n - 1) s)
      → Words q_encoding charset (write_q_string (take n (b ∷ s)) ++ w) (b ∷ s)
  take_front zero b s w low hs h = absurd (omega arith)
  take_front (suc n) b s w low hs h =
      subst (Words q_encoding charset _)
        (ap (λ k. b ∷ (take n s ++ drop k s)) (less n) ∙ ap (λ z. b ∷ z) (take-append-drop n s))
        (Words-front (take (suc n) (b ∷ s)) w _ (All-take (suc n) (b ∷ s) hs) h)

  -- A round of the loop: a new word, or the one before it goes on.
  split_front :
      (split : Bool) (w s : Bytes)
      → Words q_encoding charset w s
      → Words q_encoding charset ((if split then split_word q_encoding charset else []) ++ w) s
  unfolding write_q_string
  split_front true w s h = more [] w s tt h
  split_front false w s h = h

  q_encode_loop-Words :
      (current_len skip : ℕ) (s : Bytes)
      → All IsByte s
      → Words q_encoding charset (q_encode_loop charset current_len skip s) (drop skip s)
  unfolding q_encode_loop
  q_encode_loop-Words current_len zero [] h = unfold write_q_string in last [] tt
  q_encode_loop-Words current_len (suc skip) [] h = unfold write_q_string in last [] tt
  q_encode_loop-Words current_len (suc skip) (b ∷ s) (hb, h) =
      q_encode_loop-Words current_len skip s h
  q_encode_loop-Words current_len zero (b ∷ s) h =
      let width = (decode_rune (b ∷ s)).1 in
      elim (Bool-cases (is_plain charset b)) [
        | inl e ↦ rw e (
            split_front (ltb max_content_len (current_len + 1)) _ (b ∷ s) (
              take_front 1 b s _ (omega arith) h (
                q_encode_loop-Words
                  (if ltb max_content_len (current_len + 1) then 1 else current_len + 1) 0 s h.1)))
        | inr e ↦ rw e (
            split_front (ltb max_content_len (current_len + 3 * width)) _ (b ∷ s) (
              take_front width b s _ (decode_rune-width b s).0 h (
                q_encode_loop-Words
                  (if ltb max_content_len (current_len + 3 * width)
                    then 3 * width
                    else current_len + 3 * width)
                  (width - 1) s h.1)))
      ]

-- For both encodings and every charset.
pub encode_content-Words :
    (e : WordEncoder) (charset s : Bytes)
    → All IsByte s
    → Words e charset (encode_content e charset s) s
unfolding encode_content b_encode q_encode
encode_content-Words b_encoding charset s h =
    elim (Bool-cases (not (is_utf8 charset) || leb ((length s + 2) / 3 * 4) max_content_len)) [
      | inl e ↦ rw e (last s h)
      | inr e ↦ rw e (b_encode_loop-Words charset 0 [] 0 s tt h)
    ]
encode_content-Words q_encoding charset s h = elim (Bool-cases (is_utf8 charset)) [
  | inl e ↦ rw e (q_encode_loop-Words charset 0 0 s h)
  | inr e ↦ rw e (last s h)
]
