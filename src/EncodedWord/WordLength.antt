-- ===== src/EncodedWord/WordLength.antt =====
-- The lengths of the words that `bEncode` and `qEncode` write.
use mime.Base.{
  ℕ, suc, zero, ◌≤◌, ◌+◌, ◌-◌, ◌*◌, ◌/◌, [], ◌∷◌, ◌++◌, Bool, true, false, ◌≡◌, inl, inr, refl,
  subst, arith, take, append_assoc, Bool-cases, leb, ltb, if◌then◌else◌, length, length-append,
}
use mime.Base.Bytes.{Bytes}
use mime.EncodedWord.Base64
use mime.EncodedWord.Encode.{
  WordEncoder, b_encoding, q_encoding, is_utf8, max_content_len, max_base64_len, is_plain,
  split_word, b_encode_loop, q_encode_loop, encode_content, b_encode, q_encode,
}
use mime.EncodedWord.QEncoding.{write_q_string, write_q_byte}
use mime.Runes.Width.{decode_rune-width}
use mime.Runes.{decode_rune}

-- The first of the words has a text of at most `room` bytes, the others have one of at most
-- `max_content_len`.
pub data Bounded (e : WordEncoder) (charset : Bytes) : ℕ → Bytes → Type 0 where
  last : (room : ℕ) (text : Bytes) → length text ≤ room → Bounded e charset room text
  more :
      (room : ℕ) (text w : Bytes)
      → length text ≤ room
      → Bounded e charset max_content_len w
      → Bounded e charset room (text ++ (split_word e charset ++ w))

decode_rune-narrow : (b : ℕ) (s : Bytes) → (decode_rune (b ∷ s)).1 ≤ 4
unfolding decode_rune
decode_rune-narrow b [] = ground arith
decode_rune-narrow b (c ∷ []) = ground arith
decode_rune-narrow b (c ∷ d ∷ []) = ground arith
decode_rune-narrow b (c ∷ d ∷ e ∷ s) = ground arith

length-encode : (s : Bytes) → length (Base64.encode s) ≡ (length s + 2) / 3 * 4
unfolding Base64.encode
length-encode [] = omega arith
length-encode (a ∷ []) = omega arith
length-encode (a ∷ b ∷ []) = omega arith
length-encode (a ∷ b ∷ c ∷ s) = omega (arith, length-encode s)

length-write_q_byte : (b : ℕ) → length (write_q_byte b) ≤ 3
unfolding write_q_byte
length-write_q_byte b = ground arith

length-write_q_string : (s : Bytes) → length (write_q_string s) ≤ 3 * length s
unfolding write_q_string
length-write_q_string [] = omega arith
length-write_q_string (b ∷ s) = omega (
  arith,
  length-write_q_byte b,
  length-write_q_string s,
  length-append (write_q_byte b) (write_q_string s),
)

length-take : (n : ℕ) (s : Bytes) → length (take n s) ≤ n
length-take zero s = omega arith
length-take (suc n) [] = omega arith
length-take (suc n) (b ∷ s) = omega (arith, length-take n s)

module _ (charset : Bytes) where
  length-plain : (b : ℕ) → is_plain charset b ≡ true → length (write_q_string (b ∷ [])) ≤ 1
  unfolding write_q_string write_q_byte
  length-plain b h = ground arith

  b_encode_loop-Bounded :
      (current_len : ℕ) (piece : Bytes) (skip : ℕ) (s : Bytes)
      → length piece + skip ≡ current_len
      → current_len ≤ max_base64_len
      → Bounded b_encoding charset max_content_len (b_encode_loop charset current_len piece skip s)
  unfolding b_encode_loop
  b_encode_loop-Bounded current_len piece skip [] e l =
      last max_content_len (Base64.encode piece) (omega (arith, length-encode piece))
  b_encode_loop-Bounded current_len piece (suc skip) (b ∷ s) e l =
      b_encode_loop-Bounded current_len (piece ++ b ∷ []) skip s
        (omega (arith, length-append piece (b ∷ []))) l
  b_encode_loop-Bounded current_len piece zero (b ∷ s) e l =
      let width = (decode_rune (b ∷ s)).1 in
      let (low, high) = decode_rune-width b s in
      elim (Bool-cases (leb (current_len + width) max_base64_len)) [
        | inl h ↦ rw h (
            b_encode_loop-Bounded (current_len + width) (piece ++ b ∷ []) (width - 1) s
              (omega (arith, length-append piece (b ∷ []))) (ground arith))
        | inr h ↦ rw h (
            more max_content_len (Base64.encode piece) _ (omega (arith, length-encode piece)) (
              b_encode_loop-Bounded width (b ∷ []) (width - 1) s (omega arith)
                (omega (arith, decode_rune-narrow b s))))
      ]

  Bounded-front :
      (room : ℕ) (p w : Bytes)
      → Bounded q_encoding charset room w
      → Bounded q_encoding charset (length p + room) (p ++ w)
  Bounded-front _ p _ (last room text h) = last _ (p ++ text) (omega (arith, length-append p text))
  Bounded-front _ p _ (more room text w h k) =
      subst (Bounded q_encoding charset _)
        (append_assoc p text (split_word q_encoding charset ++ w))
        (more _ (p ++ text) w (omega (arith, length-append p text)) k)

  Bounded-mono :
      (m n : ℕ) (w : Bytes)
      → Bounded q_encoding charset m w
      → m ≤ n
      → Bounded q_encoding charset n w
  Bounded-mono _ n _ (last room text h) l = last n text (omega arith)
  Bounded-mono _ n _ (more room text w h k) l = more n text w (omega arith) k

  -- A round that writes `p`, at most `cost` bytes.
  round-Bounded :
      (split : Bool) (current_len cost : ℕ) (p w : Bytes)
      → ltb max_content_len (current_len + cost) ≡ split
      → length p ≤ cost
      → cost ≤ max_content_len
      → Bounded q_encoding charset
          (max_content_len - (if split then cost else current_len + cost))
          w
      → Bounded q_encoding charset
          (max_content_len - current_len)
          ((if split then split_word q_encoding charset else []) ++ (p ++ w))
  round-Bounded true current_len cost p w e h c k =
      more _ [] (p ++ w) (omega arith)
        (Bounded-mono _ max_content_len (p ++ w) (Bounded-front _ p w k) (omega arith))
  round-Bounded false current_len cost p w e h c k =
      Bounded-mono _ _ (p ++ w) (Bounded-front _ p w k) (ground arith)

  q_encode_loop-Bounded :
      (current_len skip : ℕ) (s : Bytes)
      → Bounded q_encoding charset
          (max_content_len - current_len)
          (q_encode_loop charset current_len skip s)
  unfolding q_encode_loop
  q_encode_loop-Bounded current_len zero [] = last _ [] (omega arith)
  q_encode_loop-Bounded current_len (suc skip) [] = last _ [] (omega arith)
  q_encode_loop-Bounded current_len (suc skip) (b ∷ s) = q_encode_loop-Bounded current_len skip s
  q_encode_loop-Bounded current_len zero (b ∷ s) =
      let width = (decode_rune (b ∷ s)).1 in
      let wide = ltb max_content_len (current_len + 3 * width) in
      let plain = ltb max_content_len (current_len + 1) in
      elim (Bool-cases (is_plain charset b)) [
        | inl e ↦ rw e (
            round-Bounded plain current_len 1 (write_q_string (b ∷ [])) _ refl (length-plain b e)
              (omega arith) (q_encode_loop-Bounded (if plain then 1 else current_len + 1) 0 s))
        | inr e ↦ rw e (
            round-Bounded wide current_len (3 * width) (write_q_string (take width (b ∷ s))) _ refl
              (omega (arith, length-write_q_string (take width (b ∷ s)), length-take width (b ∷ s)))
              (omega (arith, decode_rune-narrow b s))
              (q_encode_loop-Bounded (if wide then 3 * width else current_len + 3 * width)
                (width - 1) s))
      ]

-- Where the charset is UTF-8 by name, the content is written as words whose texts, between the
-- encoding and the closing `?=`, have at most `max_content_len` bytes each, in both encodings.
pub encode_content-Bounded :
    (e : WordEncoder) (charset s : Bytes)
    → is_utf8 charset ≡ true
    → Bounded e charset max_content_len (encode_content e charset s)
unfolding encode_content b_encode q_encode
encode_content-Bounded b_encoding charset s h =
    elim (Bool-cases (leb ((length s + 2) / 3 * 4) max_content_len)) [
      | inl e ↦ rw (h, e) (last _ (Base64.encode s) (ground (arith, length-encode s)))
      | inr e ↦ rw (h, e) (b_encode_loop-Bounded charset 0 [] 0 s (omega arith) (omega arith))
    ]
encode_content-Bounded q_encoding charset s h = rw h (q_encode_loop-Bounded charset 0 0 s)
