-- ===== src/EncodedWord/WordRoundTrip.antt =====
-- `WordDecoder.Decode` undoes `WordEncoder.encodeWord`, where this writes one word.
use mathlib.Core.List.{reverse-append}
use mime.Base.{
  ℕ, suc, ◌<◌, ◌+◌, ◌-◌, ◌*◌, ◌/◌, ◌%◌, [], ◌∷◌, ◌++◌, true, false, All, All-append, ◌≡◌, ◌⊎◌, refl,
  ap, sym, ◌∙◌, arith, ◌==◌, length, if◌then◌else◌, take, drop, get_elem?, take-append,
  append_assoc, reverse, length-append, List,
}
use mime.Base.Bytes.{Bytes, IsByte, has_prefix, has_suffix, has_prefix-append, index_byte-append}
use mime.Base.Result.{ok, ◌>>=◌}
use mime.EncodedWord.Base64
use mime.EncodedWord.Base64RoundTrip.{decode-encode}
use mime.EncodedWord.Decode.{
  CharsetReader, decode, convert, decode_inner, decode_word, count_questions,
}
use mime.EncodedWord.Encode.{
  WordEncoder, b_encoding, q_encoding, encoder_byte, is_utf8, open_word, close_word, encode_word,
}
use mime.EncodedWord.QEncoding.{write_q_string, write_q_byte, upper_hex}
use mime.EncodedWord.Short.{single, Fits, encode_content-single}
use mime.EncodedWord.QRoundTrip.{q_decode-write_q_string}

abbrev pub NotQuestion : ℕ → Type 0
NotQuestion c = (c == b'?') ≡ false

count_questions-append :
    (s t : Bytes) → count_questions (s ++ t) ≡ count_questions s + count_questions t
unfolding count_questions
count_questions-append [] t = omega arith
count_questions-append (c ∷ s) t = omega (arith, count_questions-append s t)

count_questions_none : (s : Bytes) → All NotQuestion s → count_questions s ≡ 0
unfolding count_questions
count_questions_none [] h = refl
count_questions_none (c ∷ s) (hc, h) =
    omega (arith, count_questions_none s h, ap {B = ℕ} (λ b. if b then 1 else 0) hc)

has_suffix-append : (s t : Bytes) → has_suffix (s ++ t) t ≡ true
unfolding has_suffix
has_suffix-append s t = rw (reverse-append s t) (has_prefix-append (reverse t) (reverse s))

pub suc_add : (m n : ℕ) → suc m + n ≡ suc (m + n)
suc_add m n = omega arith

pub get_elem?-append :
    {A : Type 0} (s : List A) (t : List A) (n : ℕ)
    → get_elem? (s ++ t) (length s + n) ≡ get_elem? t n
get_elem?-append [] t n = ap (get_elem? t) (omega arith)
get_elem?-append (c ∷ s) t n =
    ap (get_elem? (c ∷ (s ++ t))) (suc_add (length s) n) ∙ get_elem?-append s t n

pub drop-append_more : (s t : Bytes) (n : ℕ) → drop (length s + n) (s ++ t) ≡ drop n t
drop-append_more [] t n = ap (λ k. drop k t) (omega arith)
drop-append_more (c ∷ s) t n =
    ap (λ k. drop k (c ∷ (s ++ t))) (suc_add (length s) n) ∙ drop-append_more s t n

-- the word without its first and last two characters
abbrev middle : Bytes → ℕ → Bytes → Bytes
middle charset encoding text = charset ++ (b'?' ∷ encoding ∷ b'?' ∷ text)

four_questions :
    (charset : Bytes) (encoding : ℕ) (text : Bytes)
    → All NotQuestion charset
    → NotQuestion encoding
    → All NotQuestion text
    → count_questions (b'=' ∷ b'?' ∷ (middle charset encoding text ++ close_word)) ≡ 4
unfolding count_questions
four_questions charset encoding text h he ht = omega (
  arith,
  count_questions-append (middle charset encoding text) close_word,
  count_questions-append charset (b'?' ∷ encoding ∷ b'?' ∷ text),
  count_questions_none charset h,
  count_questions_none text ht,
  ap {B = ℕ} (λ b. if b then 1 else 0) he,
)

module _ (unicode_lower : ℕ → ℕ) (reader : CharsetReader) where
  inner_of_middle :
      (charset : Bytes) (encoding : ℕ) (text : Bytes)
      → All NotQuestion charset
      → decode_inner unicode_lower reader (middle charset encoding text)
        ≡ (decode encoding text >>= convert unicode_lower reader charset)
  unfolding decode_inner
  inner_of_middle charset encoding text h =
      let rest = b'?' ∷ encoding ∷ b'?' ∷ text in
      rw
        (
          index_byte-append charset b'?' (encoding ∷ b'?' ∷ text) h,
          decode_inner,
          get_elem?-append charset rest 2,
          get_elem?-append charset rest 1,
          drop-append_more charset rest 3,
          take-append charset rest,
        )
        refl

  cut_middle :
      (m : Bytes) → take (length (b'=' ∷ b'?' ∷ (m ++ close_word)) - 4) (m ++ close_word) ≡ m
  cut_middle m =
      ap (λ n. take n (m ++ close_word)) (omega (arith, length-append m close_word))
      ∙ take-append m close_word

  decode_word-middle :
      (charset : Bytes) (encoding : ℕ) (text : Bytes)
      → All NotQuestion charset
      → NotQuestion encoding
      → All NotQuestion text
      → decode_word unicode_lower reader
          (b'=' ∷ b'?' ∷ (middle charset encoding text ++ close_word))
        ≡ (decode encoding text >>= convert unicode_lower reader charset)
  unfolding decode_word has_prefix
  decode_word-middle charset encoding text h he ht =
      rw
        (
          has_suffix-append (b'=' ∷ b'?' ∷ middle charset encoding text) close_word,
          four_questions charset encoding text h he ht,
          cut_middle (middle charset encoding text),
        )
        (inner_of_middle charset encoding text h)

hex_NotQuestion : (n : ℕ) → n < 16 → NotQuestion (upper_hex n)
unfolding upper_hex
hex_NotQuestion n h = ground arith

q_byte_NotQuestion : (b : ℕ) → IsByte b → All NotQuestion (write_q_byte b)
unfolding write_q_byte
q_byte_NotQuestion b h =
    ground (arith, hex_NotQuestion (b / 16) (omega arith), hex_NotQuestion (b % 16) (omega arith))

q_string_NotQuestion : (s : Bytes) → All IsByte s → All NotQuestion (write_q_string s)
unfolding write_q_string
q_string_NotQuestion [] h = tt
q_string_NotQuestion (b ∷ s) (hb, h) =
    All-append NotQuestion (write_q_byte b) (write_q_string s) (q_byte_NotQuestion b hb)
      (q_string_NotQuestion s h)

digit-NotQuestion : (n : ℕ) → n < 64 → NotQuestion (Base64.digit n)
unfolding Base64.digit
digit-NotQuestion n h = ground arith

base64_NotQuestion : (s : Bytes) → All IsByte s → All NotQuestion (Base64.encode s)
unfolding Base64.encode
base64_NotQuestion [] h = tt
base64_NotQuestion (a ∷ []) (ha, _) = (
  digit-NotQuestion (a / 4) (omega arith),
  (digit-NotQuestion (a % 4 * 16) (omega arith), (refl, (refl, tt))),
)
base64_NotQuestion (a ∷ b ∷ []) (ha, (hb, _)) = (
  digit-NotQuestion (a / 4) (omega arith),
  (
    digit-NotQuestion (a % 4 * 16 + b / 16) (omega arith),
    (digit-NotQuestion (b % 16 * 4) (omega arith), (refl, tt)),
  ),
)
base64_NotQuestion (a ∷ b ∷ c ∷ s) (ha, (hb, (hc, h))) = (
  digit-NotQuestion (a / 4) (omega arith),
  (
    digit-NotQuestion (a % 4 * 16 + b / 16) (omega arith),
    (
      digit-NotQuestion (b % 16 * 4 + c / 64) (omega arith),
      (digit-NotQuestion (c % 64) (omega arith), base64_NotQuestion s h),
    ),
  ),
)

pub single-NotQuestion : (e : WordEncoder) (s : Bytes) → All IsByte s → All NotQuestion (single e s)
single-NotQuestion b_encoding s h = base64_NotQuestion s h
single-NotQuestion q_encoding s h = q_string_NotQuestion s h

pub decode-single :
    (e : WordEncoder) (s : Bytes) → All IsByte s → decode (encoder_byte e) (single e s) ≡ ok s
unfolding decode
decode-single b_encoding s h = rw (decode-encode s h) refl
decode-single q_encoding s h = q_decode-write_q_string s h

pub encoder_NotQuestion : (e : WordEncoder) → NotQuestion (encoder_byte e)
encoder_NotQuestion b_encoding = refl
encoder_NotQuestion q_encoding = refl

-- `encodeWord` in one piece
open-middle :
    (e : WordEncoder) (charset text : Bytes)
    → open_word e charset ++ (text ++ close_word)
      ≡ b'=' ∷ b'?' ∷ (middle charset (encoder_byte e) text ++ close_word)
unfolding open_word
open-middle e charset text =
    ap (λ z. b'=' ∷ b'?' ∷ z)
      (append_assoc charset (b'?' ∷ encoder_byte e ∷ b'?' ∷ []) (text ++ close_word)
        ∙ sym (append_assoc charset (b'?' ∷ encoder_byte e ∷ b'?' ∷ text) close_word))

-- For every charset without a question mark and every byte string: `Decode` gives what `convert` makes
-- of the byte string. Either the charset is not UTF-8 by name, so that one word is always written, or
-- the byte string is so short that it fits one word whatever its bytes are: in base64 its code has at
-- most 65 characters, and in the Q encoding three times its length is at most 65.
pub decode_word-encode_word :
    (unicode_lower : ℕ → ℕ) (reader : CharsetReader) (e : WordEncoder) (charset s : Bytes)
    → All NotQuestion charset
    → (is_utf8 charset ≡ false) ⊎ Fits e s
    → All IsByte s
    → decode_word unicode_lower reader (encode_word e charset s)
      ≡ convert unicode_lower reader charset s
unfolding encode_word
decode_word-encode_word unicode_lower reader e charset s h k hs =
    rw
      (
        encode_content-single e charset s k,
        open-middle e charset (single e s),
        decode_word-middle unicode_lower reader charset (encoder_byte e) (single e s) h
            (encoder_NotQuestion e) (single-NotQuestion e s hs),
        decode-single e s hs,
      )
      refl
