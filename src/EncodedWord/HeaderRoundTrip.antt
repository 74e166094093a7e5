-- ===== src/EncodedWord/HeaderRoundTrip.antt =====
-- `DecodeHeader` undoes `Encode`, split words included.
use mime.Base.{
  ℕ, suc, zero, ◌<◌, ◌+◌, [], ◌∷◌, ◌++◌, some, true, false, Bool, All, ◌≡◌, refl, ap, ◌∙◌, arith,
  ltb, le→ltb, length, drop, get_elem?, take-append, append_assoc, length-append, append-nil,
}
use mime.Base.Bytes.{Bytes, codes, IsByte, has_prefix, index}
use mime.Base.Result.{ok}
use mime.EncodedWord.Decode.{CharsetReader, convert}
use mime.EncodedWord.Encode.{
  WordEncoder, encoder_byte, open_word, close_word, split_word, encode_content, encode_word, encode,
  needs_encoding,
}
use mime.EncodedWord.Header.{
  Found, find_text, find_word, has_non_whitespace, header_loop, decode_header, prepend,
}
use mime.EncodedWord.Short.{single}
use mime.EncodedWord.WordRoundTrip.{
  NotQuestion, get_elem?-append, drop-append_more, single-NotQuestion, decode-single,
}
use mime.EncodedWord.Words.{Words, last, more, encode_content-Words}
use mime.Runes.Strings.{equal_fold}
use mime.Runes.{runes_after, decode_rune}

index-append :
    (s z sep : Bytes)
    → All NotQuestion s
    → has_prefix z sep ≡ true
    → index (s ++ (b'?' ∷ z)) (b'?' ∷ sep) ≡ some (length s)
unfolding index has_prefix
index-append [] z sep h k = rw k refl
index-append (c ∷ s) z sep (hc, h) k = rw (hc, index-append s z sep h k) refl

get_elem?-at : (n k : ℕ) (s t : Bytes) → n ≡ length s + k → get_elem? (s ++ t) n ≡ get_elem? t k
get_elem?-at n k s t e = ap (get_elem? (s ++ t)) e ∙ get_elem?-append s t k

drop-at : (n k : ℕ) (s t : Bytes) → n ≡ length s + k → drop n (s ++ t) ≡ drop k t
drop-at n k s t e = ap (λ i. drop i (s ++ t)) e ∙ drop-append_more s t k

-- what follows the charset of a word
abbrev fields : ℕ → Bytes → Bytes → Bytes
fields x text rest = b'?' ∷ x ∷ b'?' ∷ (text ++ (b'?' ∷ b'=' ∷ rest))

abbrev wire : Bytes → ℕ → Bytes → Bytes → Bytes
wire charset x text rest = b'=' ∷ b'?' ∷ (charset ++ fields x text rest)

room :
    (front : Bytes) (x : ℕ) (text rest : Bytes) (cur : ℕ)
    → cur ≡ length front + 1
    → ltb (length (front ++ fields x text rest)) (cur + 4) ≡ false
room front x text rest cur e = le→ltb _ _ (
    omega
      (arith, e, length-append front (fields x text rest), length-append text (b'?' ∷ b'=' ∷ rest)))

found : ℕ → Bytes → ℕ → Bytes → ℕ → Found
found start charset x text cur = record {
  start = start;
  charset = charset;
  encoding = x;
  text = text;
  stop = cur + 2 + length text + 2;
}

find_text-fields :
    (front : Bytes) (x : ℕ) (text rest : Bytes) (start : ℕ) (charset : Bytes) (cur : ℕ)
    → All NotQuestion text
    → cur ≡ length front + 1
    → find_text (front ++ fields x text rest) start charset cur
      ≡ some (found start charset x text cur)
unfolding find_text found has_prefix
find_text-fields front x text rest start charset cur h e =
    rw
      (
        get_elem?-at cur 1 front (fields x text rest) e,
        get_elem?-at (cur + 1) 2 front (fields x text rest) (omega (arith, e)),
        find_text,
        room front x text rest cur e,
        drop-at (cur + 2) 3 front (fields x text rest) (omega (arith, e)),
        index-append text (b'=' ∷ rest) (b'=' ∷ []) h refl,
        take-append text (b'?' ∷ b'=' ∷ rest),
      )
      refl

drop-fields :
    (front : Bytes) (x : ℕ) (text rest : Bytes) (cur : ℕ)
    → cur ≡ length front + 1
    → drop (cur + 2 + length text + 2) (front ++ fields x text rest) ≡ rest
drop-fields front x text rest cur e =
    drop-at (cur + 2 + length text + 2) (suc (suc (suc (length text + 2)))) front
      (fields x text rest) (omega (arith, e))
    ∙ drop-append_more text (b'?' ∷ b'=' ∷ rest) 2

-- the blank between two words, or nothing in front of the first one
abbrev lead : Bool → Bytes
lead true = b' ' ∷ []
lead false = []

abbrev cursor : Bool → Bytes → ℕ
cursor between charset = length (lead between) + 2 + length charset + 1

find_word-wire :
    (between : Bool) (charset : Bytes) (x : ℕ) (text rest : Bytes)
    → All NotQuestion charset
    → All NotQuestion text
    → find_word (lead between ++ wire charset x text rest)
      ≡ some (found (length (lead between)) charset x text (cursor between charset))
unfolding find_word index has_prefix
find_word-wire true charset x text rest hc ht =
    rw
      (
        index-append charset (x ∷ b'?' ∷ (text ++ (b'?' ∷ b'=' ∷ rest))) [] hc refl,
        take-append charset (fields x text rest),
      )
      (find_text-fields (b' ' ∷ b'=' ∷ b'?' ∷ charset) x text rest 1 charset (cursor true charset)
        ht (omega arith))
find_word-wire false charset x text rest hc ht =
    rw
      (
        index-append charset (x ∷ b'?' ∷ (text ++ (b'?' ∷ b'=' ∷ rest))) [] hc refl,
        take-append charset (fields x text rest),
      )
      (find_text-fields (b'=' ∷ b'?' ∷ charset) x text rest 0 charset (cursor false charset) ht
        (omega arith))

module _ (unicode_lower : ℕ → ℕ) (reader : CharsetReader) (e : WordEncoder) (charset : Bytes) where
  -- The loop takes a word off, and the blank in front of it.
  header_loop-wire :
      (fuel : ℕ) (between : Bool) (s rest : Bytes)
      → All NotQuestion charset
      → All IsByte s
      → convert unicode_lower reader charset s ≡ ok s
      → header_loop unicode_lower reader
          (suc fuel)
          between
          (lead between ++ wire charset (encoder_byte e) (single e s) rest)
        ≡ prepend unicode_lower reader s (header_loop unicode_lower reader fuel true rest)
  unfolding header_loop found has_non_whitespace runes_after decode_rune
  header_loop-wire fuel true s rest hc hs k =
      rw
        (
          find_word-wire true charset (encoder_byte e) (single e s) rest hc
              (single-NotQuestion e s hs),
          header_loop,
          decode-single e s hs,
          k,
          drop-fields (b' ' ∷ b'=' ∷ b'?' ∷ charset) (encoder_byte e) (single e s) rest
              (cursor true charset) (omega arith),
        )
        refl
  header_loop-wire fuel false s rest hc hs k =
      rw
        (
          find_word-wire false charset (encoder_byte e) (single e s) rest hc
              (single-NotQuestion e s hs),
          header_loop,
          decode-single e s hs,
          k,
          drop-fields (b'=' ∷ b'?' ∷ charset) (encoder_byte e) (single e s) rest
              (cursor false charset) (omega arith),
        )
        refl

  header_loop-nil :
      (fuel : ℕ) (between : Bool) → header_loop unicode_lower reader fuel between [] ≡ ok []
  unfolding header_loop find_word index has_prefix
  header_loop-nil zero between = refl
  header_loop-nil (suc fuel) between = refl

  open-wire :
      (text rest : Bytes)
      → open_word e charset ++ (text ++ (b'?' ∷ b'=' ∷ rest))
        ≡ wire charset (encoder_byte e) text rest
  unfolding open_word
  open-wire text rest =
      ap (λ z. b'=' ∷ b'?' ∷ z)
        (append_assoc charset (b'?' ∷ encoder_byte e ∷ b'?' ∷ []) (text ++ (b'?' ∷ b'=' ∷ rest)))

  -- a word and the ones behind it
  open-split :
      (text w : Bytes)
      → open_word e charset ++ ((text ++ (split_word e charset ++ w)) ++ close_word)
        ≡ wire charset
            (encoder_byte e)
            text
            (lead true ++ (open_word e charset ++ (w ++ close_word)))
  unfolding split_word
  open-split text w =
      ap (λ z. open_word e charset ++ z)
        (append_assoc text (split_word e charset ++ w) close_word
          ∙ ap (λ z. text ++ (b'?' ∷ b'=' ∷ b' ' ∷ z))
              (append_assoc (open_word e charset) w close_word))
      ∙ open-wire text (b' ' ∷ (open_word e charset ++ (w ++ close_word)))

  split_word-length : (w : Bytes) → length w < length (split_word e charset ++ w)
  unfolding split_word
  split_word-length w = omega (arith, length-append (open_word e charset) w)

  header_loop-Words :
      (fuel : ℕ) (between : Bool) (w s : Bytes)
      → All NotQuestion charset
      → ((t : Bytes) → convert unicode_lower reader charset t ≡ ok t)
      → Words e charset w s
      → length w < fuel
      → header_loop unicode_lower reader fuel between
          (lead between ++ (open_word e charset ++ (w ++ close_word)))
        ≡ ok s
  header_loop-Words zero between w s hc k h low = absurd (omega arith)
  header_loop-Words (suc fuel) between _ _ hc k (last s hs) low =
      rw
        (
          open-wire (single e s) [],
          header_loop-wire fuel between s [] hc hs (k s),
          header_loop-nil fuel true,
        )
        (ap ok (append-nil s))
  header_loop-Words (suc fuel) between _ _ hc k (more s w t hs h) low =
      rw
        (
          open-split (single e s) w,
          header_loop-wire fuel between s (lead true ++ (open_word e charset ++ (w ++ close_word)))
              hc hs (k s),
          header_loop-Words fuel true w t hc k h (
              omega (
                arith,
                low,
                split_word-length w,
                length-append (single e s) (split_word e charset ++ w),
              )),
        )
        refl

  decode_header-Words :
      (w s : Bytes)
      → All NotQuestion charset
      → ((t : Bytes) → convert unicode_lower reader charset t ≡ ok t)
      → Words e charset w s
      → decode_header unicode_lower reader (open_word e charset ++ (w ++ close_word)) ≡ ok s
  unfolding decode_header index has_prefix open_word
  decode_header-Words w s hc k h =
      let header = open_word e charset ++ (w ++ close_word) in
      rw
        (header_loop-Words (length header) false w s hc k h (
          omega (
            arith,
            length-append (open_word e charset) (w ++ close_word),
            length-append w close_word,
          )))
        refl

convert_utf8 :
    (unicode_lower : ℕ → ℕ) (reader : CharsetReader) (charset : Bytes)
    → equal_fold (codes "utf-8") charset ≡ true
    → (t : Bytes) → convert unicode_lower reader charset t ≡ ok t
unfolding convert
convert_utf8 unicode_lower reader charset h t = rw h refl

-- For every byte string that needs encoding, split into as many words as it takes, in both
-- encodings: where the charset is UTF-8 by name, and with no question mark, `DecodeHeader` gives
-- back what `Encode` was given.
pub decode_header-encode :
    (unicode_lower : ℕ → ℕ) (reader : CharsetReader) (e : WordEncoder) (charset s : Bytes)
    → All NotQuestion charset
    → equal_fold (codes "utf-8") charset ≡ true
    → needs_encoding s ≡ true
    → All IsByte s
    → decode_header unicode_lower reader (encode e charset s) ≡ ok s
unfolding encode encode_word
decode_header-encode unicode_lower reader e charset s hc u n hs = rw n (
    decode_header-Words unicode_lower reader e charset (encode_content e charset s) s hc
      (convert_utf8 unicode_lower reader charset u) (encode_content-Words e charset s hs))
