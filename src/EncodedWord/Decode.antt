-- ===== src/EncodedWord/Decode.antt =====
-- encodedword.go: `WordDecoder.Decode`, `decode` and `convert`.
use mime.Base.Bytes
use mime.EncodedWord.QEncoding
use mime.Runes.Strings
use mime.Runes
use mime.Base.{
  ℕ, ◌+◌, ◌-◌, [], ◌∷◌, ◌++◌, not, ◌||◌, Option, none, some, leb, ◌==◌, if◌then◌else◌, length, take,
  drop, get_elem?, ◌≡◌, refl,
}
use mime.Base.Bytes.{Bytes, codes, has_prefix, has_suffix, index_byte}
use mime.Base.Result.{Result, ok, err, ◌>>=◌}
use mime.EncodedWord.Base64
use mime.EncodedWord.QEncoding.{
  WordError, invalid_word, corrupt_base64, unhandled_charset, index_panic, q_decode,
}
use mime.Runes.Strings.{equal_fold, to_lower}
use mime.Runes.{encode_rune, rune_error}

-- `CharsetReader`, if it is not nil: from the charset in lower case and the content to what the
-- reader that it makes yields up to its end, or to an error of the function or of the reader.
abbrev pub CharsetReader : Type 0
CharsetReader = Option (Bytes → Bytes → Result WordError Bytes)

abbrev of_base64 : Option Bytes → Result WordError Bytes
of_base64 none = err corrupt_base64
of_base64 (some content) = ok content

-- `decode`
unfoldable pub decode : ℕ → Bytes → Result WordError Bytes
decode encoding text =
    if encoding == b'B' || encoding == b'b'
    then of_base64 (Base64.decode text)
    else if encoding == b'Q' || encoding == b'q'
    then q_decode text
    else err invalid_word

-- the loop over the content of an iso-8859-1 word
unfoldable pub latin1_to_utf8 : Bytes → Bytes
latin1_to_utf8 [] = []
latin1_to_utf8 (c ∷ s) = encode_rune c ++ latin1_to_utf8 s

-- the loop over the content of a us-ascii word
unfoldable pub ascii_to_utf8 : Bytes → Bytes
ascii_to_utf8 [] = []
ascii_to_utf8 (c ∷ s) = (if leb 0x80 c then encode_rune rune_error else c ∷ []) ++ ascii_to_utf8 s

-- `strings.Count(s, "?")`
unfoldable pub count_questions : Bytes → ℕ
count_questions [] = 0
count_questions (c ∷ s) = (if c == b'?' then 1 else 0) + count_questions s

-- the default case of `convert`
abbrev read_charset : CharsetReader → Bytes → Bytes → Bytes → Result WordError Bytes
read_charset none charset lower content = err (unhandled_charset charset)
read_charset (some reader) charset lower content = reader lower content

module _ (unicode_lower : ℕ → ℕ) (charset_reader : CharsetReader) where
  -- `convert`: what it appends to the buffer
  unfoldable pub convert : Bytes → Bytes → Result WordError Bytes
  convert charset content =
      let read = read_charset charset_reader charset (to_lower unicode_lower charset) content in
      if equal_fold (codes "utf-8") charset
      then ok content
      else if equal_fold (codes "iso-8859-1") charset
      then ok (latin1_to_utf8 content)
      else if equal_fold (codes "us-ascii") charset
      then ok (ascii_to_utf8 content)
      else read

  -- The part of `Decode` behind its first test; `word` has lost its `=?` and `?=`.
  unfoldable pub decode_inner : Bytes → Result WordError Bytes
  decode_inner word = elim (index_byte word b'?') [
    | none ↦ err index_panic
    | some split ↦ elim (get_elem? word (split + 2)) [
      | none ↦ err index_panic
      | some c ↦ elim (get_elem? word (split + 1)) [
        | none ↦ err index_panic
        | some encoding ↦
            let content = decode encoding (drop (split + 3) word) in
            let converted = content >>= convert (take split word) in
            if not (c == b'?') then err invalid_word else converted
      ]
    ]
  ]

  -- `Decode`
  unfoldable pub decode_word : Bytes → Result WordError Bytes
  decode_word word =
      let inner = decode_inner (take (length word - 4) (drop 2 word)) in
      if not (has_prefix word (codes "=?"))
        || not (has_suffix word (codes "?="))
        || not (count_questions word == 4)
      then err invalid_word
      else inner

-- unfolds what a test of this file computes with
unfoldable pub computes : Unit {0}
unfolding decode latin1_to_utf8 ascii_to_utf8 count_questions convert decode_inner decode_word
    Bytes.computes Base64.computes QEncoding.computes Strings.computes Runes.computes
computes = tt

decode_word_text :
    (decode_word (λ r. r) none (codes "=?UTF-8?Q?=C2=A1Hola!?=") ≡ ok (0xC2 ∷ 0xA1 ∷ codes "Hola!"))
    × (decode_word (λ r. r) none (codes "=?iso-8859-1?b?6Q==?=") ≡ ok (0xC3 ∷ 0xA9 ∷ []))
    × (decode_word (λ r. r) none (codes "=?UTF-8?A?Test?=") ≡ err invalid_word)
    × (decode_word (λ r. r) none (codes "=????=") ≡ err index_panic)
unfolding computes
decode_word_text = (refl, refl, refl, refl)
