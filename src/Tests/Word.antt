-- ===== src/Tests/Word.antt =====
-- encodedword.go
use mime.Runes.Strings.{equal_fold}
use mime.Base.{◌++◌, true, false, ltb, length, ◌∷◌, All, ◌≡◌, inr, refl, none, arith}
use mime.Base.Bytes.{Bytes, codes, IsByte}
use mime.Base.Result.{ok}
use mime.EncodedWord.Decode.{decode_word, convert}
use mime.EncodedWord.Encode
use mime.EncodedWord.Header.{decode_header, header_loop}
use mime.EncodedWord.WordLength.{Bounded, encode_content-Bounded}
use mime.EncodedWord.HeaderFuel.{header_loop_enough}
use mime.EncodedWord.HeaderRoundTrip.{decode_header-encode}
use mime.EncodedWord.Encode.{
  b_encoding, q_encoding, encode_word, encode, needs_encoding, is_utf8, encode_content,
  max_content_len,
}
use mime.EncodedWord.WordRoundTrip.{NotQuestion, decode_word-encode_word}
use mime.EncodedWord.QEncoding.{write_q_string, q_decode}
use mime.EncodedWord.QRoundTrip.{q_decode-write_q_string}

abbrev word_text : Bytes
word_text = 0xC3 ∷ 0xA9 ∷ codes "t_ e?"

word_text-IsByte : All IsByte word_text
word_text-IsByte = omega arith

q_decode-write_q_string_example : q_decode (write_q_string word_text) ≡ ok word_text
q_decode-write_q_string_example = q_decode-write_q_string word_text word_text-IsByte

abbrev utf8_name : Bytes
utf8_name = codes "utf-8"

utf8_name-NotQuestion : All NotQuestion utf8_name
utf8_name-NotQuestion = (refl, (refl, (refl, (refl, (refl, tt)))))

decode_word-encode_word_example :
    decode_word (λ r. r) none (encode_word b_encoding utf8_name word_text)
    ≡ convert (λ r. r) none utf8_name word_text
decode_word-encode_word_example =
    decode_word-encode_word (λ r. r) none b_encoding utf8_name word_text utf8_name-NotQuestion
      (inr (omega arith)) word_text-IsByte

-- a text that takes more than one word
abbrev long_text : Bytes
long_text =
    word_text ++ word_text ++ word_text ++ word_text ++ word_text ++ word_text ++ word_text
    ++ word_text ++ word_text ++ word_text ++ word_text

long_text-needs : needs_encoding long_text ≡ true
unfolding Encode.computes
long_text-needs = refl

utf8_name-folds : equal_fold (codes "utf-8") utf8_name ≡ true
unfolding Encode.computes
utf8_name-folds = refl

long_text_splits : ltb 150 (length (encode q_encoding utf8_name long_text)) ≡ true
unfolding Encode.computes
long_text_splits = refl

decode_header-encode_example :
    decode_header (λ r. r) none (encode q_encoding utf8_name long_text) ≡ ok long_text
decode_header-encode_example =
    decode_header-encode (λ r. r) none q_encoding utf8_name long_text utf8_name-NotQuestion
      utf8_name-folds long_text-needs (omega arith)

abbrev short_header : Bytes
short_header = codes "a =?utf-8?q?b_?= =?x"

header_loop_example :
    header_loop (λ r. r) none 20 false short_header
    ≡ header_loop (λ r. r) none 1000 false short_header
header_loop_example =
    header_loop_enough (λ r. r) none 20 1000 false short_header (omega arith) (omega arith)

utf8_name-is_utf8 : is_utf8 utf8_name ≡ true
unfolding Encode.computes
utf8_name-is_utf8 = refl

encode_content-Bounded_example :
    Bounded b_encoding utf8_name max_content_len (encode_content b_encoding utf8_name long_text)
encode_content-Bounded_example =
    encode_content-Bounded b_encoding utf8_name long_text utf8_name-is_utf8

-- A word may be two bytes longer than `max_encoded_word_len`, as `max_content_len` leaves no room
-- for the encoding and the question mark behind it.
overlong_word :
    length (
      encode q_encoding utf8_name
        (0xC3 ∷ 0xA9 ∷ codes "aaaaaaaaaaaaaaaaaaaaaaaaaaaaaaaaaaaaaaaaaaaaaaaaaaaaaaaaaaa"))
    ≡ 77
unfolding Encode.computes
overlong_word = refl
