-- ===== src/EncodedWord/Encode.antt =====
-- encodedword.go: `WordEncoder`. A function that writes to the buffer gives what it appends.
use mime.Base.Bytes
use mime.EncodedWord.QEncoding
use mime.Runes.Strings
use mime.Runes
use mime.Base.{
  ℕ, zero, suc, ◌+◌, ◌-◌, ◌*◌, ◌/◌, List, [], ◌∷◌, ◌++◌, Bool, true, false, not, ◌&&◌, ◌||◌, ltb,
  leb, ◌==◌, if◌then◌else◌, within, length, take, ◌≡◌, refl,
}
use mime.Base.Bytes.{Bytes, codes}
use mime.EncodedWord.Base64
use mime.EncodedWord.QEncoding.{write_q_string}
use mime.Runes.Strings.{equal_fold}
use mime.Runes.{decode_rune, runes}

-- `WordEncoder`, a byte in the source
pub data WordEncoder : Type 0 where
  b_encoding q_encoding : WordEncoder

abbrev pub encoder_byte : WordEncoder → ℕ
encoder_byte b_encoding = b'b'
encoder_byte q_encoding = b'q'

abbrev pub max_encoded_word_len : ℕ
max_encoded_word_len = 75

abbrev pub max_content_len : ℕ
max_content_len = max_encoded_word_len - length (codes "=?UTF-8?") - length (codes "?=")

-- `base64.StdEncoding.DecodedLen(maxContentLen)`
abbrev pub max_base64_len : ℕ
max_base64_len = max_content_len / 4 * 3

abbrev needs_encoding_runes : List ℕ → Bool
needs_encoding_runes [] = false
needs_encoding_runes (r ∷ rs) =
    let rest = needs_encoding_runes rs in
    if (ltb r b' ' || ltb b'~' r) && not (r == b'\t') then true else rest

unfoldable pub needs_encoding : Bytes → Bool
needs_encoding s = needs_encoding_runes (runes s)

unfoldable pub is_utf8 : Bytes → Bool
is_utf8 charset = equal_fold charset (codes "UTF-8")

unfoldable pub open_word : WordEncoder → Bytes → Bytes
open_word e charset = codes "=?" ++ charset ++ b'?' ∷ encoder_byte e ∷ b'?' ∷ []

abbrev pub close_word : Bytes
close_word = codes "?="

unfoldable pub split_word : WordEncoder → Bytes → Bytes
split_word e charset = close_word ++ (b' ' ∷ open_word e charset)

module _ (charset : Bytes) where
  -- The loop of `bEncode`; `piece` is `s[last:i]`.
  unfoldable pub b_encode_loop : ℕ → Bytes → ℕ → Bytes → Bytes
  b_encode_loop current_len piece skip [] = Base64.encode piece
  b_encode_loop current_len piece (suc skip) (b ∷ s) =
      b_encode_loop current_len (piece ++ b ∷ []) skip s
  b_encode_loop current_len piece zero (b ∷ s) =
      let (_, rune_len) = decode_rune (b ∷ s) in
      let same = b_encode_loop (current_len + rune_len) (piece ++ b ∷ []) (rune_len - 1) s in
      let fresh = b_encode_loop rune_len (b ∷ []) (rune_len - 1) s in
      if leb (current_len + rune_len) max_base64_len
      then same
      else Base64.encode piece ++ (split_word b_encoding charset ++ fresh)

  unfoldable pub b_encode : Bytes → Bytes
  b_encode s =
      let split = b_encode_loop 0 [] 0 s in
      if not (is_utf8 charset) || leb ((length s + 2) / 3 * 4) max_content_len
      then Base64.encode s
      else split

  -- `b >= ' ' && b <= '~' && b != '=' && b != '?' && b != '_'`
  abbrev pub is_plain : ℕ → Bool
  is_plain b = within b' ' b'~' b && not (b == b'=') && not (b == b'?') && not (b == b'_')

  -- the loop of `qEncode`
  unfoldable pub q_encode_loop : ℕ → ℕ → Bytes → Bytes
  q_encode_loop current_len skip [] = []
  q_encode_loop current_len (suc skip) (b ∷ s) = q_encode_loop current_len skip s
  q_encode_loop current_len zero (b ∷ s) =
      let (_, width) = decode_rune (b ∷ s) in
      let rune_len = if is_plain b then 1 else width in
      let enc_len = if is_plain b then 1 else 3 * width in
      let written = write_q_string (take rune_len (b ∷ s)) in
      let split = ltb max_content_len (current_len + enc_len) in
      let rest =
        q_encode_loop (if split then enc_len else current_len + enc_len) (rune_len - 1) s in
      (if split then split_word q_encoding charset else []) ++ (written ++ rest)

  unfoldable pub q_encode : Bytes → Bytes
  q_encode s =
      let split = q_encode_loop 0 0 s in if not (is_utf8 charset) then write_q_string s else split

unfoldable pub encode_content : WordEncoder → Bytes → Bytes → Bytes
encode_content b_encoding charset s = b_encode charset s
encode_content q_encoding charset s = q_encode charset s

unfoldable pub encode_word : WordEncoder → Bytes → Bytes → Bytes
encode_word e charset s = open_word e charset ++ (encode_content e charset s ++ close_word)

-- `Encode`
unfoldable pub encode : WordEncoder → Bytes → Bytes → Bytes
encode e charset s = if not (needs_encoding s) then s else encode_word e charset s

-- unfolds what a test of this file computes with
unfoldable pub computes : Unit {0}
unfolding needs_encoding is_utf8 open_word split_word b_encode_loop b_encode q_encode_loop q_encode
    encode_content encode_word encode Bytes.computes Base64.computes QEncoding.computes
    Strings.computes Runes.computes
computes = tt

encode_text :
    (encode q_encoding (codes "utf-8") (0xC3 ∷ 0xA9 ∷ codes "t_e b")
      ≡ codes "=?utf-8?q?=C3=A9t=5Fe_b?=")
    × (encode b_encoding (codes "UTF-8") (0xC3 ∷ 0xA9 ∷ []) ≡ codes "=?UTF-8?b?w6k=?=")
    × (encode q_encoding (codes "utf-8") (codes "a b") ≡ codes "a b")
unfolding computes
encode_text = (refl, refl, refl)
