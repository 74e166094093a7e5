-- ===== src/EncodedWord/QEncoding.antt =====
-- encodedword.go: `writeQString`, `qDecode` and the hexadecimal digits.
use mime.Base.Bytes
use mime.Base.{
  ℕ, zero, suc, ◌+◌, ◌-◌, ◌*◌, ◌/◌, ◌%◌, [], ◌∷◌, ◌++◌, not, ◌&&◌, ◌||◌, ltb, ◌==◌, if◌then◌else◌,
  within, ◌≡◌, refl,
}
use mime.Base.Bytes.{Bytes, codes}
use mime.Base.Result.{Result, ok, err, ◌>>=◌}

-- The errors of this file; `index_panic` is no error value but the panic of an index that is out
-- of range, and `reader_error` is what a `CharsetReader` returns.
pub data WordError : Type 0 where
  invalid_word : WordError
  invalid_hex : ℕ → WordError
  corrupt_base64 : WordError
  unhandled_charset : Bytes → WordError
  reader_error : ℕ → WordError
  index_panic : WordError

-- `upperhex[n]`
unfoldable pub upper_hex : ℕ → ℕ
upper_hex n = if ltb n 10 then b'0' + n else b'A' + (n - 10)

unfoldable pub from_hex : ℕ → Result WordError ℕ
from_hex b =
    if within b'0' b'9' b
    then ok (b - b'0')
    else if within b'A' b'F' b
    then ok (b - b'A' + 10)
    else if within b'a' b'f' b
    then ok (b - b'a' + 10)
    else err (invalid_hex b)

-- `hb<<4 | lb` in a byte
unfoldable pub read_hex_byte : ℕ → ℕ → Result WordError ℕ
read_hex_byte a b = do hb ← from_hex a; lb ← from_hex b; ok (hb * 16 % 256 + lb)

-- one round of `writeQString`
unfoldable pub write_q_byte : ℕ → Bytes
write_q_byte b =
    if b == b' '
    then b'_' ∷ []
    else if within b'!' b'~' b && not (b == b'=') && not (b == b'?') && not (b == b'_')
    then b ∷ []
    else b'=' ∷ upper_hex (b / 16) ∷ upper_hex (b % 16) ∷ []

unfoldable pub write_q_string : Bytes → Bytes
write_q_string [] = []
write_q_string (b ∷ s) = write_q_byte b ++ write_q_string s

-- `dec[n] = b` and the rounds that follow
abbrev pub put : ℕ → Result WordError Bytes → Result WordError Bytes
put b (ok rest) = ok (b ∷ rest)
put b (err e) = err e

-- the two bytes behind a `=`
unfoldable pub hex_after : Bytes → Result WordError ℕ
hex_after (a ∷ b ∷ _) = read_hex_byte a b
hex_after _ = err invalid_word

abbrev put_hex : Result WordError ℕ → Result WordError Bytes → Result WordError Bytes
put_hex (ok b) rest = put b rest
put_hex (err e) rest = err e

-- `qDecode`; `skip` counts the bytes of an escape that are still to be passed over
unfoldable pub q_decode_after : ℕ → Bytes → Result WordError Bytes
q_decode_after skip [] = ok []
q_decode_after (suc skip) (c ∷ s) = q_decode_after skip s
q_decode_after zero (c ∷ s) =
    let next = q_decode_after 0 s in
    let behind = q_decode_after 2 s in
    if c == b'_'
    then put b' ' next
    else if c == b'='
    then put_hex (hex_after s) behind
    else if within b' ' b'~' c || c == b'\n' || c == b'\r' || c == b'\t'
    then put c next
    else err invalid_word

abbrev pub q_decode : Bytes → Result WordError Bytes
q_decode = q_decode_after 0

-- unfolds what a test of this file computes with
unfoldable pub computes : Unit {0}
unfolding upper_hex from_hex read_hex_byte write_q_byte write_q_string hex_after q_decode_after
    Bytes.computes
computes = tt

q_text :
    (write_q_string (codes "a_b c" ++ 0xE9 ∷ []) ≡ codes "a=5Fb_c=E9")
    × (q_decode (codes "a=5fb_c=E9") ≡ ok (codes "a_b c" ++ 0xE9 ∷ []))
    × (q_decode (codes "a=5") ≡ err invalid_word)
    × (q_decode (codes "a=5G") ≡ err (invalid_hex b'G'))
unfolding computes
q_text = (refl, refl, refl, refl)
