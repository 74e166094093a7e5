-- ===== src/EncodedWord/QRoundTrip.antt =====
-- Q decoding undoes Q encoding.
use mime.Base.{ℕ, ◌<◌, ◌/◌, ◌%◌, [], ◌∷◌, ◌++◌, All, ◌≡◌, refl, ap, ◌∙◌, arith}
use mime.Base.Bytes.{Bytes, IsByte}
use mime.Base.Result.{ok}
use mime.EncodedWord.QEncoding.{
  upper_hex, from_hex, read_hex_byte, write_q_byte, write_q_string, put, hex_after, q_decode_after,
  q_decode,
}

from_hex-upper_hex : (n : ℕ) → n < 16 → from_hex (upper_hex n) ≡ ok n
unfolding from_hex upper_hex
from_hex-upper_hex n h = ground arith

read_hex_byte_upper :
    (b : ℕ) → IsByte b → read_hex_byte (upper_hex (b / 16)) (upper_hex (b % 16)) ≡ ok b
unfolding read_hex_byte
read_hex_byte_upper b h =
    rw (from_hex-upper_hex (b / 16) (omega arith), from_hex-upper_hex (b % 16) (omega arith))
      (ap ok (omega arith))

q_decode_hex :
    (a c : ℕ) (rest : Bytes) {b : ℕ}
    → read_hex_byte a c ≡ ok b
    → q_decode (b'=' ∷ a ∷ c ∷ rest) ≡ put b (q_decode rest)
unfolding q_decode_after hex_after
q_decode_hex a c rest h = rw h

pub q_decode-write_q_byte :
    (b : ℕ) (rest : Bytes) → IsByte b → q_decode (write_q_byte b ++ rest) ≡ put b (q_decode rest)
unfolding write_q_byte q_decode_after
q_decode-write_q_byte b rest h =
    ground
      (arith, q_decode_hex (upper_hex (b / 16)) (upper_hex (b % 16)) rest (read_hex_byte_upper b h))

-- For every byte string: `qDecode` gives back what `writeQString` has written.
pub q_decode-write_q_string : (s : Bytes) → All IsByte s → q_decode (write_q_string s) ≡ ok s
unfolding write_q_string
q_decode-write_q_string [] h = unfold q_decode_after in refl
q_decode-write_q_string (b ∷ s) (hb, h) =
    q_decode-write_q_byte b (write_q_string s) hb ∙ ap (put b) (q_decode-write_q_string s h)
