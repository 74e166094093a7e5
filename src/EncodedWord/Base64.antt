-- ===== src/EncodedWord/Base64.antt =====
-- `base64.StdEncoding`, as far as encodedword.go uses it.
use mime.Base.Bytes
use mime.Base.{
  ℕ, ◌+◌, ◌-◌, ◌*◌, ◌/◌, ◌%◌, [], ◌∷◌, ◌++◌, ◌||◌, Option, none, some, ltb, ◌==◌, if◌then◌else◌,
  within, ◌≡◌, refl,
}
use mathlib.Core.Option.{map}
use mime.Base.Bytes.{Bytes, codes}

unfoldable pub digit : ℕ → ℕ
digit n =
    if ltb n 26
    then b'A' + n
    else if ltb n 52
    then b'a' + (n - 26)
    else if ltb n 62
    then b'0' + (n - 52)
    else if n == 62
    then b'+'
    else b'/'

-- `decodeMap`
unfoldable pub digit_value : ℕ → Option ℕ
digit_value c =
    if within b'A' b'Z' c
    then some (c - b'A')
    else if within b'a' b'z' c
    then some (c - b'a' + 26)
    else if within b'0' b'9' c
    then some (c - b'0' + 52)
    else if c == b'+'
    then some 62
    else if c == b'/'
    then some 63
    else none

-- `EncodeToString`
unfoldable pub encode : Bytes → Bytes
encode [] = []
encode (a ∷ []) = digit (a / 4) ∷ digit (a % 4 * 16) ∷ b'=' ∷ b'=' ∷ []
encode (a ∷ b ∷ []) = digit (a / 4) ∷ digit (a % 4 * 16 + b / 16) ∷ digit (b % 16 * 4) ∷ b'=' ∷ []
encode (a ∷ b ∷ c ∷ s) =
    digit (a / 4)
    ∷ digit (a % 4 * 16 + b / 16)
    ∷ digit (b % 16 * 4 + c / 64)
    ∷ digit (c % 64)
    ∷ encode s

infixl 5 ◌>>=◌
abbrev ◌>>=◌ : {A B : Type 0} → Option A → (A → Option B) → Option B
none >>= f = none
some a >>= f = f a

-- one quantum with no padding
unfoldable pub decode_three : ℕ → ℕ → ℕ → ℕ → Option Bytes
decode_three a b c d = do
  w ← digit_value a
  x ← digit_value b
  y ← digit_value c
  z ← digit_value d
  some ((w * 4 + x / 16) ∷ (x % 16 * 16 + y / 4) ∷ (y % 4 * 64 + z) ∷ [])

-- the last quantum, with padding
unfoldable pub decode_padded : ℕ → ℕ → ℕ → Option Bytes
decode_padded a b c = do
  w ← digit_value a
  x ← digit_value b
  let full = map (λ y. (w * 4 + x / 16) ∷ (x % 16 * 16 + y / 4) ∷ []) (digit_value c)
  if c == b'=' then some ((w * 4 + x / 16) ∷ []) else full

-- the loop over the quanta, with no newline left
unfoldable pub decode_quanta : Bytes → Option Bytes
decode_quanta [] = some []
decode_quanta (a ∷ b ∷ c ∷ d ∷ []) = if d == b'=' then decode_padded a b c else decode_three a b c d
decode_quanta (a ∷ b ∷ c ∷ d ∷ s) = do
  front ← decode_three a b c d
  rest ← decode_quanta s
  some (front ++ rest)
decode_quanta _ = none

-- `\r` and `\n` are skipped between digits
unfoldable pub skip_newlines : Bytes → Bytes
skip_newlines [] = []
skip_newlines (c ∷ s) =
    let rest = skip_newlines s in if c == b'\n' || c == b'\r' then rest else c ∷ rest

-- `DecodeString`; `none` is its error
unfoldable pub decode : Bytes → Option Bytes
decode s = decode_quanta (skip_newlines s)

-- unfolds what a test of this file computes with
unfoldable pub computes : Unit {0}
unfolding digit digit_value encode decode_three decode_padded decode_quanta skip_newlines decode
    Bytes.computes
computes = tt

base64_text :
    (encode (codes "Hello!!") ≡ codes "SGVsbG8hIQ==")
    × (decode (codes "SGVs\nbG8hIQ==") ≡ some (codes "Hello!!"))
    × (decode (codes "SGVsbG8=bG8=") ≡ none)
    × (decode (codes "SGV") ≡ none)
unfolding computes
base64_text = (refl, refl, refl, refl)
