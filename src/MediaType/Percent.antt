-- ===== src/MediaType/Percent.antt =====
-- mediatype.go: percent escapes and the charset prefix of RFC 2231.
use mime.Base.Bytes
use mime.Runes.Strings
use mime.Base.{
  ℕ, zero, suc, ◌+◌, ◌-◌, ◌*◌, ◌%◌, [], ◌∷◌, ◌++◌, Bool, true, false, not, ◌&&◌, Option, none, some,
  ◌==◌, if◌then◌else◌, within, take, drop, ◌≡◌, refl,
}
use mime.Base.Bytes.{Bytes, codes, equal, index_byte}
use mime.Base.Result.{Result, ok, err}
use mime.Runes.Strings.{to_lower}

unfoldable pub is_hex : ℕ → Bool
is_hex c =
    if within b'0' b'9' c
    then true
    else if within b'a' b'f' c
    then true
    else if within b'A' b'F' c
    then true
    else false

-- on bytes; no subtraction wraps
unfoldable pub unhex : ℕ → ℕ
unhex c =
    if within b'0' b'9' c
    then c - b'0'
    else if within b'a' b'f' c
    then c - b'a' + 10
    else if within b'A' b'F' c
    then c - b'A' + 10
    else 0

-- the two bytes behind a `%` are there, and hexadecimal
abbrev pub two_hex : Bytes → Bool
two_hex (a ∷ b ∷ _) = is_hex a && is_hex b
two_hex _ = false

-- `unhex(a)<<4 | unhex(b)` in a byte: the shift leaves the low four bits free
abbrev pub hex_byte : Bytes → ℕ
hex_byte (a ∷ b ∷ _) = unhex a * 16 % 256 + unhex b
hex_byte _ = 0

abbrev count_hex : Result Bytes ℕ → Result Bytes ℕ
count_hex (ok n) = ok (suc n)
count_hex (err e) = err e

-- The first loop of `percentHexUnescape`: the number of `%`, or the text that its error quotes.
unfoldable pub count_percents : ℕ → Bytes → Result Bytes ℕ
count_percents skip [] = ok 0
count_percents (suc skip) (c ∷ s) = count_percents skip s
count_percents zero (c ∷ s) =
    let plain = count_percents 0 s in
    let behind = count_hex (count_percents 2 s) in
    if not (c == b'%') then plain else if two_hex s then behind else err (take 3 (c ∷ s))

-- The second loop, which fills `t`.
unfoldable pub fill_unescaped : ℕ → Bytes → Bytes
fill_unescaped skip [] = []
fill_unescaped (suc skip) (c ∷ s) = fill_unescaped skip s
fill_unescaped zero (c ∷ s) =
    let plain = c ∷ fill_unescaped 0 s in
    let behind = hex_byte s ∷ fill_unescaped 2 s in if c == b'%' then behind else plain

unfoldable pub percent_hex_unescape : Bytes → Result Bytes Bytes
percent_hex_unescape s = elim (count_percents 0 s) [
  | err bogus ↦ err bogus
  | ok zero ↦ ok s
  | ok (suc _) ↦ ok (fill_unescaped 0 s)
]

-- `v, _ := percentHexUnescape(s)`: the value is empty beside an error
abbrev pub unescaped_or_empty : Result Bytes Bytes → Bytes
unescaped_or_empty (ok v) = v
unescaped_or_empty (err _) = []

-- `strings.SplitN(v, "'", 3)`, if that has three parts
unfoldable pub split_charset : Bytes → Option (Bytes × Bytes × Bytes)
split_charset v = elim (index_byte v b'\'') [
  | none ↦ none
  | some i ↦
      let rest = drop (suc i) v in
      elim (index_byte rest b'\'') [
        | none ↦ none
        | some j ↦ some (take i v, take j rest, drop (suc j) rest)
      ]
]

unfoldable pub decode_2231_enc : (ℕ → ℕ) → Bytes → Bytes
decode_2231_enc unicode_lower v = elim (split_charset v) [
  | none ↦ []
  | some (name, lang, text) ↦
      let charset = to_lower unicode_lower name in
      let decoded = unescaped_or_empty (percent_hex_unescape text) in
      if not (equal charset (codes "us-ascii")) && not (equal charset (codes "utf-8"))
      then []
      else decoded
]

-- unfolds what a test of this file computes with
unfoldable pub computes : Unit {0}
unfolding is_hex unhex count_percents fill_unescaped percent_hex_unescape split_charset
    decode_2231_enc Bytes.computes Strings.computes
computes = tt

percent_hex_unescape_text :
    (percent_hex_unescape (codes "a%20b%e2%82") ≡ ok (codes "a b" ++ 0xE2 ∷ 0x82 ∷ []))
    × (percent_hex_unescape (codes "a%2") ≡ err (codes "%2"))
    × (percent_hex_unescape (codes "%zzzz") ≡ err (codes "%zz"))
unfolding computes
percent_hex_unescape_text = (refl, refl, refl)

decode_2231_enc_text :
    (decode_2231_enc (λ r. r) (codes "US-ASCII'en'it%27s'") ≡ codes "it's'")
    × (decode_2231_enc (λ r. r) (codes "latin1''x") ≡ [])
    × (decode_2231_enc (λ r. r) (codes "utf-8'x") ≡ [])
unfolding computes
decode_2231_enc_text = (refl, refl, refl)
