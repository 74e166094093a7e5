-- ===== src/Runes.antt =====
-- UTF-8 as Go's `unicode/utf8` and `range` over a string read and write it. A loop over the runes
-- of a string recurs on its bytes: the counter `skip` is the number of bytes of the current rune
-- that are still to be passed over.
pub mod Ascii
pub mod Strings
pub mod Lower
pub mod Trim
pub mod Width
use mime.Base.Bytes
use mime.Base.{
  ℕ, zero, suc, ◌+◌, ◌-◌, ◌*◌, ◌/◌, ◌%◌, [], ◌∷◌, ◌≡◌, refl, Option, none, some, List, ltb, leb,
  ◌==◌, if◌then◌else◌, within, arith, Bool, true, false, ◌&&◌, ◌||◌,
}
use mime.Base.Bytes.{Bytes, codes}

-- U+FFFD, for a byte that begins no valid encoding
abbrev pub rune_error : ℕ
rune_error = 0xFFFD

abbrev invalid : ℕ × ℕ
invalid = (rune_error, 1)

abbrev is_continuation : ℕ → Bool
is_continuation = within 0x80 0xBF

abbrev decode_two : ℕ → Bytes → ℕ × ℕ
decode_two a (b ∷ _) = if is_continuation b then ((a - 0xC0) * 64 + (b - 0x80), 2) else invalid
decode_two a [] = invalid

-- The range of the second byte keeps out overlong forms and surrogates.
abbrev second_of_three : ℕ → ℕ → Bool
second_of_three a b =
    if a == 0xE0
    then within 0xA0 0xBF b
    else if a == 0xED
    then within 0x80 0x9F b
    else is_continuation b

abbrev decode_three : ℕ → Bytes → ℕ × ℕ
decode_three a (b ∷ c ∷ _) =
    if second_of_three a b && is_continuation c
    then ((a - 0xE0) * 4096 + (b - 0x80) * 64 + (c - 0x80), 3)
    else invalid
decode_three a _ = invalid

abbrev second_of_four : ℕ → ℕ → Bool
second_of_four a b =
    if a == 0xF0
    then within 0x90 0xBF b
    else if a == 0xF4
    then within 0x80 0x8F b
    else is_continuation b

abbrev decode_four : ℕ → Bytes → ℕ × ℕ
decode_four a (b ∷ c ∷ d ∷ _) =
    if second_of_four a b && (is_continuation c && is_continuation d)
    then ((a - 0xF0) * 262144 + (b - 0x80) * 4096 + (c - 0x80) * 64 + (d - 0x80), 4)
    else invalid
decode_four a _ = invalid

-- `utf8.DecodeRuneInString`: the rune and its width
unfoldable pub decode_rune : Bytes → ℕ × ℕ
decode_rune [] = (rune_error, 0)
decode_rune (a ∷ s) =
    if ltb a 0x80
    then (a, 1)
    else if within 0xC2 0xDF a
    then decode_two a s
    else if within 0xE0 0xEF a
    then decode_three a s
    else if within 0xF0 0xF4 a
    then decode_four a s
    else invalid

-- `buf.WriteRune(r)`: surrogates and what is out of range are written as U+FFFD
unfoldable pub encode_rune : ℕ → Bytes
encode_rune r =
    if ltb r 0x80
    then r ∷ []
    else if ltb r 0x800
    then (0xC0 + r / 64) ∷ (0x80 + r % 64) ∷ []
    else if within 0xD800 0xDFFF r || ltb 0x10FFFF r
    then 0xEF ∷ 0xBF ∷ 0xBD ∷ []
    else if ltb r 0x10000
    then (0xE0 + r / 4096) ∷ (0x80 + r / 64 % 64) ∷ (0x80 + r % 64) ∷ []
    else (0xF0 + r / 262144) ∷ (0x80 + r / 4096 % 64) ∷ (0x80 + r / 64 % 64) ∷ (0x80 + r % 64) ∷ []

-- the runes that `range s` visits
unfoldable pub runes_after : ℕ → Bytes → List ℕ
runes_after skip [] = []
runes_after zero (b ∷ s) = let (r, width) = decode_rune (b ∷ s) in r ∷ runes_after (width - 1) s
runes_after (suc skip) (b ∷ s) = runes_after skip s

abbrev pub runes : Bytes → List ℕ
runes = runes_after 0

-- unfolds what a test of this file computes with
unfoldable pub computes : Unit {0}
unfolding decode_rune encode_rune runes_after Bytes.computes
computes = tt

euro : runes (0xE2 ∷ 0x82 ∷ 0xAC ∷ 0x80 ∷ b'a' ∷ []) ≡ 0x20AC ∷ rune_error ∷ b'a' ∷ []
unfolding computes
euro = refl
