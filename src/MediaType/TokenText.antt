-- ===== src/MediaType/TokenText.antt =====
-- Token characters in lower case, and as the ends of a text.
use mime.Base.{ℕ, [], ◌∷◌, true, All, All-mono, map, ◌≡◌, refl, arith}
use mime.Base.Bytes.{Bytes, IsAscii, index_byte}
use mime.Base.Table.{every_under, every_under-implies, implies}
use mime.Grammar.Tokens.{IsTokenChar, token_char_lt}
use mime.Grammar.{is_t_special, is_token_char}
use mime.Runes.Strings.{is_space, lower_ascii}
use mime.Runes.Trim.{IsDense}

pub token_char-IsAscii : (c : ℕ) → IsTokenChar c → IsAscii c
token_char-IsAscii c h = omega (arith, token_char_lt c h)

pub token_char-IsDense : (c : ℕ) → IsTokenChar c → IsDense c
unfolding is_token_char is_space
token_char-IsDense c h = ground arith

lower_table :
    every_under (λ c. implies (is_token_char c) (is_token_char (lower_ascii c))) 0x7F ≡ true
unfolding every_under is_token_char is_t_special index_byte
lower_table = refl

pub lower-IsTokenChar : (c : ℕ) → IsTokenChar c → IsTokenChar (lower_ascii c)
lower-IsTokenChar c h =
    every_under-implies is_token_char (λ x. is_token_char (lower_ascii x)) 0x7F lower_table c
      (token_char_lt c h) h

pub lower_token : (s : Bytes) → All IsTokenChar s → All IsTokenChar (map lower_ascii s)
lower_token [] h = tt
lower_token (c ∷ s) (hc, h) = (lower-IsTokenChar c hc, lower_token s h)

pub token-IsAscii : (s : Bytes) → All IsTokenChar s → All IsAscii s
token-IsAscii = All-mono IsTokenChar IsAscii token_char-IsAscii

pub token-IsDense : (s : Bytes) → All IsTokenChar s → All IsDense s
token-IsDense = All-mono IsTokenChar IsDense token_char-IsDense
