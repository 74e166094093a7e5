-- ===== src/Grammar.antt =====
-- grammer.go: the token characters of RFC 2045.
pub mod Tokens
use mime.Base.Bytes
use mime.Runes.Strings
use mime.Base.{ℕ, [], Bool, true, false, not, ◌&&◌, none, some, ltb, ◌∷◌}
use mime.Base.Bytes.{Bytes, codes, index_byte}
use mime.Runes.Strings.{index_func, index_func_after}

abbrev t_specials : Bytes
t_specials = codes "()<>@,;:\\\"/[]?="

-- `strings.IndexRune(specials, r) != -1`
unfoldable pub is_t_special : ℕ → Bool
is_t_special r = elim (index_byte t_specials r) [ none ↦ false | some _ ↦ true ]

unfoldable pub is_token_char : ℕ → Bool
is_token_char r = ltb 0x20 r && ltb r 0x7F && not (is_t_special r)

-- `isNotTokenChar`, of mediatype.go
unfoldable pub is_not_token_char : ℕ → Bool
is_not_token_char r = not (is_token_char r)

unfoldable pub is_token : Bytes → Bool
is_token [] = false
is_token (b ∷ s) = elim (index_func is_not_token_char (b ∷ s)) [ none ↦ true | some _ ↦ false ]

-- unfolds what a test of this file computes with
unfoldable pub computes : Unit {0}
unfolding is_t_special is_token_char is_not_token_char is_token Bytes.computes Strings.computes
computes = tt
