-- ===== src/Runes/Ascii.antt =====
-- Decoding at a byte below 0x80, and at any other byte.
use mime.Base.{ℕ, ◌≤◌, ◌<◌, [], ◌∷◌, ◌≡◌, arith}
use mime.Base.Bytes.{Bytes}
use mime.Runes.{decode_rune, encode_rune}

pub decode_rune_ascii : (b : ℕ) (s : Bytes) → b < 0x80 → decode_rune (b ∷ s) ≡ (b, 1)
unfolding decode_rune
decode_rune_ascii b s h = ground arith

pub encode_rune_ascii : (b : ℕ) → b < 0x80 → encode_rune b ≡ b ∷ []
unfolding encode_rune
encode_rune_ascii b h = ground arith

-- A byte from 0x80 on begins no ASCII rune.
pub decode_rune_high : (b : ℕ) (s : Bytes) → 0x80 ≤ b → 0x80 ≤ (decode_rune (b ∷ s)).0
unfolding decode_rune
decode_rune_high b [] h = ground arith
decode_rune_high b (c ∷ []) h = ground arith
decode_rune_high b (c ∷ d ∷ []) h = ground arith
decode_rune_high b (c ∷ d ∷ e ∷ s) h = ground arith
