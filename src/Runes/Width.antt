-- ===== src/Runes/Width.antt =====
-- The width of a rune.
use mime.Base.{ℕ, ◌≤◌, [], ◌∷◌, length, arith}
use mime.Base.Bytes.{Bytes}
use mime.Runes.{decode_rune}

-- It is at least one byte, and no more than there are.
pub decode_rune-width :
    (b : ℕ) (s : Bytes) → (1 ≤ (decode_rune (b ∷ s)).1) × ((decode_rune (b ∷ s)).1 ≤ length (b ∷ s))
unfolding decode_rune
decode_rune-width b [] = ground arith
decode_rune-width b (c ∷ []) = ground arith
decode_rune-width b (c ∷ d ∷ []) = ground arith
decode_rune-width b (c ∷ d ∷ e ∷ s) = ground arith
