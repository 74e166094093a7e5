-- ===== src/Runes/Trim.antt =====
-- Trimming leaves a text alone whose ends are ASCII and no space.
use mathlib.Core.List.{reverse-reverse}
use mime.Base.{ℕ, ◌<◌, [], ◌∷◌, true, false, All, All-reverse, reverse, ◌≡◌, refl, ap, ◌∙◌, arith}
use mime.Base.Bytes.{Bytes}
use mime.Runes.Ascii.{decode_rune_ascii}
use mime.Runes.Strings.{
  is_space, trim_left, trim_left_after, decode_last_rune, trim_last_after, trim_right_func,
  trim_space,
}

abbrev pub IsDense : ℕ → Type 0
IsDense c = (c < 0x80) × (is_space c ≡ false)

pub trim_left_dense : (c : ℕ) (s : Bytes) → IsDense c → trim_left (c ∷ s) ≡ c ∷ s
unfolding trim_left_after
trim_left_dense c s (h, k) = rw (decode_rune_ascii c s h, k)

pub trim_left_blank :
    (c : ℕ) (s : Bytes) → c < 0x80 → is_space c ≡ true → trim_left (c ∷ s) ≡ trim_left s
unfolding trim_left_after
trim_left_blank c s h k = rw (decode_rune_ascii c s h, k)

trim_last_dense : (c : ℕ) (s : Bytes) → IsDense c → trim_last_after is_space 0 (c ∷ s) ≡ c ∷ s
unfolding trim_last_after decode_last_rune
trim_last_dense c s (h, k) = ground arith

trim_last-All : (s : Bytes) → All IsDense s → trim_last_after is_space 0 s ≡ s
trim_last-All [] h = unfold trim_last_after in refl
trim_last-All (c ∷ s) (hc, h) = trim_last_dense c s hc

trim_left-All : (s : Bytes) → All IsDense s → trim_left s ≡ s
trim_left-All [] h = unfold trim_left_after in refl
trim_left-All (c ∷ s) (hc, h) = trim_left_dense c s hc

pub trim_space-All : (s : Bytes) → All IsDense s → trim_space s ≡ s
unfolding trim_space trim_right_func
trim_space-All s h =
    ap (λ t. reverse (trim_last_after is_space 0 (reverse t))) (trim_left-All s h)
    ∙ ap reverse (trim_last-All (reverse s) (All-reverse IsDense s h))
    ∙ reverse-reverse s
