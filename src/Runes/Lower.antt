-- ===== src/Runes/Lower.antt =====
-- `strings.ToLower` on ASCII text is the map of its letters.
use mime.Base.{ℕ, ◌<◌, [], ◌∷◌, true, false, Bool, All, map, ◌≡◌, refl, arith, ◌==◌, if◌then◌else◌}
use mime.Base.Bytes.{Bytes, IsAscii}
use mime.Runes.Ascii.{decode_rune_ascii, encode_rune_ascii}
use mime.Runes.Strings.{map_runes, lower_ascii, lower_rune, to_lower}

pub lower_ascii_lt : (c : ℕ) → c < 0x80 → lower_ascii c < 0x80
lower_ascii_lt c h = ground arith

pub lower_ascii_idem : (c : ℕ) → lower_ascii (lower_ascii c) ≡ lower_ascii c
lower_ascii_idem c = ground arith

module _ (unicode_lower : ℕ → ℕ) where
  lower_rune_ascii : (c : ℕ) → c < 0x80 → lower_rune unicode_lower c ≡ lower_ascii c
  lower_rune_ascii c h = ground arith

  step :
      (b : ℕ) (changed : Bool) {kept new end : Bytes}
      → kept ≡ end
      → new ≡ end
      → (if changed
          then lower_ascii b ∷ new
          else if lower_ascii b == b
          then b ∷ kept
          else lower_ascii b ∷ new)
        ≡ lower_ascii b ∷ end
  step b changed p q = ground arith

  map_runes_ascii :
      (s : Bytes) (changed : Bool)
      → All IsAscii s
      → map_runes (lower_rune unicode_lower) changed 0 s ≡ map lower_ascii s
  unfolding map_runes
  map_runes_ascii [] changed h = refl
  map_runes_ascii (b ∷ s) changed (hb, h) =
      let e = encode_rune_ascii (lower_ascii b) (lower_ascii_lt b hb) in
      let kept = map_runes_ascii s false h in
      let new = map_runes_ascii s true h in
      rw (decode_rune_ascii b s hb, lower_rune_ascii b hb, e) (step b changed kept new)

  pub to_lower_ascii : (s : Bytes) → All IsAscii s → to_lower unicode_lower s ≡ map lower_ascii s
  to_lower_ascii s h = unfold to_lower in map_runes_ascii s false h

pub map-lower_ascii : (s : Bytes) → All IsAscii s → All IsAscii (map lower_ascii s)
map-lower_ascii [] h = tt
map-lower_ascii (b ∷ s) (hb, h) = (lower_ascii_lt b hb, map-lower_ascii s h)

pub map_lower_idem : (s : Bytes) → map lower_ascii (map lower_ascii s) ≡ map lower_ascii s
map_lower_idem [] = refl
map_lower_idem (b ∷ s) = cc (lower_ascii_idem b, map_lower_idem s)
