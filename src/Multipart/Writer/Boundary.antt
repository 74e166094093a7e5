-- ===== src/Multipart/Writer/Boundary.antt =====
-- multipart/writer.go: which boundaries `SetBoundary` takes.
use mime.Base.{
  ℕ, ◌≤◌, ◌<◌, [], ◌∷◌, true, false, ◌||◌, none, All, ltb, length, ◌≡◌, ◌↔◌, ◌≢◌, Option-cases, ◌⊎◌,
  refl, inl, inr, arith, Bool-cases,
}
use mime.Base.Bytes.{Bytes}
use mime.Multipart.Writer.{Writer, is_boundary_char, all_boundary_chars, set_boundary}
use mime.Runes.Ascii.{decode_rune_ascii, decode_rune_high}
use mime.Runes.{decode_rune, runes, runes_after}

abbrev pub IsBoundaryChar : ℕ → Type 0
IsBoundaryChar b = is_boundary_char b ≡ true

boundary_char_lt : (b : ℕ) → IsBoundaryChar b → b < 0x80
unfolding is_boundary_char
boundary_char_lt b h = ground arith

high_rune : (b : ℕ) (s : Bytes) → 0x80 ≤ b → is_boundary_char (decode_rune (b ∷ s)).0 ≡ false
high_rune b s h = elim (Bool-cases (is_boundary_char (decode_rune (b ∷ s)).0)) [
  | inl e ↦ absurd (omega (arith, decode_rune_high b s h, boundary_char_lt _ e))
  | inr e ↦ e
]

-- The test on runes is one on bytes.
All-chars_iff : (s : Bytes) → (all_boundary_chars (runes s) ≡ true) ↔ All IsBoundaryChar s
unfolding runes_after
All-chars_iff [] = (λ e. tt, λ h. refl)
All-chars_iff (b ∷ s) = elim (Bool-cases (ltb b 0x80)) [
  | inl low ↦ rw (decode_rune_ascii b s (ground arith)) (ground (arith, All-chars_iff s))
  | inr high ↦ (
    λ e. cc (rw (high_rune b s (high_le b high)) at e),
    λ h. absurd (omega (arith, boundary_char_lt b h.0, high_le b high)),
  )
]
  where
    high_le : (b : ℕ) → ltb b 0x80 ≡ false → 0x80 ≤ b
    high_le b h = ground arith

-- `SetBoundary` gives no error exactly when the writer has no last part, which is so before its first
-- `CreatePart` and again after a `Close`, the boundary has 1 to 69 bytes, and all of these are
-- letters, digits or among `'()+_,-./:=?`. With an error, the writer stays as it is; else the boundary
-- alone is new.
pub set_boundary_iff :
    (boundary : Bytes) (w : Writer)
    → (((set_boundary boundary w).1 ≡ none) ↔ (
        (w.lastpart ≡ none)
        × (1 ≤ length boundary)
        × (length boundary ≤ 69)
        × All IsBoundaryChar boundary))
      × ((((set_boundary boundary w).0 ≡ w) × ((set_boundary boundary w).1 ≢ none))
          ⊎ (set_boundary boundary w ≡ (record w { boundary = boundary }, none)))
unfolding set_boundary
set_boundary_iff boundary w =
    let chars = All-chars_iff boundary in
    elim (Option-cases w.lastpart) [
      | inl n ↦ elim (Bool-cases (ltb (length boundary) 1 || ltb 69 (length boundary))) [
        | inl l ↦ ground (arith, chars)
        | inr l ↦ elim (Bool-cases (all_boundary_chars (runes boundary))) [
          | inl a ↦ ground (arith, chars)
          | inr a ↦ ground (arith, chars)
        ]
      ]
      | inr (i, e) ↦ ground (arith, chars)
    ]
