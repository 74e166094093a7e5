-- ===== src/MediaType/Quoted.antt =====
-- `FormatMediaType` writes a value that is no token between quotes, and `consumeValue` reads it
-- back.
use mime.Base.{
  ℕ, ◌<◌, [], ◌∷◌, ◌++◌, true, false, Bool, some, All, ◌≡◌, ◌≢◌, ◌⊎◌, inl, inr, refl, ap, ◌∙◌,
  arith, append-nil, append_assoc, ◌==◌, if◌then◌else◌, ◌||◌, Bool-cases, ◌/◌, ◌%◌,
}
use mime.Base.Bytes.{Bytes, IsAscii}
use mime.MediaType.Consume.{consume_quoted}
use mime.MediaType.Format.{quote_loop}
use mime.Runes.Ascii.{decode_rune_ascii, encode_rune_ascii}
use mime.Runes.{decode_rune}

-- a value with a backslash in front of each quote and backslash
abbrev pub escaped : Bytes → Bytes
escaped [] = []
escaped (b ∷ s) = (if b == b'"' || b == b'\\' then b'\\' ∷ b ∷ [] else b ∷ []) ++ escaped s

-- a byte that a quoted string can hold and give back
abbrev pub IsQuotable : ℕ → Type 0
IsQuotable b = (b < 0x80) × (b ≢ b'\r') × (b ≢ b'\n')

quote_loop_ascii :
    (out pending : Bytes) (b : ℕ) (s : Bytes)
    → b < 0x80
    → quote_loop out pending 0 (b ∷ s) ≡ (
        if b == b'"' || b == b'\\'
        then quote_loop (out ++ pending ++ b'\\' ∷ []) (b ∷ []) 0 s
        else quote_loop out (pending ++ b ∷ []) 0 s)
unfolding quote_loop
quote_loop_ascii out pending b s h =
    let low : (b / 0x80 % 2 == 1) ≡ false = ground arith in
    elim (Bool-cases (b == b'"' || b == b'\\')) [
      | inl e ↦ rw (decode_rune_ascii b s h, low, e)
      | inr e ↦ rw (decode_rune_ascii b s h, low, e)
    ]

pub quote_loop-escaped :
    (s out pending : Bytes)
    → All IsAscii s
    → quote_loop out pending 0 s ≡ some (out ++ pending ++ escaped s)
quote_loop-escaped [] out pending h = unfold quote_loop in rw append-nil
quote_loop-escaped (b ∷ s) out pending (hb, h) =
    quote_loop_ascii out pending b s hb ∙ elim (Bool-cases (b == b'"' || b == b'\\')) [
      | inl e ↦ rw e (quote_loop-escaped s _ _ h ∙ ap some (simp append_assoc))
      | inr e ↦ rw e (quote_loop-escaped s _ _ h ∙ ap some (simp append_assoc))
    ]

consume_quoted_copied :
    (buffer : Bytes) (literal : Bool) (b : ℕ) (s : Bytes)
    → b < 0x80
    → (literal ≡ true) ⊎ ((b ≢ b'"') × (b ≢ b'\\') × (b ≢ b'\r') × (b ≢ b'\n'))
    → consume_quoted buffer literal 0 (b ∷ s) ≡ consume_quoted (buffer ++ b ∷ []) false 0 s
unfolding consume_quoted
consume_quoted_copied buffer literal b s h k =
    rw (decode_rune_ascii b s h, encode_rune_ascii b h) (ground arith)

consume_quoted_backslash :
    (buffer : Bytes) (s : Bytes)
    → consume_quoted buffer false 0 (b'\\' ∷ s) ≡ consume_quoted buffer true 0 s
unfolding consume_quoted decode_rune
consume_quoted_backslash buffer s = refl

consume_quoted_end :
    (buffer : Bytes) (s : Bytes) → consume_quoted buffer false 0 (b'"' ∷ s) ≡ some (buffer, s)
unfolding consume_quoted decode_rune
consume_quoted_end buffer s = refl

pub consume_quoted-escaped :
    (s buffer rest : Bytes)
    → All IsQuotable s
    → consume_quoted buffer false 0 (escaped s ++ (b'"' ∷ rest)) ≡ some (buffer ++ s, rest)
consume_quoted-escaped [] buffer rest h = consume_quoted_end buffer rest ∙ rw append-nil
consume_quoted-escaped (b ∷ s) buffer rest (hb, h) = elim (Bool-cases (b == b'"' || b == b'\\')) [
  | inl e ↦ rw e (
      consume_quoted_backslash buffer _
      ∙ consume_quoted_copied buffer true b _ hb.0 (inl refl)
      ∙ consume_quoted-escaped s (buffer ++ b ∷ []) rest h
      ∙ simp append_assoc)
  | inr e ↦ rw e (
      consume_quoted_copied buffer false b _ hb.0 (inr (ground arith, ground arith, hb.1, hb.2))
      ∙ consume_quoted-escaped s (buffer ++ b ∷ []) rest h
      ∙ simp append_assoc)
]
