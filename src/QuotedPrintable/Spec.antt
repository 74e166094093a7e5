-- ===== src/QuotedPrintable/Spec.antt =====
-- Quoted-printable by RFC 2045, as a machine that reads one byte at a time, behind the deletion of
-- blanks, which QuotedPrintable/Padding.antt has. It stands beside the code as the description of
-- what the output of quotedprintable/writer.go means.
use mime.Base.{
  ℕ, ◌+◌, ◌-◌, ◌*◌, ◌/◌, ◌%◌, ◌<◌, [], ◌∷◌, ◌++◌, none, some, Option, ◌≡◌, refl, ◌==◌,
  if◌then◌else◌, within, arith, false, true, ◌||◌, append_assoc, ap,
}
use mime.Base.Bytes.{Bytes, IsByte}
use mime.EncodedWord.QEncoding.{upper_hex}

-- what has been read of an escape
pub data Mode : Type 0 where
  plain : Mode
  equals : Mode
  first : ℕ → Mode
  soft_cr : Mode

-- the mode and the text so far; `none` after a wrong escape
abbrev pub Decoder : Type 0
Decoder = Option (Mode × Bytes)

abbrev hex_value : ℕ → Option ℕ
hex_value c =
    if within b'0' b'9' c
    then some (c - b'0')
    else if within b'A' b'F' c
    then some (c - b'A' + 10)
    else none

abbrev after_equals : Bytes → Option ℕ → Decoder
after_equals text none = none
after_equals text (some h) = some (first h, text)

abbrev after_first : Bytes → ℕ → Option ℕ → Decoder
after_first text h none = none
after_first text h (some l) = some (plain, text ++ (h * 16 + l) ∷ [])

unfoldable pub step : ℕ → Decoder → Decoder
step c none = none
step c (some (plain, text)) =
    if c == b'=' then some (equals, text) else some (plain, text ++ c ∷ [])
step c (some (equals, text)) =
    if c == b'\r' then some (soft_cr, text) else after_equals text (hex_value c)
step c (some (first h, text)) = after_first text h (hex_value c)
step c (some (soft_cr, text)) = if c == b'\n' then some (plain, text) else none

unfoldable pub feed : Bytes → Decoder → Decoder
feed [] d = d
feed (c ∷ s) d = feed s (step c d)

-- The text `s` decodes to `text`, with no escape left open.
abbrev pub Decodes : Bytes → Bytes → Type 0
Decodes s text = feed s (some (plain, [])) ≡ some (plain, text)

pub feed-append : (s t : Bytes) (d : Decoder) → feed (s ++ t) d ≡ feed t (feed s d)
unfolding feed
feed-append [] t d = refl
feed-append (c ∷ s) t d = feed-append s t (step c d)

pub step_literal :
    (c : ℕ) (text : Bytes)
    → (c == b'=') ≡ false
    → step c (some (plain, text)) ≡ some (plain, text ++ c ∷ [])
unfolding step
step_literal c text h = rw h

hex_value-upper_hex : (n : ℕ) → n < 16 → hex_value (upper_hex n) ≡ some n
unfolding upper_hex
hex_value-upper_hex n h = ground arith

upper_hex_not_cr : (n : ℕ) → n < 16 → (upper_hex n == b'\r') ≡ false
unfolding upper_hex
upper_hex_not_cr n h = ground arith

pub feed_escape :
    (b : ℕ) (text : Bytes)
    → IsByte b
    → feed (b'=' ∷ upper_hex (b / 16) ∷ upper_hex (b % 16) ∷ []) (some (plain, text))
      ≡ some (plain, text ++ b ∷ [])
unfolding feed step
feed_escape b text h =
    rw
      (
        upper_hex_not_cr (b / 16) (omega arith),
        hex_value-upper_hex (b / 16) (omega arith),
        hex_value-upper_hex (b % 16) (omega arith),
      )
      (ap (λ c. some (plain, text ++ c ∷ [])) (omega arith))

pub feed_soft :
    (text : Bytes) → feed (b'=' ∷ b'\r' ∷ b'\n' ∷ []) (some (plain, text)) ≡ some (plain, text)
unfolding feed step
feed_soft text = refl

pub feed_crlf :
    (text : Bytes)
    → feed (b'\r' ∷ b'\n' ∷ []) (some (plain, text)) ≡ some (plain, text ++ b'\r' ∷ b'\n' ∷ [])
unfolding feed step
feed_crlf text = rw (append_assoc text (b'\r' ∷ []) (b'\n' ∷ []))

-- A blank read last was read as itself, so that what stands before it decodes too.
step_blank :
    (b : ℕ) (d : Decoder) (text : Bytes)
    → (b == b' ' || b == b'\t') ≡ true
    → step b d ≡ some (plain, text)
    → (before : Bytes) × (d ≡ some (plain, before)) × (text ≡ before ++ b ∷ [])
unfolding step
step_blank b none text h e = cc
step_blank b (some (plain, t)) text h e = (t, refl, ground arith)
step_blank b (some (equals, t)) text h e = absurd (ground arith)
step_blank b (some (first x, t)) text h e = absurd (ground arith)
step_blank b (some (soft_cr, t)) text h e = absurd (ground arith)

pub Decodes-blank :
    (s : Bytes) (b : ℕ) (text : Bytes)
    → (b == b' ' || b == b'\t') ≡ true
    → Decodes (s ++ b ∷ []) text
    → (before : Bytes) × Decodes s before × (text ≡ before ++ b ∷ [])
unfolding feed
Decodes-blank s b text h d =
    step_blank b _ text h (rw (feed-append s (b ∷ []) (some (plain, []))) at d)
