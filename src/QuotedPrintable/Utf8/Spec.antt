-- ===== src/QuotedPrintable/Utf8/Spec.antt =====
-- What qputf8.go promises, byte by byte and with no buffers: the text of a UTF-8 sequence is held
-- back, and a line break in front of one of its continuation bytes is left out.
use mime.Base.{ℕ, ◌+◌, [], ◌∷◌, ◌++◌, Bool, not, ◌||◌, leb, ◌==◌, if◌then◌else◌, length}
use mime.Base.Bytes.{Bytes}
use mime.QuotedPrintable.Utf8.{c0mask}

-- Nothing is held; or a sequence is; or one and a carriage return; or one and a line break; or one
-- in which a line break was left out.
pub data Held : Type 0 where
  idle : Held
  sequence : Bytes → Held
  return : Bytes → Held
  newline : Bytes → Bytes → Held
  mended : Bytes → Held

-- the bytes that are held
abbrev pub text : Held → Bytes
text idle = []
text (sequence s) = s
text (return s) = s ++ 0x0D ∷ []
text (newline s k) = s ++ k
text (mended s) = s

abbrev pub is_lead : ℕ → Bool
is_lead b = c0mask b == 0xC0

abbrev pub is_continuation : ℕ → Bool
is_continuation b = c0mask b == 0x80

-- What a byte gives, and what is held after it.
unfoldable pub next : Held → ℕ → Bytes × Held
next idle b = if is_lead b then ([], sequence (b ∷ [])) else (b ∷ [], idle)
next (sequence s) b =
    if is_lead b
    then (s, sequence (b ∷ []))
    else if b == 0x0D
    then ([], return s)
    else if b == 0x0A
    then ([], newline s (b ∷ []))
    else if not (is_continuation b) || leb 4 (length s + 1)
    then (s ++ b ∷ [], idle)
    else ([], sequence (s ++ b ∷ []))
next (return s) b =
    if is_lead b
    then (s ++ 0x0D ∷ [], sequence (b ∷ []))
    else if b == 0x0A
    then ([], newline s (0x0D ∷ 0x0A ∷ []))
    else (s ++ 0x0D ∷ b ∷ [], idle)
next (newline s k) b =
    if is_lead b
    then (s ++ k, sequence (b ∷ []))
    else if is_continuation b
    then ([], mended (s ++ b ∷ []))
    else ((s ++ k) ++ b ∷ [], idle)
next (mended s) b =
    if is_lead b
    then (s, sequence (b ∷ []))
    else if not (is_continuation b) || length s + 1 == 6
    then (s ++ b ∷ [], idle)
    else ([], mended (s ++ b ∷ []))

unfoldable pub next_all : Held → Bytes → Bytes × Held
next_all h [] = ([], h)
next_all h (b ∷ bs) =
    let (out, h') = next h b in let (out', h'') = next_all h' bs in (out ++ out', h'')
