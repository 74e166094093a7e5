-- ===== src/Multipart/Lines.antt =====
-- multipart/multipart.go: the tests on lines and on what was read ahead.
use mime.Base.Bytes
use mime.Base.{
  ℕ, ◌+◌, ◌-◌, [], ◌∷◌, ◌++◌, Bool, true, false, not, ◌&&◌, ◌||◌, Option, none, some, ◌==◌,
  if◌then◌else◌, take, drop, length, ◌≡◌, refl,
}
use mime.Base.Bytes.{Bytes, codes, equal, has_prefix, index, index_byte}

-- the fields of `Reader` that the tests use
pub record Marks : Type 0 where
  pub nl : Bytes
  pub nl_dash_boundary : Bytes
  pub dash_boundary_dash : Bytes
  pub dash_boundary : Bytes

-- what `newReader` makes of the boundary
unfoldable pub new_marks : Bytes → Marks
new_marks boundary =
    let b = codes "\r\n--" ++ (boundary ++ codes "--") in
    record {
      nl = take 2 b;
      nl_dash_boundary = take (length b - 2) b;
      dash_boundary_dash = drop 2 b;
      dash_boundary = drop 2 (take (length b - 2) b);
    }

-- `skipLWSPChar`
unfoldable pub skip_lwsp_char : Bytes → Bytes
skip_lwsp_char [] = []
skip_lwsp_char (b ∷ s) = if b == b' ' || b == b'\t' then skip_lwsp_char s else b ∷ s

abbrev pub is_empty : Bytes → Bool
is_empty [] = true
is_empty (_ ∷ _) = false

-- `isFinalBoundary`
unfoldable pub is_final_boundary : Marks → Bytes → Bool
is_final_boundary mr line =
    let rest = skip_lwsp_char (drop (length mr.dash_boundary_dash) line) in
    if not (has_prefix line mr.dash_boundary_dash) then false else is_empty rest || equal rest mr.nl

-- The switch to lines that end in a line feed alone, where `nl` is not empty.
unfoldable pub switch_nl : Marks → Marks
switch_nl mr = record mr { nl = drop 1 mr.nl; nl_dash_boundary = drop 1 mr.nl_dash_boundary }

-- `isBoundaryDelimiterLine`, with the number of parts read; it may change the marks. `none` is the
-- panic of the slice `mr.nl[1:]` where `nl` is empty.
unfoldable pub is_boundary_delimiter_line : ℕ → Marks → Bytes → Option (Marks × Bool)
is_boundary_delimiter_line parts_read mr line =
    let rest = skip_lwsp_char (drop (length mr.dash_boundary) line) in
    let switches = parts_read == 0 && equal rest (b'\n' ∷ []) in
    let mr' = if switches then switch_nl mr else mr in
    if not (has_prefix line mr.dash_boundary)
    then some (mr, false)
    else if is_empty mr.nl && switches
    then none
    else some (mr', equal rest mr'.nl)

-- `peekBufferIsEmptyPart`
unfoldable pub peek_buffer_is_empty_part : Marks → Bytes → Bool
peek_buffer_is_empty_part mr peek =
    let final = skip_lwsp_char (drop (length mr.dash_boundary_dash) peek) in
    let rest = skip_lwsp_char (drop (length mr.dash_boundary) peek) in
    if has_prefix peek mr.dash_boundary_dash
    then has_prefix final mr.nl || is_empty final
    else if not (has_prefix peek mr.dash_boundary)
    then false
    else has_prefix rest mr.nl

abbrev pub is_found : Option ℕ → Bool
is_found none = false
is_found (some _) = true

-- the tests of `peekBufferSeparatorIndex` on what stands behind the separator
unfoldable pub is_end : Bytes → Bool
is_end after =
    let rest = skip_lwsp_char after in
    if is_empty after || equal after (b'-' ∷ [])
    then false
    else if has_prefix after (b'-' ∷ b'-' ∷ [])
    then true
    else if not (is_found (index_byte rest b'\n'))
    then false
    else has_prefix rest (b'\n' ∷ []) || has_prefix rest (b'\r' ∷ b'\n' ∷ [])

-- `peekBufferSeparatorIndex`, `none` for -1
unfoldable pub peek_buffer_separator_index : Marks → Bytes → Option (ℕ × Bool)
peek_buffer_separator_index mr peek = elim (index peek mr.nl_dash_boundary) [
  | none ↦ none
  | some idx ↦ some (idx, is_end (drop (idx + length mr.nl_dash_boundary) peek))
]

-- unfolds what a test of this file computes with
unfoldable pub computes : Unit {0}
unfolding new_marks skip_lwsp_char is_final_boundary switch_nl is_boundary_delimiter_line
    peek_buffer_is_empty_part is_end peek_buffer_separator_index Bytes.computes
computes = tt

abbrev marks : Marks
marks = new_marks (codes "b")

delimits_at : ℕ → Marks → Bytes → Option Bool
delimits_at k mr line = elim (is_boundary_delimiter_line k mr line) [
  | none ↦ none
  | some r ↦ some r.1
]

lines_text :
    (is_final_boundary marks (codes "--b-- \t\r\n") ≡ true)
    × (is_final_boundary marks (codes "--b--x") ≡ false)
    × (delimits_at 0 marks (codes "--b \n") ≡ some true)
    × (delimits_at 1 marks (codes "--b \n") ≡ some false)
    × (peek_buffer_separator_index marks (codes "text\r\n--b\r\n") ≡ some (4, true))
    × (peek_buffer_separator_index marks (codes "text\r\n--bx\r\n") ≡ some (4, false))
    × (peek_buffer_separator_index marks (codes "text\r\n") ≡ none)
unfolding computes delimits_at
lines_text = (refl, refl, refl, refl, refl, refl, refl)

-- A line is tested again where `CheckNextPart` comes before the first `NextPart`. With lines that end
-- in a line feed alone, the second test fails, as both of them switch, and the third is a panic.
twice_text :
    (delimits_at 0 marks (codes "--b\n") ≡ some true)
    × (delimits_at 0 (switch_nl marks) (codes "--b\n") ≡ some false)
    × (delimits_at 0 (switch_nl (switch_nl marks)) (codes "--b\n") ≡ none)
unfolding computes delimits_at
twice_text = (refl, refl, refl)
