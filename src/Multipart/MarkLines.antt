-- ===== src/Multipart/MarkLines.antt =====
-- multipart/multipart.go: reading the lines that the writer sends, and the tests on them.
use mime.Base.{
  ℕ, zero, suc, ◌-◌, ◌<◌, ◌≤◌, [], ◌∷◌, ◌++◌, Bool, true, false, ◌&&◌, none, some, ◌==◌, take,
  length, ◌≡◌, refl, ap, sym, ◌∙◌, arith, All, length-append, append_assoc, drop-append, drop_past,
}
use mime.Base.Bytes.{
  Bytes, codes, equal, has_prefix, has_prefix-append, index_byte, index_byte-append,
}
use mime.Multipart.Bufio.{buffer_size, read_slice}
use mime.Multipart.Lines.{
  Marks, new_marks, skip_lwsp_char, is_final_boundary, is_boundary_delimiter_line,
}
use mime.Multipart.Reader.{}
use mime.Multipart.Writer.{crlf}

-- the marks, written out
abbrev pub marks_of : Bytes → Marks
marks_of boundary = record {
  nl = crlf;
  nl_dash_boundary = crlf ++ (codes "--" ++ boundary);
  dash_boundary_dash = codes "--" ++ (boundary ++ codes "--");
  dash_boundary = codes "--" ++ boundary;
}

without_end : (s : Bytes) → take (length s) (s ++ codes "--") ≡ s
without_end [] = refl
without_end (b ∷ s) = ap (λ t. b ∷ t) (without_end s)

cut_end :
    (boundary : Bytes)
    → take
        (length (codes "\r\n--" ++ (boundary ++ codes "--")) - 2)
        (codes "\r\n--" ++ (boundary ++ codes "--"))
      ≡ crlf ++ (codes "--" ++ boundary)
cut_end boundary =
    let n : length (codes "\r\n--" ++ (boundary ++ codes "--")) - 2
        ≡ suc (suc (suc (suc (length boundary)))) =
      omega (arith, length-append boundary (codes "--")) in
    ap (λ n. take n (codes "\r\n--" ++ (boundary ++ codes "--"))) n
    ∙ ap (λ s. codes "\r\n--" ++ s) (without_end boundary)

pub new_marks-marks_of : (boundary : Bytes) → new_marks boundary ≡ marks_of boundary
unfolding new_marks
new_marks-marks_of boundary = rw (cut_end boundary) refl

take-append_past :
    (m : ℕ) (p s : Bytes) → length p ≤ m → take m (p ++ s) ≡ p ++ take (m - length p) s
take-append_past m [] s h = ap (λ n. take n s) (omega arith)
take-append_past zero (b ∷ p) s h = absurd (omega arith)
take-append_past (suc m) (b ∷ p) s h =
    ap (λ t. b ∷ t) (take-append_past m p s (omega arith) ∙ ap (λ n. p ++ take n s) (omega arith))

take_past : (s : Bytes) (c : ℕ) (t : Bytes) → take (suc (length s)) (s ++ (c ∷ t)) ≡ s ++ (c ∷ [])
take_past [] c t = refl
take_past (b ∷ s) c t = ap (λ u. b ∷ u) (take_past s c t)

line_end :
    (m : ℕ) (line s : Bytes)
    → All (λ x. (x == b'\n') ≡ false) line
    → length line < m
    → index_byte (take m (line ++ (b'\n' ∷ s))) b'\n' ≡ some (length line)
line_end m line s h l =
    let k = m - suc (length line) in
    let n : m - length line ≡ suc k = omega arith in
    ap (λ t. index_byte t b'\n')
      (take-append_past m line (b'\n' ∷ s) (omega arith) ∙ ap (λ n. line ++ take n (b'\n' ∷ s)) n)
    ∙ index_byte-append line b'\n' (take k s) h

-- A line that the buffer holds is read with its end.
pub read_slice-line :
    (line s : Bytes)
    → All (λ x. (x == b'\n') ≡ false) line
    → length line < buffer_size
    → read_slice (record { rest = line ++ (b'\n' ∷ s); fail = none })
      ≡ (line ++ (b'\n' ∷ []), none, record { rest = s; fail = none })
unfolding read_slice
read_slice-line line s h l =
    rw (read_slice, line_end buffer_size line s h l, take_past line b'\n' s, drop_past line b'\n' s)
      refl

and_false : (b : Bool) → (b && false) ≡ false
and_false true = refl
and_false false = refl

pub delimits :
    (k : ℕ) (boundary : Bytes)
    → is_boundary_delimiter_line k (marks_of boundary) (codes "--" ++ (boundary ++ crlf))
      ≡ some (marks_of boundary, true)
unfolding is_boundary_delimiter_line has_prefix equal skip_lwsp_char
delimits k boundary =
    rw (drop-append boundary crlf, has_prefix-append boundary crlf) (rw (and_false (k == 0)) refl)

pub delimits_not :
    (k : ℕ) (boundary : Bytes)
    → is_boundary_delimiter_line k
        (marks_of boundary)
        (codes "--" ++ (boundary ++ (codes "--" ++ crlf)))
      ≡ some (marks_of boundary, false)
unfolding is_boundary_delimiter_line has_prefix equal skip_lwsp_char
delimits_not k boundary =
    rw (drop-append boundary (codes "--" ++ crlf), has_prefix-append boundary (codes "--" ++ crlf))
      (rw (and_false (k == 0)) refl)

pub is_final :
    (boundary : Bytes)
    → is_final_boundary (marks_of boundary) (codes "--" ++ (boundary ++ (codes "--" ++ crlf)))
      ≡ true
unfolding is_final_boundary has_prefix equal skip_lwsp_char
is_final boundary =
    let same = sym (append_assoc boundary (codes "--") crlf) in
    rw
      (
        same,
        drop-append (boundary ++ codes "--") crlf,
        has_prefix-append (boundary ++ codes "--") crlf,
      )
      refl
