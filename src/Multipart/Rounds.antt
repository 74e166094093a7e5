-- ===== src/Multipart/Rounds.antt =====
-- multipart/multipart.go: what `NextPart` makes of the lines that the writer sends.
use mime.Base.{
  ℕ, suc, ◌+◌, ◌<◌, ◌≤◌, [], ◌∷◌, ◌++◌, Bool, true, false, Option, none, some, ◌==◌, if◌then◌else◌,
  length, ◌≡◌, refl, ap, sym, ◌∙◌, arith, All, length-append, append_assoc, Bool-cases, All-append,
  inl, inr,
}
use mime.Base.Bytes.{Bytes, codes, equal, has_prefix}
use mime.Multipart.Bufio.{buffer_size, read_slice}
use mime.Multipart.Lines.{is_final_boundary, is_boundary_delimiter_line}
use mime.Multipart.Reader.{
  Part, Reader, Textproto, LineOutcome, returns, goes_on, panics, ReaderError, end_of_parts,
  new_part, next_of, on_line, next_loop,
}
use mime.Multipart.MarkLines.{marks_of, read_slice-line, delimits, delimits_not, is_final}
use mime.Multipart.Writer.{crlf}

-- a reader for the boundary, with the end of the file behind its bytes
abbrev pub reader_at : Bytes → Bool → ℕ → Bytes → Reader
reader_at boundary utf8 k s = record {
  buf = record { rest = s; fail = none };
  parts_read = k;
  correct_utf8_qp = utf8;
  marks = marks_of boundary;
}

module _ (unicode_lower : ℕ → ℕ) (textproto : Textproto) where
  -- what the loop does after a line
  abbrev pub after_line : ℕ → LineOutcome → Option (Reader × Option Part × Option ReaderError)
  after_line fuel o = elim o [
    | returns r ↦ some r
    | goes_on mr expect ↦ next_loop unicode_lower textproto fuel expect mr
    | panics ↦ none
  ]

  pub next_loop_line :
      (fuel : ℕ) (expect : Bool) (mr : Reader) (o : LineOutcome)
      → on_line unicode_lower textproto expect (read_slice mr.buf) mr ≡ o
      → next_loop unicode_lower textproto (suc fuel) expect mr ≡ after_line fuel o
  unfolding next_loop
  next_loop_line fuel expect mr o e = ap (after_line fuel) e

module _ (unicode_lower : ℕ → ℕ) (textproto : Textproto) (boundary : Bytes) (utf8 : Bool) where
  -- an empty line
  on_line-crlf :
      (k : ℕ) (s t : Bytes)
      → on_line unicode_lower textproto false
          (crlf, none, record { rest = t; fail = none })
          (reader_at boundary utf8 k s)
        ≡ goes_on (reader_at boundary utf8 k t) (if k == 0 then false else true)
  unfolding on_line is_boundary_delimiter_line is_final_boundary has_prefix equal
  on_line-crlf k s t = elim (Bool-cases (k == 0)) [ inl e ↦ rw e refl | inr e ↦ rw e refl ]

  -- the line that opens a part
  on_line-delimiter :
      (expect : Bool) (k : ℕ) (s t : Bytes)
      → on_line unicode_lower textproto expect
          (codes "--" ++ (boundary ++ crlf), none, record { rest = t; fail = none })
          (reader_at boundary utf8 k s)
        ≡ returns (
            next_of unicode_lower textproto
              (new_part unicode_lower textproto (reader_at boundary utf8 (k + 1) t)))
  unfolding on_line is_boundary_delimiter_line
  on_line-delimiter expect k s t = rw (delimits k boundary) refl

  -- the line that closes the message
  on_line-final :
      (expect : Bool) (k : ℕ) (s t : Bytes)
      → on_line unicode_lower textproto expect
          (codes "--" ++ (boundary ++ (codes "--" ++ crlf)), none, record { rest = t; fail = none })
          (reader_at boundary utf8 k s)
        ≡ returns (reader_at boundary utf8 k t, none, some end_of_parts)
  unfolding on_line is_boundary_delimiter_line is_final_boundary
  on_line-final expect k s t = rw (delimits_not k boundary, is_final boundary) refl

  module _ (no_lf : All (λ x. (x == b'\n') ≡ false) boundary)
      (fits : length boundary + 6 < buffer_size) where
    -- a line that begins with the boundary
    read_line :
        (t s : Bytes)
        → All (λ x. (x == b'\n') ≡ false) t
        → length t ≤ 3
        → read_slice (record { rest = codes "--" ++ (boundary ++ (t ++ (b'\n' ∷ s))); fail = none })
          ≡ (
            codes "--" ++ (boundary ++ (t ++ (b'\n' ∷ []))),
            none,
            record { rest = s; fail = none },
          )
    read_line t s h l =
        let shown = All-append (λ x. (x == b'\n') ≡ false) boundary t no_lf h in
        rw (sym (append_assoc boundary t (b'\n' ∷ s)), sym (append_assoc boundary t (b'\n' ∷ [])))
          (read_slice-line (codes "--" ++ (boundary ++ t)) s (refl, (refl, shown))
            (omega (arith, fits, length-append boundary t)))

    read_empty :
        (s : Bytes)
        → read_slice (record { rest = crlf ++ s; fail = none })
          ≡ (crlf, none, record { rest = s; fail = none })
    read_empty s = read_slice-line (b'\r' ∷ []) s (refl, tt) (omega arith)

    pub next_loop-delimiter :
        (fuel : ℕ) (expect : Bool) (k : ℕ) (s : Bytes)
        → next_loop unicode_lower textproto
            (suc fuel)
            expect
            (reader_at boundary utf8 k (codes "--" ++ (boundary ++ (crlf ++ s))))
          ≡ some (
              next_of unicode_lower textproto
                (new_part unicode_lower textproto (reader_at boundary utf8 (k + 1) s)))
    next_loop-delimiter fuel expect k s =
        let mr = reader_at boundary utf8 k (codes "--" ++ (boundary ++ (crlf ++ s))) in
        let line =
          ap (λ r. on_line unicode_lower textproto expect r mr)
            (read_line (b'\r' ∷ []) s (refl, tt) (omega arith)) in
        next_loop_line unicode_lower textproto fuel expect mr _
          (line ∙ on_line-delimiter expect k mr.buf.rest s)

    pub next_loop-final :
        (fuel : ℕ) (expect : Bool) (k : ℕ)
        → next_loop unicode_lower textproto
            (suc fuel)
            expect
            (reader_at boundary utf8 k (codes "--" ++ (boundary ++ (codes "--" ++ crlf))))
          ≡ some (reader_at boundary utf8 k [], none, some end_of_parts)
    next_loop-final fuel expect k =
        let mr = reader_at boundary utf8 k (codes "--" ++ (boundary ++ (codes "--" ++ crlf))) in
        let line =
          ap (λ r. on_line unicode_lower textproto expect r mr)
            (read_line (codes "--\r") [] (refl, (refl, (refl, tt))) (omega arith)) in
        next_loop_line unicode_lower textproto fuel expect mr _
          (line ∙ on_line-final expect k mr.buf.rest [])

    pub next_loop-crlf :
        (fuel k : ℕ) (s : Bytes)
        → next_loop unicode_lower textproto (suc fuel) false (reader_at boundary utf8 k (crlf ++ s))
          ≡ next_loop unicode_lower textproto fuel
              (if k == 0 then false else true)
              (reader_at boundary utf8 k s)
    next_loop-crlf fuel k s =
        let mr = reader_at boundary utf8 k (crlf ++ s) in
        let line = ap (λ r. on_line unicode_lower textproto false r mr) (read_empty s) in
        next_loop_line unicode_lower textproto fuel false mr _ (line ∙ on_line-crlf k mr.buf.rest s)
