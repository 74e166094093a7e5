-- ===== src/Multipart/ReadBack.antt =====
-- multipart/: a message of the writer, read with `NextPart` and reads of each part.
use mime.Base.{
  ℕ, suc, ◌+◌, ◌-◌, ◌<◌, ◌≤◌, List, [], ◌∷◌, ◌++◌, map, Bool, false, Option, none, some, ◌==◌, take,
  length, ◌≡◌, refl, ap, sym, subst, ◌∙◌, arith, All, length-append, append_assoc,
}
use mime.Base.Bytes.{Bytes, codes, has_prefix, index}
use mime.Multipart.Bufio.{eof, buffer_size}
use mime.Multipart.Lines.{is_end}
use mime.Multipart.Reader.{Textproto, end_of_parts, new_reader, new_part, next_of, next_part, drain}
use mime.Multipart.Search.{has_prefix-append_long, index_append}
use mime.Multipart.Separator.{Ahead}
use mime.Multipart.PartContent.{holding}
use mime.Multipart.Drain.{drain-Content}
use mime.Multipart.MarkLines.{marks_of, new_marks-marks_of}
use mime.Multipart.Rounds.{reader_at, next_loop-delimiter, next_loop-crlf, next_loop-final}
use mime.Multipart.Client.{
  separator, collect, read_parts, after_drain, after_next, read_parts_next, raw_part, Readable,
}
use mime.Multipart.Follows.{opening, parts_text_cons, Follows, message-Follows, not_empty}
use mime.Multipart.Writer.{Header, Sink, new_writer, crlf, end_line, header_text, close}
use mime.Multipart.Writer.Message.{
  Content, Accepts, joined, parts_text, write_parts, close-parts_text,
}

module _ (unicode_lower : ℕ → ℕ) (textproto : Textproto) (boundary : Bytes) (utf8 : Bool) where
  new_part-Readable :
      (part : Header × List Bytes) (k : ℕ) (s : Bytes)
      → Readable textproto boundary part
      → new_part unicode_lower textproto
          (reader_at boundary utf8 k (header_text part.0 ++ (crlf ++ s)))
        ≡ (raw_part part.0, reader_at boundary utf8 k s, none)
  unfolding new_part
  new_part-Readable part k s r = rw (r.reads s, new_part, r.not_quoted) refl

  part-Ahead :
      (part : Header × List Bytes) (s : Bytes) (f : Follows boundary s)
      → Readable textproto boundary part
      → length boundary + 6 < buffer_size
      → Ahead (marks_of boundary) (joined part.1) f.after
  part-Ahead part s f r l =
      let window : buffer_size - length (separator boundary) ≡ suc (suc (4090 - length boundary)) =
        omega (arith, l) in
      record {
        not_empty = λ e. cc;
        found =
            subst (λ t. index t (separator boundary) ≡ some (length (joined part.1)))
              (append_assoc (joined part.1) (separator boundary) f.after)
              (index_append b'\r' (b'\n' ∷ codes "--" ++ boundary) (length (joined part.1))
                (joined part.1 ++ separator boundary) f.after r.no_separator);
        fits = omega (arith, l);
        ends = ap (λ m. is_end (take m f.after)) window ∙ f.ends (4090 - length boundary);
      }

  no_boundary_ahead :
      (part : Header × List Bytes) (after : Bytes)
      → Readable textproto boundary part
      → has_prefix (joined part.1 ++ (separator boundary ++ after)) (codes "--" ++ boundary) ≡ false
  no_boundary_ahead part after r =
      let content = joined part.1 in
      let short : length (codes "--" ++ boundary) ≤ length (content ++ separator boundary) =
        omega (arith, length-append content (separator boundary)) in
      ap (λ t. has_prefix t (codes "--" ++ boundary))
        (sym (append_assoc content (separator boundary) after))
      ∙ has_prefix-append_long (content ++ separator boundary) after (codes "--" ++ boundary) short
      ∙ r.no_boundary

  module _ (no_lf : All (λ x. (x == b'\n') ≡ false) boundary)
      (fits : length boundary + 6 < buffer_size) where
    next_part-opening :
        (before : Option ℕ) (k : ℕ) (s : Bytes)
        → next_part unicode_lower textproto (reader_at boundary utf8 k (opening boundary before s))
          ≡ some (
              next_of unicode_lower textproto
                (new_part unicode_lower textproto (reader_at boundary utf8 (k + 1) s)))
    unfolding next_part opening
    next_part-opening none k s =
        next_loop-delimiter unicode_lower textproto boundary utf8 no_lf fits _ false k s
    next_part-opening (some i) k s =
        next_loop-crlf unicode_lower textproto boundary utf8 no_lf fits _ k _
        ∙ next_loop-delimiter unicode_lower textproto boundary utf8 no_lf fits _ _ k s

    next_part-end :
        (k : ℕ)
        → next_part unicode_lower textproto (reader_at boundary utf8 k (end_line boundary))
          ≡ some (reader_at boundary utf8 k [], none, some end_of_parts)
    unfolding next_part end_line
    next_part-end k =
        next_loop-crlf unicode_lower textproto boundary utf8 no_lf fits _ k _
        ∙ next_loop-final unicode_lower textproto boundary utf8 no_lf fits _ _ k

    drain-Readable :
        (part : Header × List Bytes) (n k : ℕ) (s : Bytes)
        → Readable textproto boundary part
        → Follows boundary s
        → 0 < n
        → drain
            (suc (length (joined part.1 ++ s)))
            n
            (raw_part part.0)
            (reader_at boundary utf8 k (joined part.1 ++ s))
          ≡ some (
            holding (raw_part part.0) [] (0 + length (joined part.1)),
            reader_at boundary utf8 k s,
            joined part.1,
            eof,
          )
    drain-Readable part n k s r f h =
        let content = joined part.1 in
        let begun =
          not_empty boundary (content ++ (separator boundary ++ f.after))
            (no_boundary_ahead part f.after r) in
        subst
          (λ t.
            drain (suc (length (content ++ t))) n (raw_part part.0)
              (reader_at boundary utf8 k (content ++ t))
            ≡ some (
              holding (raw_part part.0) [] (0 + length content),
              reader_at boundary utf8 k t,
              content,
              eof,
            ))
          (sym f.same)
          (drain-Content (raw_part part.0) (reader_at boundary utf8 k []) f.after _ n 0 [] content
            (part-Ahead part s f r fits) begun h
            (omega (arith, length-append content (separator boundary ++ f.after))))

    -- the parts, each with its bytes together
    read_parts-Readable :
        (n : ℕ) (before : Option ℕ) (c : Content) (k : ℕ)
        → All (Readable textproto boundary) c
        → 0 < n
        → read_parts unicode_lower textproto
            (suc (length c))
            n
            (reader_at boundary utf8 k (parts_text boundary before c ++ end_line boundary))
          ≡ some (map (λ part. (part.0, joined part.1)) c, some end_of_parts)
    unfolding parts_text
    read_parts-Readable n before [] k r h =
        read_parts_next unicode_lower textproto 0 n _
        ∙ ap (after_next unicode_lower textproto 0 n) (next_part-end k)
    read_parts-Readable n before ((header, ds) ∷ c) k (r, rs) h =
        let s = parts_text boundary (some 0) c ++ end_line boundary in
        let content = joined ds in
        let fuel = suc (length c) in
        let next =
          next_part-opening before k (header_text header ++ (crlf ++ (content ++ s)))
          ∙ ap (λ q. some (next_of unicode_lower textproto q))
              (new_part-Readable (header, ds) (k + 1) (content ++ s) r) in
        ap (λ t. read_parts unicode_lower textproto (suc fuel) n (reader_at boundary utf8 k t))
          (parts_text_cons boundary before header ds c (end_line boundary))
        ∙ read_parts_next unicode_lower textproto fuel n _
        ∙ ap (after_next unicode_lower textproto fuel n) next
        ∙ ap (after_drain unicode_lower textproto fuel n header)
            (drain-Readable (header, ds) n (k + 1) s r (message-Follows boundary c) h)
        ∙ ap (collect (header, content)) (read_parts-Readable n (some 0) c (k + 1) rs h)

module _ (sink : Sink) (accepts : Accepts sink) where
  -- A message that a client of the writer has made is read back: where the underlying writer takes
  -- all, reading each part with slices of at least one byte gives the headers and, for each, exactly
  -- the bytes written, in order, and then the end of the parts. The boundary has no line feed and
  -- fits into the buffer with its dashes and line ends; no part begins with the boundary or has the
  -- separator in its bytes, and its header is one that `ReadMIMEHeader` reads as it was written and
  -- that does not ask for a decoder. A fuel above the number of the parts is enough.
  pub read_parts-close :
      (unicode_lower : ℕ → ℕ) (textproto : Textproto) (boundary : Bytes) (utf8 : Bool) (n : ℕ)
      (c : Content)
      → All (λ x. (x == b'\n') ≡ false) boundary
      → length boundary + 6 < buffer_size
      → All (Readable textproto boundary) c
      → 0 < n
      → let message = joined (close sink (write_parts sink c (new_writer boundary))).0.out in
        read_parts unicode_lower textproto
          (suc (length c))
          n
          (new_reader (record { rest = message; fail = none }) boundary utf8)
        ≡ some (map (λ part. (part.0, joined part.1)) c, some end_of_parts)
  read_parts-close unicode_lower textproto boundary utf8 n c no_lf fits readable h =
      let sent = (close-parts_text sink accepts boundary c).0 in
      let fuel = suc (length c) in
      let message = parts_text boundary none c ++ end_line boundary in
      ap
        (λ s.
          read_parts unicode_lower textproto fuel n
            (new_reader (record { rest = s; fail = none }) boundary utf8))
        sent
      ∙ ap
          (λ marks. read_parts unicode_lower textproto fuel n (record {
            buf = record { rest = message; fail = none };
            parts_read = 0;
            correct_utf8_qp = utf8;
            marks = marks;
          }))
          (new_marks-marks_of boundary)
      ∙ read_parts-Readable unicode_lower textproto boundary utf8 no_lf fits n none c 0 readable h
