-- ===== src/Tests/Multipart.antt =====
-- multipart/
use mime.Base.{
  ◌<◌, Bool, true, false, Option, drop, arith, [], ◌∷◌, ◌++◌, some, none, length, ◌≡◌, ◌≢◌, ◌↔◌,
  ◌⊎◌, ◌≤◌, All, refl, inr,
}
use mime.Base.Bytes.{codes}
use mime.Base.Bytes
use mime.Base.Bytes.{Bytes, has_prefix}
use mime.Multipart.Bufio.{BufReader, eof}
use mime.Multipart.Lines
use mime.Multipart.Lines.{Marks, new_marks, is_final_boundary}
use mime.Multipart.Reader.{
  Textproto, Reader, new_reader, end_of_parts, drain, ReaderError, check_next_part,
}
use mime.Multipart.Separator.{Ahead}
use mime.Multipart.PartContent.{Begun, holding, in_front}
use mime.Multipart.Drain.{drain-Content}
use mime.Multipart.Client.{Readable, raw_part, read_parts}
use mime.Multipart.FinalLine.{IsFinal, is_final_boundary_iff}
use mime.Multipart.Returns.{check_next_part-Returns}
use mime.Multipart.ReadBack.{read_parts-close}
use mime.Multipart.Writer.Boundary.{IsBoundaryChar, set_boundary_iff}
use mime.Multipart.Writer.Message.{Content, joined, write_parts}
use mime.Multipart.Writer.Rfc2046.{multipart_body, close-write_parts}
use mime.Multipart.Writer.Parts.{
  IsValid, create_part-IsValid, create_part-part_write, AllClosed, close-AllClosed,
}
use mime.Multipart.Writer
use mime.Multipart.Writer.{
  Sink, Header, Writer, new_writer, set_boundary, create_part, part_write, close, end_line,
  finished_part, header_text, header_lines,
}

abbrev accepting : Sink
accepting out chunk = none

abbrev header : Header
header = (codes "K", codes "v" ∷ []) ∷ []

abbrev content : Content
content = (header, codes "te" ∷ codes "xt" ∷ []) ∷ ([], []) ∷ []

new-IsValid : IsValid (new_writer (codes "b"))
new-IsValid = record { closed = λ i. inr tt; there = λ i e. cc }

abbrev one_part : Writer
one_part = (create_part accepting header (new_writer (codes "b"))).0

one_part-IsValid : IsValid one_part
one_part-IsValid = create_part-IsValid accepting header new-IsValid

create_part-IsValid_example : IsValid (create_part accepting [] one_part).0
create_part-IsValid_example = create_part-IsValid accepting [] one_part-IsValid

close-AllClosed_example : AllClosed (close accepting one_part).0
close-AllClosed_example = close-AllClosed accepting one_part-IsValid

one_part-there : 0 < length one_part.parts
unfolding Writer.computes
one_part-there = omega arith

create_part-part_write_example :
    part_write accepting 0 (codes "x") (create_part accepting header one_part).0
    ≡ ((create_part accepting header one_part).0, 0, some finished_part)
create_part-part_write_example =
    create_part-part_write accepting header 0 (codes "x") one_part-IsValid one_part-there

close-write_parts_example :
    (joined (close accepting (write_parts accepting content (new_writer (codes "b")))).0.out
      ≡ multipart_body (codes "b") content)
    × ((close accepting (write_parts accepting content (new_writer (codes "b")))).1 ≡ none)
close-write_parts_example = close-write_parts accepting (λ out chunk. refl) (codes "b") content

set_boundary_example :
    (((set_boundary (codes "b c") one_part).1 ≡ none) ↔ (
      (one_part.lastpart ≡ none)
      × (1 ≤ length (codes "b c"))
      × (length (codes "b c") ≤ 69)
      × All IsBoundaryChar (codes "b c")))
    × ((((set_boundary (codes "b c") one_part).0 ≡ one_part)
          × ((set_boundary (codes "b c") one_part).1 ≢ none))
        ⊎ (set_boundary (codes "b c") one_part
            ≡ (record one_part { boundary = codes "b c" }, none)))
set_boundary_example = set_boundary_iff (codes "b c") one_part

-- a `ReadMIMEHeader` that knows one header, and takes anything else for an empty one
abbrev read_known : Bool → Bytes → Header × Option Bool × BufReader
read_known true s = (header, none, record { rest = drop 8 s; fail = none })
read_known false s = ([], none, record { rest = drop 2 s; fail = none })

abbrev known : Textproto
known = record {
  get = λ h k. [];
  set = λ h k v. h;
  del = λ h k. h;
  read = λ b. read_known (has_prefix b.rest (codes "K: v\r\n\r\n")) b.rest;
}

text-Readable : Readable known (codes "b") (header, codes "te" ∷ codes "xt" ∷ [])
unfolding Bytes.computes header_text header_lines joined
text-Readable = record {
  reads = λ s. refl;
  not_quoted = refl;
  no_boundary = refl;
  no_separator = refl;
}

empty-Readable : Readable known (codes "b") ([], [])
unfolding Bytes.computes header_text joined
empty-Readable = record {
  reads = λ s. refl;
  not_quoted = refl;
  no_boundary = refl;
  no_separator = refl;
}

read_parts-close_example :
    read_parts
      (λ r. r)
      known
      3
      2
      (new_reader
        (record {
          rest =
              joined
                (close accepting (write_parts accepting content (new_writer (codes "b")))).0.out;
          fail = none;
        })
        (codes "b")
        false)
    ≡ some ((header, codes "text") ∷ ([], []) ∷ [], some end_of_parts)
unfolding joined
read_parts-close_example =
    read_parts-close accepting (λ out chunk. refl) (λ r. r) known (codes "b") false 2 content
      (refl, tt) (omega arith) (text-Readable, (empty-Readable, tt)) (omega arith)

abbrev in_part : Reader
in_part = new_reader (record { rest = []; fail = none }) (codes "b") false

abc-Ahead : Ahead (new_marks (codes "b")) (codes "abc") (codes "\r\n")
unfolding Lines.computes
abc-Ahead = record { not_empty = λ e. cc; found = refl; fits = omega arith; ends = refl }

abc-Begun : Begun 0 (new_marks (codes "b")) (codes "abc\r\n--b\r\n")
unfolding Lines.computes
abc-Begun = refl

drain-Content_example :
    drain 5 2
      (raw_part [])
      (in_front in_part (codes "abc" ++ (in_part.marks.nl_dash_boundary ++ codes "\r\n")))
    ≡ some (
      holding (raw_part []) [] 3,
      in_front in_part (in_part.marks.nl_dash_boundary ++ codes "\r\n"),
      codes "abc",
      eof,
    )
drain-Content_example =
    drain-Content (raw_part []) in_part (codes "\r\n") 5 2 0 [] (codes "abc") abc-Ahead
      (unfold Lines.computes in abc-Begun) (omega arith) (omega arith)

abbrev last_line : Reader
last_line = new_reader (record { rest = codes "--b--"; fail = some 7 }) (codes "b") false

check_next_part-Returns_example :
    (r : Marks × Option ReaderError) × (check_next_part 3 last_line
      ≡ some (record last_line { marks = r.0 }, r.1))
check_next_part-Returns_example =
    check_next_part-Returns 3 last_line (inr (unfold new_marks in refl))

is_final_boundary_example :
    (is_final_boundary (new_marks (codes "b")) (codes "--b-- \r\n") ≡ true)
    ↔ IsFinal (new_marks (codes "b")) (codes "--b-- \r\n")
is_final_boundary_example =
    is_final_boundary_iff (new_marks (codes "b")) (codes "--b-- \r\n")
      (unfold Lines.computes in refl)
