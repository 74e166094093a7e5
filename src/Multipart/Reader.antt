-- ===== src/Multipart/Reader.antt =====
-- multipart/multipart.go: `Part` and `Reader`.
use mime.Base.Bytes
use mime.MediaType.Errors
use mime.MediaType.Parse
use mime.Multipart.Bufio
use mime.Multipart.Lines
use mime.Base.Array.{◌>>=◌}
use mime.Base.Dict
use mime.Base.{
  ℕ, zero, suc, ◌+◌, ◌-◌, [], ◌++◌, Bool, true, false, not, ◌&&◌, ◌||◌, Option, none, some, ltb,
  leb, ◌==◌, if◌then◌else◌, take, drop, length, ◌≡◌, refl,
}
use mime.Base.Bytes.{Bytes, codes, equal, has_prefix}
use mime.Base.Dict.{lookup}
use mime.MediaType.Errors.{GoError, is_ok_pmt_error}
use mime.Runes.Strings.{to_lower}
use mime.MediaType.Parse.{Params, Parsed, parse_media_type}
use mime.Multipart.Bufio.{
  ReadError, eof, buffer_full, failed, BufReader, buffer_size, read_slice, peek, skip,
}
use mime.Multipart.Lines.{
  Marks, is_empty, new_marks, is_final_boundary, is_boundary_delimiter_line,
  peek_buffer_is_empty_part, peek_buffer_separator_index,
}
use mime.Multipart.Writer.{Header}

-- the reader that `newPart` puts into `r`: the raw one, or a decoder over it
pub data Decoding : Type 0 where
  raw quoted_printable quoted_printable_utf8 : Decoding

-- `Part`; `disposition` is the type and the parameters, `none` for nil parameters
pub record Part : Type 0 where
  pub header : Header
  pub buffer : Bytes
  pub bytes_read : ℕ
  pub disposition : Bytes × Option Params
  pub decoding : Decoding

-- `Reader` without its current part
pub record Reader : Type 0 where
  pub buf : BufReader
  pub parts_read : ℕ
  pub correct_utf8_qp : Bool
  pub marks : Marks

-- `newReader`
abbrev pub new_reader : BufReader → Bytes → Bool → Reader
new_reader buf boundary correct_utf8_qp = record {
  buf = buf;
  parts_read = 0;
  correct_utf8_qp = correct_utf8_qp;
  marks = new_marks boundary;
}

-- What a read gives: the part, the reader, the bytes and the error.
abbrev pub PartRead : Type 0
PartRead = Part × Reader × Bytes × Option ReadError

-- the number of bytes that `partReader.Read` copies, and `foundBoundary`
unfoldable pub copy_count : Marks → Bytes → Bool → ℕ × Bool
copy_count mr ahead no_more = elim (peek_buffer_separator_index mr ahead) [
  | some (idx, ends) ↦ (if not ends && idx == 0 then 1 else idx, ends)
  | none ↦ (if no_more then length ahead else length ahead - length mr.nl_dash_boundary, false)
]

-- `p.buffer.Read(d)` for a `d` of length `n`, with the count of `p.bytesRead`
abbrev pub from_buffer : ℕ → Part → Part × Bytes × Bool
from_buffer n p = (
  record p { buffer = drop n p.buffer; bytes_read = p.bytes_read + length (take n p.buffer) },
  take n p.buffer,
  is_empty p.buffer && ltb 0 n,
)

-- the end of `partReader.Read`: an end of the buffer is one of the part only at the boundary or the
-- end of the file
abbrev pub give : ℕ → Bool → Part → Reader → PartRead
give n at_end p mr =
    let (p', d, ended) = from_buffer n p in (p', mr, d, if ended && at_end then some eof else none)

abbrev pub is_eof : Option ReadError → Bool
is_eof (some eof) = true
is_eof _ = false

-- an error that is not the end of the file
abbrev pub read_failure : Option ReadError → Option ReadError
read_failure none = none
read_failure (some eof) = none
read_failure (some e) = some e

-- `partReader.Read` where the buffer is too short
unfoldable pub read_ahead : ℕ → Part → Reader → Option ReadError → Bytes → PartRead
read_ahead n p mr err ahead =
    let no_more = is_eof err in
    let (count, found) = copy_count mr.marks ahead no_more in
    let p' = record p { buffer = p.buffer ++ take count mr.buf.rest } in
    let mr' = record mr { buf = skip count mr.buf } in
    if p.bytes_read == 0 && peek_buffer_is_empty_part mr.marks ahead
    then (p, mr, [], some eof)
    else elim (read_failure err) [
      | some e ↦ (p, mr, [], some e)
      | none ↦ give n (no_more || found) p' mr'
    ]

-- `partReader.Read` into a `d` of length `n`
unfoldable pub part_read : ℕ → Part → Reader → PartRead
part_read n p mr =
    let (ahead, err) = peek buffer_size mr.buf in
    if leb n (length p.buffer) then give n false p mr else read_ahead n p mr err ahead

-- what was read before, in front of what is read then
abbrev pub read_more :
    Bytes → Option (Part × Reader × Bytes × ReadError) → Option (Part × Reader × Bytes × ReadError)
read_more d none = none
read_more d (some (p, mr, rest, e)) = some (p, mr, d ++ rest, e)

-- `io.Copy(ioutil.Discard, ·)` on a `partReader`, with slices of length `n`, on fuel. It gives what
-- was read, and the error that ends it; `none` would be a loop that never ends.
unfoldable pub drain : ℕ → ℕ → Part → Reader → Option (Part × Reader × Bytes × ReadError)
drain zero n p mr = none
drain (suc fuel) n p mr =
    let (p', mr', d, err) = part_read n p mr in
    elim err [ some e ↦ some (p', mr', d, e) | none ↦ read_more d (drain fuel n p' mr') ]

-- the result for a part with no decoder only
abbrev pub if_raw {ℓ} : {A : Type ℓ} → Decoding → Option A → Option A
if_raw raw r = r
if_raw quoted_printable r = none
if_raw quoted_printable_utf8 r = none

-- `Part.Close`: the part is read to its end through its reader. For a part with a decoder there is no
-- result here, as a read through a decoder is not modelled.
unfoldable pub part_close : ℕ → ℕ → Part → Reader → Option (Part × Reader × Bytes × ReadError)
part_close fuel n p mr = if_raw p.decoding (drain fuel n p mr)

-- The package textproto: the operations on a header, the form of a key in which they compare it,
-- and `ReadMIMEHeader` with its error, of which a flag says if its text begins with `malformed MIME
-- header`.
pub record Textproto : Type 0 where
  pub get : Header → Bytes → Bytes
  pub set : Header → Bytes → Bytes → Header
  pub del : Header → Bytes → Header
  pub read : BufReader → Header × Option Bool × BufReader

pub data ReaderError : Type 0 where
  end_of_parts : ReaderError
  read_error : ReadError → ReaderError
  malformed_header : ReaderError
  header_error : ReaderError
  expected_part : Bytes → ReaderError
  unexpected_line : Bytes → ReaderError

-- the error that `ReadMIMEHeader` gave
abbrev pub is_usable : Option GoError → Bool
is_usable e = elim (is_ok_pmt_error e) [ none ↦ true | some _ ↦ false ]

abbrev pub or_no_params : Option Params → Params
or_no_params none = []
or_no_params (some m) = m

abbrev pub or_empty : Option Bytes → Bytes
or_empty none = []
or_empty (some v) = v

-- A round of the loop of `NextPart`: what it returns, or the reader and `expectNewPart`, or a panic.
pub data LineOutcome : Type 0 where
  returns : Reader × Option Part × Option ReaderError → LineOutcome
  goes_on : Reader → Bool → LineOutcome
  panics : LineOutcome

-- A round of the loop of `CheckNextPart`: the error, or `expectNewPart`, or a panic. The marks may
-- change.
pub data CheckOutcome : Type 0 where
  checked : Option ReaderError → CheckOutcome
  goes_on : Bool → CheckOutcome
  panics : CheckOutcome

-- behind `isBoundaryDelimiterLine`
abbrev pub check_tested : ℕ → Bool → Marks → Bytes → Option (Marks × Bool) → Marks × CheckOutcome
check_tested parts_read expect mr line none = (mr, panics)
check_tested parts_read expect mr line (some (mr', delimits)) =
    let outcome : CheckOutcome =
      if delimits
      then checked none
      else if is_final_boundary mr' line
      then checked (some end_of_parts)
      else if expect
      then checked (some (expected_part line))
      else if parts_read == 0
      then goes_on false
      else if equal line mr'.nl
      then goes_on true
      else checked (some (unexpected_line line)) in
    (mr', outcome)

unfoldable pub check_line : ℕ → Bool → Marks → Bytes × Option ReadError → Marks × CheckOutcome
check_line parts_read expect mr (line, some eof) = (mr, checked (some end_of_parts))
check_line parts_read expect mr (line, some e) = (mr, checked (some (read_error e)))
check_line parts_read expect mr (line, none) =
    check_tested parts_read expect mr line (is_boundary_delimiter_line parts_read mr line)

-- The loop of `CheckNextPart` over the bytes that are buffered, on fuel; `none` is a panic too.
unfoldable pub check_loop : ℕ → ℕ → Bool → Marks → BufReader → Option (Marks × Option ReaderError)
check_loop zero parts_read expect mr buf = none
check_loop (suc fuel) parts_read expect mr buf =
    let (line, err, buf') = read_slice buf in
    let (mr', outcome) = check_line parts_read expect mr (line, err) in
    elim outcome [
      | checked e ↦ some (mr', e)
      | goes_on expect' ↦ check_loop fuel parts_read expect' mr' buf'
      | panics ↦ none
    ]

-- `CheckNextPart`, where `buffered` is the number of bytes that the buffer holds
unfoldable pub check_next_part : ℕ → Reader → Option (Reader × Option ReaderError)
check_next_part buffered mr =
    let ahead = (peek buffered mr.buf).0 in
    check_loop (suc (length ahead)) mr.parts_read false mr.marks
      (record { rest = ahead; fail = none })
    >>= λ r. some (record mr { marks = r.0 }, r.1)

module _ (unicode_lower : ℕ → ℕ) (textproto : Textproto) where
  open textproto use {get, del, read}

  -- whether the type is text in UTF-8; `none` cannot come
  unfoldable pub is_utf8_text : Option Parsed → Bool
  is_utf8_text none = false
  is_utf8_text (some r) =
      let charset =
        to_lower unicode_lower (or_empty (lookup (codes "charset") (or_no_params r.params))) in
      is_usable r.error
      && has_prefix r.media_type (codes "text/")
      && (equal charset (codes "utf8") || equal charset (codes "utf-8"))

  -- the decoder that `newPart` chooses
  unfoldable pub decoding_of : Bool → Header → Decoding
  decoding_of correct_utf8_qp header =
      let typ = parse_media_type unicode_lower (get header (codes "Content-Type")) in
      if correct_utf8_qp && is_utf8_text typ then quoted_printable_utf8 else quoted_printable

  -- `newPart`: the part, the reader, and the error of `ReadMIMEHeader`
  unfoldable pub new_part : Reader → Part × Reader × Option Bool
  new_part mr =
      let (header, err, buf) = read mr.buf in
      let quoted =
        equal (get header (codes "Content-Transfer-Encoding")) (codes "quoted-printable") in
      let header' = if quoted then del header (codes "Content-Transfer-Encoding") else header in
      let part : Part = record {
        header = header';
        buffer = [];
        bytes_read = 0;
        disposition = ([], none);
        decoding = if quoted then decoding_of mr.correct_utf8_qp header' else raw;
      } in
      (part, record mr { buf = buf }, err)

  -- what `NextPart` returns of it
  abbrev pub next_of : Part × Reader × Option Bool → Reader × Option Part × Option ReaderError
  next_of (p, mr, none) = (mr, some p, none)
  next_of (p, mr, some true) = (mr, some p, some malformed_header)
  next_of (p, mr, some false) = (mr, none, some header_error)

  -- behind `isBoundaryDelimiterLine`
  abbrev pub on_tested : Bool → Bytes → BufReader → Reader → Option (Marks × Bool) → LineOutcome
  on_tested expect line buf mr none = panics
  on_tested expect line buf mr (some (marks, delimits)) =
      let mr' = record mr { buf = buf; marks = marks } in
      if delimits
      then returns (next_of (new_part (record mr' { parts_read = mr.parts_read + 1 })))
      else if is_final_boundary marks line
      then returns (mr', none, some end_of_parts)
      else if expect
      then returns (mr', none, some (expected_part line))
      else if mr.parts_read == 0
      then goes_on mr' false
      else if equal line marks.nl
      then goes_on mr' true
      else returns (mr', none, some (unexpected_line line))

  unfoldable pub on_line : Bool → Bytes × Option ReadError × BufReader → Reader → LineOutcome
  on_line expect (line, some eof, buf) mr =
      returns (record mr { buf = buf }, none, some end_of_parts)
  on_line expect (line, some e, buf) mr =
      returns (record mr { buf = buf }, none, some (read_error e))
  on_line expect (line, none, buf) mr =
      on_tested expect line buf mr (is_boundary_delimiter_line mr.parts_read mr.marks line)

  -- The loop of `NextPart`, on fuel; `none` is a panic too.
  unfoldable pub next_loop : ℕ → Bool → Reader → Option (Reader × Option Part × Option ReaderError)
  next_loop zero expect mr = none
  next_loop (suc fuel) expect mr = elim (on_line expect (read_slice mr.buf) mr) [
    | returns r ↦ some r
    | goes_on mr' expect' ↦ next_loop fuel expect' mr'
    | panics ↦ none
  ]

  -- `NextPart` behind the closing of the current part
  unfoldable pub next_part : Reader → Option (Reader × Option Part × Option ReaderError)
  next_part mr = next_loop (suc (length mr.buf.rest)) false mr

  -- `parseContentDisposition`; `none` of the parser cannot come
  abbrev pub disposition_of : Option Parsed → Bytes × Option Params
  disposition_of none = ([], none)
  disposition_of (some r) = (r.media_type, if is_usable r.error then r.params else some [])

  unfoldable pub parse_content_disposition : Part → Part
  parse_content_disposition p = record p {
    disposition =
        disposition_of
          (parse_media_type unicode_lower (get p.header (codes "Content-Disposition")));
  }

  -- the part after the parse, if its parameters are nil
  abbrev pub parsed_part : Option Params → Part → Part
  parsed_part none p = parse_content_disposition p
  parsed_part (some _) p = p

  abbrev pub param_of : Bytes → Part → Bytes
  param_of name p = or_empty (lookup name (or_no_params p.disposition.1))

  -- `FormName`
  unfoldable pub form_name : Part → Part × Bytes
  form_name p =
      let p' = parsed_part p.disposition.1 p in
      (p', if equal p'.disposition.0 (codes "form-data") then param_of (codes "name") p' else [])

  -- `FileName`
  unfoldable pub file_name : Part → Part × Bytes
  file_name p = let p' = parsed_part p.disposition.1 p in (p', param_of (codes "filename") p')

-- unfolds what a test of this file computes with
unfoldable pub computes : Unit {0}
unfolding copy_count read_ahead part_read drain part_close check_line check_loop check_next_part
    is_utf8_text decoding_of new_part on_line next_loop next_part parse_content_disposition
    form_name file_name Bytes.computes Dict.computes Errors.computes Parse.computes Bufio.computes
    Lines.computes
computes = tt

-- a header that is always empty, and takes no bytes
abbrev no_header : Textproto
no_header = record { get = λ h k. []; set = λ h k v. h; del = λ h k. h; read = λ b. ([], none, b) }

abbrev two_parts : Reader
two_parts =
    new_reader (record { rest = codes "--b\r\nabc\r\n--b\r\nd\r\n--b--"; fail = none }) (codes "b")
      false

abbrev new_raw : Part
new_raw = record {
  header = [];
  buffer = [];
  bytes_read = 0;
  disposition = ([], none);
  decoding = raw;
}

two_parts_text :
    (next_part (λ r. r) no_header two_parts >>= λ r. drain 9 512 new_raw r.0 >>= λ d. some d.2)
    ≡ some (codes "abc")
unfolding computes
two_parts_text = refl

check_text :
    ((check_next_part 7 two_parts >>= λ r. some r.1) ≡ some none)
    × ((check_next_part 3 two_parts >>= λ r. some r.1) ≡ some (some end_of_parts))
unfolding computes
check_text = (refl, refl)
