-- ===== src/Multipart/Writer.antt =====
-- multipart/writer.go. The objects of type `part` are a list, so that a pointer to one is its index;
-- a writer is never shared.
pub mod Parts
pub mod Message
pub mod Rfc2046
pub mod Boundary
use mime.Base.Bytes
use mime.Runes
use mime.Base.{
  ℕ, zero, suc, ◌+◌, List, [], ◌∷◌, ◌++◌, Bool, true, false, not, ◌&&◌, ◌||◌, Option, none, some,
  ltb, ◌==◌, if◌then◌else◌, within, length, take, get_elem?, ◌≡◌, refl,
}
use mime.Base.Bytes.{Bytes, codes}
use mime.Runes.{runes}

-- `part` without its pointer to the writer; an error of the underlying writer is a number
pub record Part : Type 0 where
  pub closed : Bool
  pub we : Option ℕ

-- `Writer`, with all parts that it has made; `out` holds what the underlying writer has taken in
-- each of its calls.
pub record Writer : Type 0 where
  pub boundary : Bytes
  pub lastpart : Option ℕ
  pub parts : List Part
  pub out : List Bytes

pub data WriterError : Type 0 where
  set_after_write invalid_length invalid_character finished_part : WriterError
  write_error : ℕ → WriterError

-- The underlying `io.Writer`: by what it has taken, it takes a chunk whole, or it takes some bytes
-- of it and gives an error.
abbrev pub Sink : Type 0
Sink = List Bytes → Bytes → Option (ℕ × ℕ)

-- `NewWriter`; `random` is what `randomBoundary` gives
abbrev pub new_writer : Bytes → Writer
new_writer random = record { boundary = random; lastpart = none; parts = []; out = [] }

-- the test of `SetBoundary` on a character
unfoldable pub is_boundary_char : ℕ → Bool
is_boundary_char b =
    within b'A' b'Z' b
    || within b'a' b'z' b
    || within b'0' b'9' b
    || b == b'\''
    || b == b'('
    || b == b')'
    || b == b'+'
    || b == b'_'
    || b == b','
    || b == b'-'
    || b == b'.'
    || b == b'/'
    || b == b':'
    || b == b'='
    || b == b'?'

abbrev pub all_boundary_chars : List ℕ → Bool
all_boundary_chars [] = true
all_boundary_chars (r ∷ rs) = is_boundary_char r && all_boundary_chars rs

abbrev is_some : Option ℕ → Bool
is_some none = false
is_some (some _) = true

-- `SetBoundary`
unfoldable pub set_boundary : Bytes → Writer → Writer × Option WriterError
set_boundary boundary w =
    if is_some w.lastpart
    then (w, some set_after_write)
    else if ltb (length boundary) 1 || ltb 69 (length boundary)
    then (w, some invalid_length)
    else if not (all_boundary_chars (runes boundary))
    then (w, some invalid_character)
    else (record w { boundary = boundary }, none)

-- `FormDataContentType`
unfoldable pub form_data_content_type : Writer → Bytes
form_data_content_type w = codes "multipart/form-data; boundary=" ++ w.boundary

-- `quoteEscaper`
unfoldable pub escape_quotes : Bytes → Bytes
escape_quotes [] = []
escape_quotes (b ∷ s) =
    if b == b'\\' || b == b'"' then b'\\' ∷ b ∷ escape_quotes s else b ∷ escape_quotes s

-- A change to the part at an index.
unfoldable pub change_part : ℕ → (Part → Part) → List Part → List Part
change_part i f [] = []
change_part zero f (p ∷ ps) = f p ∷ ps
change_part (suc i) f (p ∷ ps) = p ∷ change_part i f ps

abbrev pub error_of : Option Part → Option ℕ
error_of none = none
error_of (some p) = p.we

-- `part.close`
unfoldable pub close_part : ℕ → Writer → Writer × Option ℕ
close_part i w = (
  record w { parts = change_part i (λ p. record p { closed = true }) w.parts },
  error_of (get_elem? w.parts i),
)

-- the close of a part, where the pointer to it is not nil
unfoldable pub close_if : Option ℕ → Writer → Writer × Option ℕ
close_if none w = (w, none)
close_if (some i) w = close_part i w

abbrev pub close_last : Writer → Writer × Option ℕ
close_last w = close_if w.lastpart w

-- textproto's `MIMEHeader`, in an order in which `range` visits it
abbrev pub Header : Type 0
Header = List (Bytes × List Bytes)

abbrev pub crlf : Bytes
crlf = b'\r' ∷ b'\n' ∷ []

-- the lines of one key
unfoldable pub header_lines : Bytes → List Bytes → Bytes
header_lines k [] = []
header_lines k (v ∷ vv) = k ++ (codes ": " ++ (v ++ (crlf ++ header_lines k vv)))

unfoldable pub header_text : Header → Bytes
header_text [] = []
header_text ((k, vv) ∷ header) = header_lines k vv ++ header_text header

-- the line that opens a part
unfoldable pub delimiter : Option ℕ → Bytes → Bytes
delimiter none boundary = codes "--" ++ (boundary ++ crlf)
delimiter (some _) boundary = crlf ++ (codes "--" ++ (boundary ++ crlf))

-- the line that closes the message
unfoldable pub end_line : Bytes → Bytes
end_line boundary = crlf ++ (codes "--" ++ (boundary ++ (codes "--" ++ crlf)))

-- `p.we = err`, where there is an error
unfoldable pub record_error : ℕ → Writer × ℕ × Option ℕ → Writer × ℕ × Option WriterError
record_error i (w, n, none) = (w, n, none)
record_error i (w, n, some e) = (
  record w { parts = change_part i (λ p. record p { we = some e }) w.parts },
  n,
  some (write_error e),
)

-- The end of `CreatePart`: what the write has left becomes the new part, or the error.
abbrev pub add_part : Writer × ℕ × Option ℕ → Writer × Option ℕ × Option ℕ
add_part (w, n, some e) = (w, none, some e)
add_part (w, n, none) = (
  record w {
    parts = w.parts ++ record { closed = false; we = none } ∷ [];
    lastpart = some (length w.parts);
  },
  some (length w.parts),
  none,
)

module _ (sink : Sink) where
  -- a call of the underlying `Write`: the bytes taken, and the error
  unfoldable pub send : Bytes → Writer → Writer × ℕ × Option ℕ
  send chunk w = elim (sink w.out chunk) [
    | none ↦ (record w { out = w.out ++ chunk ∷ [] }, length chunk, none)
    | some (n, e) ↦ (record w { out = w.out ++ take n chunk ∷ [] }, n, some e)
  ]

  -- The part of `CreatePart` behind the close of the last part.
  unfoldable pub open_part : Header → Writer → Writer × Option ℕ × Option ℕ
  open_part header w =
      add_part (send (delimiter w.lastpart w.boundary ++ (header_text header ++ crlf)) w)

  abbrev pub open_after : Header → Writer × Option ℕ → Writer × Option ℕ × Option ℕ
  open_after header (w, some e) = (w, none, some e)
  open_after header (w, none) = open_part header w

  -- `CreatePart`: the new part, and the error
  unfoldable pub create_part : Header → Writer → Writer × Option ℕ × Option ℕ
  create_part header w = open_after header (close_last w)

  -- `part.Write`; an index that no part has stands for no pointer
  unfoldable pub part_write : ℕ → Bytes → Writer → Writer × ℕ × Option WriterError
  part_write i d w = elim (get_elem? w.parts i) [
    | none ↦ (w, 0, some finished_part)
    | some p ↦ if p.closed then (w, 0, some finished_part) else record_error i (send d w)
  ]

  abbrev pub end_after : Writer × Option ℕ → Writer × Option ℕ
  end_after (w, some e) = (w, some e)
  end_after (w, none) =
      let (w', n, err) = send (end_line w.boundary) (record w { lastpart = none }) in (w', err)

  -- `Close`
  unfoldable pub close : Writer → Writer × Option ℕ
  close w = end_after (close_last w)

  -- textproto's `MIMEHeader.Set`
  module _ (set : Header → Bytes → Bytes → Header) where
    abbrev pub form_data_name : Bytes → Bytes
    form_data_name fieldname = codes "form-data; name=\"" ++ (escape_quotes fieldname ++ codes "\"")

    -- `CreateFormFile`
    unfoldable pub create_form_file : Bytes → Bytes → Writer → Writer × Option ℕ × Option ℕ
    create_form_file fieldname filename =
        let disposition =
          form_data_name fieldname
          ++ (codes "; filename=\"" ++ (escape_quotes filename ++ codes "\"")) in
        create_part (
          set (set [] (codes "Content-Disposition") disposition) (codes "Content-Type")
            (codes "application/octet-stream"))

    -- `CreateFormField`
    unfoldable pub create_form_field : Bytes → Writer → Writer × Option ℕ × Option ℕ
    create_form_field fieldname =
        create_part (set [] (codes "Content-Disposition") (form_data_name fieldname))

    -- `WriteField`
    unfoldable pub write_field : Bytes → Bytes → Writer → Writer × Option WriterError
    write_field fieldname value w =
        let (w', made, err) = create_form_field fieldname w in
        elim made [
          | none ↦ (w', elim err [ none ↦ none | some e ↦ some (write_error e) ])
          | some i ↦ let (w'', n, err') = part_write i value w' in (w'', err')
        ]

-- unfolds what a test of this file computes with
unfoldable pub computes : Unit {0}
unfolding is_boundary_char set_boundary form_data_content_type escape_quotes change_part close_part
    close_if end_line header_lines header_text delimiter record_error send open_part create_part
    part_write close create_form_file create_form_field write_field Bytes.computes Runes.computes
computes = tt

abbrev accepting : Sink
accepting out chunk = none

abbrev two_parts : Writer
two_parts =
    let (a, p, _) =
      create_part accepting ((codes "K", codes "v" ∷ []) ∷ []) (new_writer (codes "b")) in
    let (b, _, _) = part_write accepting 0 (codes "text") a in
    let (c, q, _) = create_part accepting [] b in (close accepting c).0

two_parts_text :
    two_parts.out
    ≡ codes "--b\r\nK: v\r\n\r\n"
      ∷ codes "text"
      ∷ codes "\r\n--b\r\n\r\n"
      ∷ codes "\r\n--b--\r\n"
      ∷ []
unfolding computes
two_parts_text = refl
