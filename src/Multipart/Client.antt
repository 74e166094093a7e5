-- ===== src/Multipart/Client.antt =====
-- multipart/: a client that reads all parts of a message, and the parts that it can read.
use mime.Base.{ℕ, zero, suc, List, [], ◌∷◌, ◌++◌, Option, none, some, false, length, ◌≡◌, refl}
use mime.Base.Bytes.{Bytes, codes, equal, has_prefix, index}
use mime.Multipart.Bufio.{ReadError}
use mime.Multipart.Reader.{Part, Reader, Textproto, raw, ReaderError, next_part, drain}
use mime.Multipart.Writer.{Header, crlf, header_text}
use mime.Multipart.Writer.Message.{joined}

-- the separator between the parts
abbrev pub separator : Bytes → Bytes
separator boundary = crlf ++ (codes "--" ++ boundary)

-- what the client has of the parts
abbrev pub Received : Type 0
Received = Option (List (Header × Bytes) × Option ReaderError)

abbrev pub collect : Header × Bytes → Received → Received
collect part none = none
collect part (some (parts, err)) = some (part ∷ parts, err)

module _ (unicode_lower : ℕ → ℕ) (textproto : Textproto) where
  -- A client that reads each part to its end with slices of length `n`, and stops at the first error
  -- of `NextPart`; the fuel bounds the number of parts.
  unfoldable pub read_parts : ℕ → ℕ → Reader → Received
  read_parts zero n mr = none
  read_parts (suc fuel) n mr = elim (next_part unicode_lower textproto mr) [
    | none ↦ none
    | some (mr', none, err) ↦ some ([], err)
    | some (mr', some p, some e) ↦ some ([], some e)
    | some (mr', some p, none) ↦ elim (drain (suc (length mr'.buf.rest)) n p mr') [
      | none ↦ none
      | some (p', mr'', d, e) ↦ collect (p.header, d) (read_parts fuel n mr'')
    ]
  ]

  -- the rounds of the client, after the part and after its bytes
  abbrev pub after_drain : ℕ → ℕ → Header → Option (Part × Reader × Bytes × ReadError) → Received
  after_drain fuel n header r = elim r [
    | none ↦ none
    | some (p', mr'', d, e) ↦ collect (header, d) (read_parts fuel n mr'')
  ]

  abbrev pub after_next : ℕ → ℕ → Option (Reader × Option Part × Option ReaderError) → Received
  after_next fuel n r = elim r [
    | none ↦ none
    | some (mr', none, err) ↦ some ([], err)
    | some (mr', some p, some e) ↦ some ([], some e)
    | some (mr', some p, none) ↦
        after_drain fuel n p.header (drain (suc (length mr'.buf.rest)) n p mr')
  ]

  pub read_parts_next :
      (fuel n : ℕ) (mr : Reader)
      → read_parts (suc fuel) n mr ≡ after_next fuel n (next_part unicode_lower textproto mr)
  unfolding read_parts
  read_parts_next fuel n mr = refl

-- the part that is read under a header
abbrev pub raw_part : Header → Part
raw_part header = record {
  header = header;
  buffer = [];
  bytes_read = 0;
  disposition = ([], none);
  decoding = raw;
}

-- A part that can be read back: its header is read as it was written, and does not ask for a
-- decoder; its bytes do not begin with the boundary, and have no separator.
pub record Readable (textproto : Textproto) (boundary : Bytes) (part : Header × List Bytes)
    : Type 0 where
  pub reads :
      (s : Bytes)
      → textproto.read (record { rest = header_text part.0 ++ (crlf ++ s); fail = none })
        ≡ (part.0, none, record { rest = s; fail = none })
  pub not_quoted :
      equal (textproto.get part.0 (codes "Content-Transfer-Encoding")) (codes "quoted-printable")
      ≡ false
  pub no_boundary :
      has_prefix (joined part.1 ++ separator boundary) (codes "--" ++ boundary) ≡ false
  pub no_separator :
      index (joined part.1 ++ separator boundary) (separator boundary)
      ≡ some (length (joined part.1))
