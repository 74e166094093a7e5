-- ===== src/Multipart/Writer/Rfc2046.antt =====
-- multipart/writer.go: the message that a client of the writer makes is a multipart body of RFC 2046.
use mime.Base.{List, [], ◌∷◌, ◌++◌, map, none, some, ◌≡◌, refl, ◌∙◌, append_assoc}
use mime.Base.Bytes.{Bytes, codes}
use mime.Multipart.Writer.{
  Header, Sink, new_writer, close, delimiter, header_lines, header_text, end_line,
}
use mime.Multipart.Writer.Message.{
  Accepts, Content, joined, parts_text, write_parts, close-parts_text,
}

-- The grammar of RFC 2046, section 5.1.1, with no preamble and no epilogue.
abbrev field : Bytes → Bytes → Bytes
field key value = key ++ (codes ": " ++ (value ++ codes "\r\n"))

abbrev fields : Header → Bytes
fields [] = []
fields ((key, values) ∷ header) = joined (map (field key) values) ++ fields header

abbrev body_part : Header × List Bytes → Bytes
body_part (header, chunks) = fields header ++ (codes "\r\n" ++ joined chunks)

abbrev dash_boundary : Bytes → Bytes
dash_boundary boundary = codes "--" ++ boundary

abbrev encapsulations : Bytes → Content → Bytes
encapsulations boundary [] = []
encapsulations boundary (part ∷ parts) =
    (codes "\r\n" ++ (dash_boundary boundary ++ (codes "\r\n" ++ body_part part)))
    ++ encapsulations boundary parts

abbrev close_delimiter : Bytes → Bytes
close_delimiter boundary = codes "\r\n" ++ (dash_boundary boundary ++ codes "--")

unfoldable pub multipart_body : Bytes → Content → Bytes
multipart_body boundary [] = close_delimiter boundary ++ codes "\r\n"
multipart_body boundary (part ∷ parts) =
    (dash_boundary boundary ++ (codes "\r\n" ++ body_part part))
    ++ (encapsulations boundary parts ++ (close_delimiter boundary ++ codes "\r\n"))

header_lines-field :
    (key : Bytes) (values : List Bytes) → header_lines key values ≡ joined (map (field key) values)
unfolding header_lines joined
header_lines-field key [] = refl
header_lines-field key (v ∷ vs) = simp (append_assoc, header_lines-field key vs)

header_text-fields : (header : Header) → header_text header ≡ fields header
unfolding header_text
header_text-fields [] = refl
header_text-fields ((key, values) ∷ header) =
    rw (header_lines-field key values, header_text-fields header) refl

end_line-close : (boundary : Bytes) → end_line boundary ≡ close_delimiter boundary ++ codes "\r\n"
unfolding end_line
end_line-close boundary = simp append_assoc

parts_text-encapsulations :
    (boundary : Bytes) (c : Content) → parts_text boundary (some 0) c ≡ encapsulations boundary c
unfolding parts_text delimiter
parts_text-encapsulations boundary [] = refl
parts_text-encapsulations boundary ((header, ds) ∷ rest) =
    rw (header_text-fields header, parts_text-encapsulations boundary rest) (simp append_assoc)

message_text :
    (boundary : Bytes) (c : Content)
    → parts_text boundary none c ++ end_line boundary ≡ multipart_body boundary c
unfolding parts_text delimiter multipart_body
message_text boundary [] = end_line-close boundary
message_text boundary ((header, ds) ∷ rest) =
    rw (header_text-fields header, parts_text-encapsulations boundary rest, end_line-close boundary)
      (simp append_assoc)

module _ (sink : Sink) (accepts : Accepts sink) (boundary : Bytes) where
  -- With an underlying writer that takes all: what a client of `CreatePart`, `Write` and `Close` has
  -- sent is the multipart body of RFC 2046 with these parts: the delimiters, the fields of the
  -- headers in the order of `range` with an empty line behind them, the bytes written, and the
  -- closing delimiter; and `Close` gives no error.
  pub close-write_parts :
      (c : Content)
      → (joined (close sink (write_parts sink c (new_writer boundary))).0.out
          ≡ multipart_body boundary c)
        × ((close sink (write_parts sink c (new_writer boundary))).1 ≡ none)
  close-write_parts c =
      let (sent, ok) = close-parts_text sink accepts boundary c in
      (sent ∙ message_text boundary c, ok)
