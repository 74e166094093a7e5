-- ===== src/Lib.antt =====
-- A verification library for the Go package mime and its parts for quoted-printable text.
--
-- A byte string is a list of numbers. What the code takes from Go's standard library (ranges over
-- the runes of a string, `strings.Index`, `TrimSpace`, `ToLower`, `EqualFold`, base64) is modelled
-- in Base/Bytes.antt, Runes.antt, Runes/Strings.antt and EncodedWord/Base64.antt. A loop over the
-- runes of a string recurs on its bytes, with a counter of the bytes of a rune still to be passed
-- over. The table of `unicode.ToLower` from U+0080 on is the parameter `unicode_lower`.
--
-- - grammer.go: Grammar.antt. `isTSpecial` is `is_t_special`, and so on. Grammar/Tokens.antt says
--   which bytes a scan over runes for a token stops at.
-- - mediatype.go: the readers of a token, a value and a parameter in MediaType/Consume.antt,
--   percent escapes and RFC 2231 charsets in MediaType/Percent.antt, `PMTErr` and the checks of
--   the media type in MediaType/Errors.antt, `FormatMediaType` in MediaType/Format.antt and
--   `ParseMediaType` in MediaType/Parse.antt. A Go map is an association list (Base/Dict.antt).
--   The loop of `ParseMediaType` over the parameters has the length of the header for fuel, and
--   each of its rounds that goes on takes at least one byte off; the loop over the numbered pieces
--   of a parameter has one more than the number of pieces, as it finds each piece once. The
--   continuations, which Go visits in any order, are visited in the order of their names in the
--   header. `gerr`, which may point to the `PMTErr` that later rounds add to, is a flag of the
--   state.
-- - encodedword.go: EncodedWord/QEncoding.antt, EncodedWord/Encode.antt, EncodedWord/Decode.antt
--   and EncodedWord/Header.antt (`DecodeHeader`, whose loop has the length of the header for fuel:
--   each round leaves a shorter one). A function that writes to a buffer gives what it appends. A
--   `CharsetReader` is a parameter; an index out of range is the error `index_panic`.
--   EncodedWord/Words.antt says which texts the two encoders write, word by word, and
--   EncodedWord/HeaderRoundTrip.antt reads them.
-- - quotedprintable/writer.go: QuotedPrintable/Writer.antt, over an underlying writer that may
--   refuse any of its calls. `w.line[:w.i]` is one list. The calls of a method after one that
--   returned an error are skipped as in the source. QuotedPrintable/Spec.antt is a decoder by RFC
--   2045, and QuotedPrintable/Padding.antt has the deletion of blanks in front of it.
-- - quotedprintable/qputf8.go: QuotedPrintable/Utf8.antt. The state of the underlying reader and its
--   `Read` are parameters; an index out of range is `none`. QuotedPrintable/Utf8/Spec.antt is the
--   specification, with no buffers.
-- - quotedprintable/reader.go: QuotedPrintable/Reader.antt. The texts of its errors are left out. The
--   loop of `Read` has fuel, for which QuotedPrintable/ReaderWork.antt has a bound.
-- - multipart/writer.go: Multipart/Writer.antt. The parts that a writer has made are a list, and a
--   pointer to one is its index, so that a part that is closed elsewhere is seen to be closed. What
--   `randomBoundary` gives is an argument of `new_writer`.
--   Multipart/Writer/Rfc2046.antt has the grammar of RFC 2046 that a message is measured against.
-- - multipart/multipart.go: Multipart/Bufio.antt is `bufio.Reader` over a source that gives all
--   its bytes and then an error, Multipart/Lines.antt has the tests on lines and on what was read
--   ahead, Multipart/Reader.antt has `NextPart`, `CheckNextPart`, `newPart`, `partReader.Read`,
--   `FormName` and `FileName`. The package textproto is the parameter `Textproto`. A slice of an
--   empty `nl` is a panic, which is `none`. `Part.Close` and `Part.Read` are those of a part with
--   no decoder. The loops over lines have one more than the number of bytes for fuel: a line has a
--   byte at least. Multipart/Client.antt is a client that reads all parts. Of its two kinds of
--   fuel, one bounds the number of parts, and a part has one read more than there are bytes: each
--   read but the last gives a byte at least.
-- - type.go: TypeTable.antt. A call runs alone, so that the locks are left out; a panic is `none`.
--   TypeTable/Files.antt has type_unix.go and the start of the tables, over a system of files that is
--   a parameter.
-- - multipart/formdata.go: Multipart/Form.antt, and Multipart/Form/Read.antt for `ReadForm`. It takes
--   the methods that it calls of a reader and its parts as the record `Source`, and what it calls of
--   os and ioutil as `Os`. Its loop and its copies have fuel: the laws of `Source` have a measure of
--   what is left to read, which every read and every part makes smaller. `maxMemory` is not negative.
--   Multipart/Form/Steps.antt has the changes of the form and the files as a relation of steps, and
--   Multipart/Form/Plain.antt takes the reader of multipart/multipart.go as a `Source`, for parts with
--   no decoder.
--
-- Not modelled: the text of `PMTErr.Error`, the buffer pool of encodedword.go, the
-- decoders that multipart/multipart.go puts over a part, and the closing of temporary files.
mod Base
mod Runes
mod Grammar
mod MediaType
mod EncodedWord
mod QuotedPrintable
mod Multipart
mod TypeTable
mod Tests
