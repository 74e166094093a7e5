-- ===== src/Multipart/Bufio.antt =====
-- Go's `bufio.Reader` with a buffer of 4096 bytes, over a source that gives all its bytes and then
-- an error again and again: the end of the file, or an error named by a number.
use mime.Base.Bytes
use mime.Base.{ℕ, suc, Option, none, some, ltb, leb, if◌then◌else◌, take, drop, length}
use mime.Base.Bytes.{Bytes, codes, index_byte}

pub data ReadError : Type 0 where
  eof buffer_full : ReadError
  failed : ℕ → ReadError

-- what is still to be read, and the error behind it; `none` is the end of the file
pub record BufReader : Type 0 where
  pub rest : Bytes
  pub fail : Option ℕ

abbrev pub buffer_size : ℕ
buffer_size = 4096

abbrev pub end_error : Option ℕ → ReadError
end_error none = eof
end_error (some e) = failed e

abbrev pub upto : ℕ → Option ReadError → BufReader → Bytes × Option ReadError × BufReader
upto n e b = (take n b.rest, e, record b { rest = drop n b.rest })

-- `ReadSlice('\n')`
unfoldable pub read_slice : BufReader → Bytes × Option ReadError × BufReader
read_slice b = elim (index_byte (take buffer_size b.rest) b'\n') [
  | some i ↦ upto (suc i) none b
  | none ↦
      if leb buffer_size (length b.rest)
      then upto buffer_size (some buffer_full) b
      else upto (length b.rest) (some (end_error b.fail)) b
]

-- `Peek(n)`, where `n` is not above the size of the buffer
unfoldable pub peek : ℕ → BufReader → Bytes × Option ReadError
peek n b = (take n b.rest, if ltb (length b.rest) n then some (end_error b.fail) else none)

-- the bytes that `io.CopyN` takes from the reader
abbrev pub skip : ℕ → BufReader → BufReader
skip n b = record b { rest = drop n b.rest }

-- unfolds what a test computes with
unfoldable pub computes : Unit {0}
unfolding read_slice peek Bytes.computes
computes = tt
