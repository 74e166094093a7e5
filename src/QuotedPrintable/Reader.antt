-- ===== src/QuotedPrintable/Reader.antt =====
-- quotedprintable/reader.go. `r.last` is always the front of `r.prev`, or what a read has left of it,
-- and `r.prev` is only written just before `r.last` is taken from it again, so that both are values.
use mime.Base.Bytes
use mime.Multipart.Bufio
use mime.Base.Array
use mime.Base.{
  ℕ, zero, suc, ◌+◌, ◌-◌, ◌*◌, ◌%◌, List, [], ◌∷◌, ◌++◌, reverse, Bool, true, false, ◌||◌, Option,
  none, some, ltb, ◌==◌, if◌then◌else◌, within, take, drop, length, ◌≡◌, refl,
}
use Prim.Native.String.{String}
use mime.Base.Array.{◌>>=◌, store}
use mime.Base.Bytes.{Bytes, codes, has_prefix, has_suffix}
use mime.Base.Result.{Result, ok, err}
use mime.Multipart.Bufio.{ReadError, eof, buffer_full, failed, BufReader, read_slice}

pub data QpError : Type 0 where
  invalid_hex : ℕ → QpError
  unexpected_eof : QpError
  bytes_after_equals : Bytes → QpError
  unescaped_byte : ℕ → QpError
  read_error : ReadError → QpError

-- `RErr`: the errors that are recorded, and the one that ends the reading
pub record RErr : Type 0 where
  pub errs : List QpError
  pub err : Option QpError

abbrev pub max_qpr_err : ℕ
max_qpr_err = 4

abbrev pub max_qp_buf : ℕ
max_qp_buf = 3

-- `add` of an error that is not nil
unfoldable pub add : QpError → RErr → RErr
add e q = if length q.errs == max_qpr_err then q else record q { errs = q.errs ++ (e ∷ []) }

-- `addUnrecover`
unfoldable pub add_unrecover : Option ReadError → RErr → RErr
add_unrecover none q = q
add_unrecover (some e) q = record q { err = some (read_error e) }

abbrev pub first_or : List QpError → Option QpError → Option QpError
first_or [] o = o
first_or (e ∷ es) o = some e

-- `getErr`
unfoldable pub get_err : RErr → Option QpError
get_err q = first_or q.errs q.err

-- `Reader`; `strict` says which of the two functions stands in `Fn`
pub record Reader : Type 0 where
  pub strict : Bool
  pub br : BufReader
  pub gerr : RErr
  pub rerr : Option QpError
  pub line : Bytes
  pub prev : List ℕ
  pub last : Bytes

-- `NewReader` and `NewStrictReader`
abbrev pub new_reader : Bool → BufReader → Reader
new_reader strict br = record {
  strict = strict;
  br = br;
  gerr = record { errs = []; err = none };
  rerr = none;
  line = [];
  prev = 0 ∷ 0 ∷ 0 ∷ 0 ∷ [];
  last = [];
}

-- `r.Fn()`
unfoldable pub fn : Reader → Option QpError
fn r = if r.strict then get_err r.gerr else r.gerr.err

unfoldable pub from_hex : ℕ → Result QpError ℕ
from_hex b =
    if within b'0' b'9' b
    then ok (b - b'0')
    else if within b'A' b'F' b
    then ok (b - b'A' + 10)
    else if within b'a' b'f' b
    then ok (b - b'a' + 10)
    else err (invalid_hex b)

-- `hb<<4 | lb` in a byte, where `hb` was read
abbrev pub low_half : ℕ → Result QpError ℕ → Result QpError ℕ
low_half hb (ok lb) = ok (hb * 16 % 256 + lb)
low_half hb (err e) = err e

abbrev pub both_halves : Result QpError ℕ → ℕ → Result QpError ℕ
both_halves (ok hb) b = low_half hb (from_hex b)
both_halves (err e) b = err e

unfoldable pub read_hex_byte : Bytes → Result QpError ℕ
read_hex_byte [] = err unexpected_eof
read_hex_byte (a ∷ []) = err unexpected_eof
read_hex_byte (a ∷ b ∷ _) = both_halves (from_hex a) b

abbrev pub is_qp_discard_whitespace : ℕ → Bool
is_qp_discard_whitespace r = r == b'\n' || r == b'\r' || r == b' ' || r == b'\t'

unfoldable pub trim_left : Bytes → Bytes
trim_left [] = []
trim_left (b ∷ s) = if is_qp_discard_whitespace b then trim_left s else b ∷ s

-- `bytes.TrimRightFunc` with `isQPDiscardWhitespace`, whose characters are single bytes
unfoldable pub trim_right : Bytes → Bytes
trim_right s = reverse (trim_left (reverse s))

abbrev lf : Bytes
lf = b'\n' ∷ []

abbrev crlf : Bytes
crlf = b'\r' ∷ b'\n' ∷ []

abbrev read_error_of : Option ReadError → Option QpError
read_error_of none = none
read_error_of (some e) = some (read_error e)

-- what becomes of a line: the bytes, and what stands behind its `=` if that is no line end
unfoldable pub cook : Bytes → Bytes × Option Bytes
cook whole =
    let line = trim_right whole in
    let stripped = drop (length line) whole in
    if has_suffix line (b'=' ∷ [])
    then (
      take (length line - 1) line,
      if has_prefix stripped lf || has_prefix stripped crlf then none else some stripped,
    )
    else if has_suffix whole lf
    then (line ++ (if has_suffix whole crlf then crlf else lf), none)
    else (line, none)

abbrev pub with_line : Bytes × Option Bytes → Option ReadError → BufReader → Reader → Reader
with_line (line, none) e br r = record r {
  br = br;
  line = line;
  rerr = read_error_of e;
  gerr = add_unrecover e r.gerr;
}
with_line (line, some after) e br r = record r {
  br = br;
  line = line;
  rerr = some (bytes_after_equals after);
  gerr = add (bytes_after_equals after) (add_unrecover e r.gerr);
}

-- the line that `ReadSlice` gave
unfoldable pub take_line : Bytes × Option ReadError × BufReader → Reader → Reader
take_line (line, some buffer_full, br) r = record r {
  br = br;
  line = line;
  rerr = some (read_error buffer_full);
  gerr = add (read_error buffer_full) r.gerr;
}
take_line (line, some eof, br) r = with_line (cook line) (some eof) br r
take_line (line, some (failed e), br) r = with_line (cook line) (some (failed e)) br r
take_line (line, none, br) r = with_line (cook line) none br r

-- A round of the loop of `Read`: it returns, it gives a byte, or it goes on.
pub data Round : Type 0 where
  returns : Reader → Bytes → QpError → Round
  gives : Reader → ℕ → Round
  goes_on : Reader → Round

-- the round where the line is empty, with room for `n` bytes
unfoldable pub fill : ℕ → Reader → Round
fill n r = elim (fn r) [
  | some e ↦ returns (record r { last = drop n r.last }) (take n r.last) e
  | none ↦ goes_on (take_line (read_slice r.br) r)
]

-- the bytes stored in the array from an index on; `none` is a panic
unfoldable pub store_all : Bytes → ℕ → List ℕ → Option (List ℕ)
store_all [] i prev = some prev
store_all (b ∷ s) i prev = store prev i b >>= λ prev'. store_all s (suc i) prev'

abbrev pub is_cut : QpError → Option QpError → Bool
is_cut unexpected_eof (some (read_error buffer_full)) = true
is_cut _ _ = false

-- all of the line held back, with `n` bytes in the array
abbrev pub hold : ℕ → Reader → Option (List ℕ) → Option Round
hold n r none = none
hold n r (some prev) = some (goes_on (record r { prev = prev; last = take n prev; line = [] }))

-- the round for a `=` in the line with `s` behind it
abbrev pub escape : Bytes → Result QpError ℕ → Reader → Option Round
escape s (ok b) r = some (gives (record r { line = drop 2 s }) b)
escape s (err e) r =
    if is_cut e r.rerr
    then hold (suc (length s)) r (store_all (b'=' ∷ s) 0 r.prev)
    else some (gives (record r { line = s; gerr = add e r.gerr }) b'=')

abbrev pub literal : ℕ → Bytes → Reader → Round
literal b s r =
    if b == b'\t' || b == b'\r' || b == b'\n'
    then gives (record r { line = s }) b
    else if ltb b b' ' || ltb b'~' b
    then gives (record r { line = s; gerr = add (unescaped_byte b) r.gerr }) b
    else gives (record r { line = s }) b

-- the round where nothing is held back; `none` is a panic
unfoldable pub plain : Bytes → Reader → Option Round
plain [] r = none
plain (b ∷ s) r = if b == b'=' then escape s (read_hex_byte s) r else some (literal b s r)

-- the bytes held back, after `=` was completed
abbrev pub completed : List ℕ → Bytes → Result QpError ℕ → Reader → Round
completed prev s (ok b) r =
    gives (record r { prev = prev; line = s; last = drop 3 (take max_qp_buf prev) }) b
completed prev s (err e) r =
    gives
      (record r {
        prev = prev;
        line = s;
        last = drop 1 (take max_qp_buf prev);
        gerr = add e r.gerr;
      })
      b'='

-- the rest of an escape, of which `n` bytes are held back
unfoldable pub complete : ℕ → Reader → Option Round
complete n r =
    let diff = max_qp_buf - n in
    if ltb (length r.line) diff
    then none
    else store_all (take diff r.line) n r.prev >>= λ prev.
        some (completed prev (drop diff r.line) (read_hex_byte (drop 1 (take max_qp_buf prev))) r)

-- the round where a line end follows the `=` that is held back
abbrev pub soft_break : Bytes → Reader → Option Round
soft_break [] r = some (goes_on (record r { line = []; last = [] }))
soft_break (b ∷ s) r = plain (b ∷ s) (record r { line = b ∷ s; last = [] })

-- the round where bytes are held back, the first of which is given
unfoldable pub held : ℕ → Bytes → Reader → Option Round
held b s r =
    if b == b'='
    then if length s == 0
      then if has_prefix r.line lf
        then soft_break (drop 1 r.line) r
        else if has_prefix r.line crlf
        then soft_break (drop 2 r.line) r
        else if ltb (length r.line) 2
        then hold 2 r (store_all r.line 1 r.prev)
        else complete 1 r
      else complete (suc (length s)) r
    else some (gives (record r { last = s }) b)

abbrev pub with_last : Bytes → Reader → Option Round
with_last [] r = plain r.line r
with_last (b ∷ s) r = held b s r

-- a round of `Read` with room for `n` bytes
unfoldable pub round : ℕ → Reader → Option Round
round n r = if length r.line == 0 then some (fill n r) else with_last r.last r

abbrev pub ReadResult : Type 0
ReadResult = Reader × Bytes × Option QpError

abbrev pub put : ℕ → ReadResult → ReadResult
put b (r, d, e) = (r, b ∷ d, e)

-- `Read` into `n` bytes, on fuel: what was written and the error. `none` is a panic, or too little
-- fuel.
unfoldable pub read : ℕ → ℕ → Reader → Option ReadResult
read fuel zero r = some (r, [], none)
read zero (suc n) r = none
read (suc fuel) (suc n) r = elim (round (suc n) r) [
  | none ↦ none
  | some (returns r' d e) ↦ some (r', d, some e)
  | some (goes_on r') ↦ read fuel (suc n) r'
  | some (gives r' b) ↦ read fuel n r' >>= λ q. some (put b q)
]

-- unfolds what a test of this file computes with
unfoldable pub computes : Unit {0}
unfolding add add_unrecover get_err fn from_hex read_hex_byte trim_left trim_right cook take_line
    fill store_all plain complete held round read Bytes.computes Array.computes Bufio.computes
computes = tt

abbrev of_text : String → Reader
of_text s = new_reader false (record { rest = codes s; fail = none })

abbrev given : Option ReadResult → Option (Bytes × Option QpError)
given none = none
given (some (r, d, e)) = some (d, e)

read_text :
    (given (read 40 20 (of_text "a=3Db \t\r\nc=\r\nd=3x="))
      ≡ some (codes "a=b\r\ncd=3x", some (read_error eof)))
    × (given (read 40 3 (of_text "a=3Db")) ≡ some (codes "a=b", none))
unfolding computes
read_text = (refl, refl)

-- With `=` held back, `=Zabc` on the line and no more to come, `==Zabc` would be right.
overwritten_text :
    given (
      read 40 20 (record (of_text "") {
        line = codes "=Zabc";
        prev = b'=' ∷ 0 ∷ 0 ∷ 0 ∷ [];
        last = codes "=";
      }))
    ≡ some (codes "=====c", some (read_error eof))
unfolding computes
overwritten_text = refl
