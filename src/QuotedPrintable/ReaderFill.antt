-- ===== src/QuotedPrintable/ReaderFill.antt =====
-- quotedprintable/reader.go: the round of `Read` that takes a new line.
use mime.Base.{
  ℕ, suc, ◌+◌, ◌-◌, ◌*◌, ◌<◌, ◌≤◌, List, [], ◌∷◌, reverse, Bool, true, false, Option, none, some,
  leb, if◌then◌else◌, take, drop, length, ◌≡◌, ap, sym, ◌∙◌, inl, inr, arith, Bool-cases,
  Option-cases, length-drop, length-append, length-reverse, take-append-drop, leb→le,
}
use mime.Base.Bytes.{Bytes, has_suffix, index_byte}
use mime.Multipart.Bufio.{
  ReadError, eof, buffer_full, failed, BufReader, buffer_size, end_error, upto, read_slice,
}
use mime.QuotedPrintable.Reader.{
  QpError, bytes_after_equals, read_error, add_unrecover, Reader, fn, get_err, first_or, cook,
  with_line, take_line, fill, trim_left, trim_right, returns, goes_on,
}
use mime.QuotedPrintable.ReaderWork.{IsValid, Works, add-pending, length-take, pending, work}

length-trim_left : (s : Bytes) → length (trim_left s) ≤ length s
unfolding trim_left
length-trim_left [] = omega arith
length-trim_left (b ∷ s) = ground (arith, length-trim_left s)

length-trim_right : (s : Bytes) → length (trim_right s) ≤ length s
unfolding trim_right
length-trim_right s =
    omega (
      arith,
      length-reverse (trim_left (reverse s)),
      length-trim_left (reverse s),
      length-reverse s,
    )

if-length :
    (n : ℕ) (b : Bool) (x y : Bytes × Option Bytes)
    → length x.0 ≤ n
    → length y.0 ≤ n
    → length (if b then x else y).0 ≤ n
if-length n true x y h k = h
if-length n false x y h k = k

line_end_short : (b : Bool) → length {A = ℕ} (if b then (b'\r' ∷ b'\n' ∷ []) else (b'\n' ∷ [])) ≤ 2
line_end_short true = omega arith
line_end_short false = omega arith

length-cook : (s : Bytes) → length (cook s).0 ≤ length s + 2
unfolding cook
length-cook s =
    let n = length s + 2 in
    let line = trim_right s in
    if-length n (has_suffix line (b'=' ∷ [])) _ _
      (omega (arith, length-take (length line - 1) line, length-trim_right s))
      (if-length n (has_suffix s (b'\n' ∷ [])) _ _
        (omega (
          arith,
          length-append line
              (if has_suffix s (b'\r' ∷ b'\n' ∷ []) then (b'\r' ∷ b'\n' ∷ []) else (b'\n' ∷ [])),
          line_end_short (has_suffix s (b'\r' ∷ b'\n' ∷ [])),
          length-trim_right s,
        ))
        (omega (arith, length-trim_right s)))

-- What `ReadSlice` gives: bytes in front of what is left, some of them unless an error of the source
-- comes.
Slice : BufReader → Bytes × Option ReadError × BufReader → Type 0
Slice b (line, none, b') = (length line + length b'.rest ≡ length b.rest) × (1 ≤ length line)
Slice b (line, some buffer_full, b') =
    (length line + length b'.rest ≡ length b.rest) × (1 ≤ length line)
Slice b (line, some eof, b') = length line + length b'.rest ≡ length b.rest
Slice b (line, some (failed e), b') = length line + length b'.rest ≡ length b.rest

take-and-drop : (n : ℕ) (s : Bytes) → length (take n s) + length (drop n s) ≡ length s
take-and-drop n s =
    sym (length-append (take n s) (drop n s)) ∙ ap (λ t. length t) (take-append-drop n s)

no_line : (i : ℕ) (s : Bytes) → index_byte (take buffer_size s) b'\n' ≡ some i → 0 < length s
unfolding index_byte
no_line i [] e = cc
no_line i (c ∷ s) e = omega arith

taken : (n : ℕ) (s : Bytes) → 0 < length s → 1 ≤ length (take (suc n) s)
taken n [] h = absurd (omega arith)
taken n (b ∷ s) h = omega arith

at_end :
    (b : BufReader) (fail : Option ℕ)
    → length (take (length b.rest) b.rest) + length (drop (length b.rest) b.rest) ≡ length b.rest
    → Slice b (upto (length b.rest) (some (end_error fail)) b)
unfolding Slice
at_end b none h = h
at_end b (some e) h = h

read_slice-Slice : (b : BufReader) → Slice b (read_slice b)
unfolding read_slice Slice
read_slice-Slice b = elim (Option-cases (index_byte (take buffer_size b.rest) b'\n')) [
  | inl e ↦ elim (Bool-cases (leb buffer_size (length b.rest))) [
    | inl h ↦
        rw (e, read_slice, h)
          (
            take-and-drop 4096 b.rest,
            taken 4095 b.rest (omega (arith, leb→le buffer_size (length b.rest) h)),
          )
    | inr h ↦ rw (e, read_slice, h) (at_end b b.fail (take-and-drop (length b.rest) b.rest))
  ]
  | inr (i, e) ↦
      rw (e, read_slice) (take-and-drop (suc i) b.rest, taken i b.rest (no_line i b.rest e))
]

with_line-Works :
    (m : ℕ) (c : Bytes × Option Bytes) (e : Option ReadError) (br : BufReader) (r : Reader)
    → IsValid r
    → 7 * length br.rest + 2 * length c.0 + pending (add_unrecover e r.gerr).err
      < 7 * length r.br.rest + 2 * length r.line + pending r.gerr.err
    → Works m (work r) (some (goes_on (with_line c e br r)))
unfolding Works
with_line-Works m (line, none) e br r v h =
    (record { array = v.array; held_back = v.held_back }, omega (arith, h))
with_line-Works m (line, some after) e br r v h = (
  record { array = v.array; held_back = v.held_back },
  omega (arith, h, add-pending (bytes_after_equals after) (add_unrecover e r.gerr)),
)

take_line-Works :
    (m : ℕ) (x : Bytes × Option ReadError × BufReader) (r : Reader)
    → IsValid r
    → r.line ≡ []
    → r.gerr.err ≡ none
    → Slice r.br x
    → Works m (work r) (some (goes_on (take_line x r)))
unfolding take_line Slice Works
take_line-Works m (line, none, br) r v z e (h, l) =
    unfold add_unrecover in
    with_line-Works m (cook line) none br r v (omega (arith, h, l, length-cook line))
take_line-Works m (line, some buffer_full, br) r v z e (h, l) = (
  record { array = v.array; held_back = v.held_back },
  omega (arith, h, l, add-pending (read_error buffer_full) r.gerr),
)
take_line-Works m (line, some eof, br) r v z e h =
    unfold add_unrecover in
    with_line-Works m (cook line) (some eof) br r v
      (omega (arith, h, length-cook line, ap pending e))
take_line-Works m (line, some (failed x), br) r v z e h =
    unfold add_unrecover in
    with_line-Works m (cook line) (some (failed x)) br r v
      (omega (arith, h, length-cook line, ap pending e))

none_given :
    (strict : Bool) (errs : List QpError) (e : Option QpError)
    → (if strict then first_or errs e else e) ≡ none
    → e ≡ none
none_given true [] e h = h
none_given true (x ∷ errs) e h = cc
none_given false errs e h = h

-- With no error to return, the source has given none.
fn-none : (r : Reader) → fn r ≡ none → r.gerr.err ≡ none
unfolding fn get_err
fn-none r h = none_given r.strict r.gerr.errs r.gerr.err h

returned :
    (m : ℕ) (r : Reader) (x : QpError)
    → IsValid r
    → Works m (work r) (some (returns (record r { last = drop m r.last }) (take m r.last) x))
unfolding Works
returned m r x v = (
  record { array = v.array; held_back = omega (arith, v.held_back, length-drop m r.last) },
  length-take m r.last,
)

pub fill-Works : (m : ℕ) (r : Reader) → IsValid r → r.line ≡ [] → Works m (work r) (some (fill m r))
unfolding fill
fill-Works m r v z = elim (Option-cases (fn r)) [
  | inl e ↦
      rw (fill, e) (take_line-Works m (read_slice r.br) r v z (fn-none r e) (read_slice-Slice r.br))
  | inr (x, e) ↦ rw (fill, e) (returned m r x v)
]
