-- ===== src/Multipart/Returns.antt =====
-- multipart/multipart.go: where a slice of `nl` is no panic, and the loop of `CheckNextPart`.
use mime.Base.Array.{◌>>=◌}
use mime.Base.{
  ℕ, zero, suc, ◌<◌, ◌≤◌, ◌⊎◌, ◌&&◌, not, drop, [], ◌∷◌, Bool, true, false, Option, none, some, leb,
  ◌==◌, if◌then◌else◌, take, length, ◌≡◌, refl, ap, ◌∙◌, inl, inr, arith, Bool-cases, length-drop,
  Option-cases,
}
use mime.Base.Bytes.{Bytes, equal, equal_iff, has_prefix, index_byte}
use mime.Multipart.Bufio.{
  peek, ReadError, eof, buffer_full, failed, BufReader, buffer_size, read_slice,
}
use mime.Multipart.Writer.{crlf}
use mime.Multipart.Lines.{
  Marks, switch_nl, is_empty, skip_lwsp_char, is_final_boundary, is_boundary_delimiter_line,
}
use mime.Multipart.Reader.{
  Reader, ReaderError, goes_on, panics, check_tested, CheckOutcome, checked, check_line, check_loop,
  check_next_part,
}

-- A line with no error takes a byte at least.
abbrev pub Shorter : BufReader → Bytes × Option ReadError × BufReader → Type 0
Shorter b (line, e, b') = (e ≡ none) → length b'.rest < length b.rest

no_line : (i : ℕ) (s : Bytes) → index_byte (take buffer_size s) b'\n' ≡ some i → 0 < length s
unfolding index_byte
no_line i [] e = cc
no_line i (c ∷ s) e = omega arith

pub read_slice-Shorter : (b : BufReader) → Shorter b (read_slice b)
unfolding read_slice
read_slice-Shorter b = elim (Option-cases (index_byte (take buffer_size b.rest) b'\n')) [
  | inl e ↦ elim (Bool-cases (leb buffer_size (length b.rest))) [
    | inl h ↦ rw (e, read_slice, h) (λ f. cc)
    | inr h ↦ rw (e, read_slice, h) (λ f. cc)
  ]
  | inr (i, e) ↦
      rw (e, read_slice) (λ f. omega (arith, length-drop (suc i) b.rest, no_line i b.rest e))
]

-- Whether a slice of `nl` may be a panic: lines still end in CRLF, or a part was read.
abbrev pub IsSliceable : ℕ → Marks → Type 0
IsSliceable parts_read mr = (0 < parts_read) ⊎ (mr.nl ≡ crlf)

-- What `isBoundaryDelimiterLine` gives there: no panic, and the marks change only where the line
-- delimits, and get no longer.
abbrev pub Tested : Marks → Option (Marks × Bool) → Type 0
Tested mr none = ⊥
Tested mr (some (mr', delimits)) =
    ((delimits ≡ true) ⊎ (mr' ≡ mr)) × (length mr'.nl_dash_boundary ≤ length mr.nl_dash_boundary)

and_false : (b : Bool) → (b && false) ≡ false
and_false true = refl
and_false false = refl

-- a switch from CRLF
switched-Tested :
    (mr mr' : Marks) (nl rest : Bytes)
    → nl ≡ crlf
    → rest ≡ b'\n' ∷ []
    → length mr'.nl_dash_boundary ≤ length mr.nl_dash_boundary
    → Tested mr (if is_empty nl && true then none else some (mr', equal rest (drop 1 nl)))
unfolding equal
switched-Tested mr mr' nl rest e f l = rw (e, f) (inl refl, l)

Tested-if :
    (k : ℕ) (mr : Marks) (rest : Bytes) (switches : Bool)
    → IsSliceable k mr
    → (switches ≡ true → (k ≡ 0) × (rest ≡ b'\n' ∷ []))
    → Tested mr (
        let mr' = if switches then switch_nl mr else mr in
        if is_empty mr.nl && switches then none else some (mr', equal rest mr'.nl))
unfolding switch_nl
Tested-if k mr rest false h e = rw (and_false (is_empty mr.nl)) (inr refl, omega arith)
Tested-if k mr rest true (inl h) e = absurd (omega (arith, h, (e refl).0))
Tested-if k mr rest true (inr h) e =
    switched-Tested mr _ mr.nl rest h (e refl).1 (omega (arith, length-drop 1 mr.nl_dash_boundary))

if-Tested :
    (mr : Marks) (b : Bool) (o q : Option (Marks × Bool))
    → Tested mr o
    → Tested mr q
    → Tested mr (if b then o else q)
if-Tested mr true o q h k = h
if-Tested mr false o q h k = k

pub delimiter_line-Tested :
    (k : ℕ) (mr : Marks) (line : Bytes)
    → IsSliceable k mr
    → Tested mr (is_boundary_delimiter_line k mr line)
unfolding is_boundary_delimiter_line
delimiter_line-Tested k mr line h =
    let rest = skip_lwsp_char (drop (length mr.dash_boundary) line) in
    let is_lf = equal_iff rest (b'\n' ∷ []) in
    if-Tested mr (not (has_prefix line mr.dash_boundary)) (some (mr, false)) _
      (inr refl, omega arith)
      (Tested-if k mr rest (k == 0 && equal rest (b'\n' ∷ [])) h (λ e. ground (arith, is_lf)))

-- A round of `CheckNextPart` there: no panic, and where it goes on, the marks are the same.
CheckKeeps : Marks → Marks × CheckOutcome → Type 0
CheckKeeps mr (mr', checked e) = Unit
CheckKeeps mr (mr', goes_on expect) = mr' ≡ mr
CheckKeeps mr (mr', panics) = ⊥

if-CheckKeeps :
    (mr mr' : Marks) (b : Bool) (o q : CheckOutcome)
    → CheckKeeps mr (mr', o)
    → CheckKeeps mr (mr', q)
    → CheckKeeps mr (mr', if b then o else q)
if-CheckKeeps mr mr' true o q h k = h
if-CheckKeeps mr mr' false o q h k = k

check_tested-Keeps :
    (k : ℕ) (expect : Bool) (mr : Marks) (line : Bytes) (o : Option (Marks × Bool))
    → Tested mr o
    → CheckKeeps mr (check_tested k expect mr line o)
unfolding CheckKeeps
check_tested-Keeps k expect mr line none h = h
check_tested-Keeps k expect mr line (some (mr', true)) h = tt
check_tested-Keeps k expect mr line (some (mr', false)) (inl e, l) = cc
check_tested-Keeps k expect mr line (some (mr', false)) (inr e, l) =
    if-CheckKeeps mr mr' (is_final_boundary mr' line) _ _ tt (
      if-CheckKeeps mr mr' expect _ _ tt
        (if-CheckKeeps mr mr' (k == 0) _ _ e (if-CheckKeeps mr mr' (equal line mr'.nl) _ _ e tt)))

check_line-Keeps :
    (k : ℕ) (expect : Bool) (mr : Marks) (line : Bytes) (e : Option ReadError)
    → IsSliceable k mr
    → CheckKeeps mr (check_line k expect mr (line, e))
unfolding check_line CheckKeeps
check_line-Keeps k expect mr line (some eof) h = tt
check_line-Keeps k expect mr line (some buffer_full) h = tt
check_line-Keeps k expect mr line (some (failed e)) h = tt
check_line-Keeps k expect mr line none h =
    check_tested-Keeps k expect mr line _ (delimiter_line-Tested k mr line h)

check_line_goes_on :
    (k : ℕ) (expect : Bool) (mr : Marks) (line : Bytes) (e : Option ReadError) (expect' : Bool)
    → (check_line k expect mr (line, e)).1 ≡ CheckOutcome.goes_on expect'
    → e ≡ none
unfolding check_line
check_line_goes_on k expect mr line none expect' h = refl
check_line_goes_on k expect mr line (some eof) expect' h = cc
check_line_goes_on k expect mr line (some buffer_full) expect' h = cc
check_line_goes_on k expect mr line (some (failed e)) expect' h = cc

-- a round of `CheckNextPart`
abbrev after_check : ℕ → ℕ → BufReader → Marks × CheckOutcome → Option (Marks × Option ReaderError)
after_check fuel k buf r = elim r.1 [
  | checked e ↦ some (r.0, e)
  | goes_on expect ↦ check_loop fuel k expect r.0 buf
  | panics ↦ none
]

check_loop_line :
    (fuel k : ℕ) (expect : Bool) (mr : Marks) (buf : BufReader)
    → check_loop (suc fuel) k expect mr buf
      ≡ after_check fuel k
          (read_slice buf).2
          (check_line k expect mr ((read_slice buf).0, (read_slice buf).1))
unfolding check_loop
check_loop_line fuel k expect mr buf = refl

after_check-Returns :
    (fuel k : ℕ) (buf : BufReader) (mr : Marks) (r : Marks × CheckOutcome)
    → CheckKeeps mr r
    → ((expect : Bool) → r.1 ≡ CheckOutcome.goes_on expect → length buf.rest < fuel)
    → ((expect : Bool)
        → length buf.rest < fuel
        → (r : Marks × Option ReaderError) × (check_loop fuel k expect mr buf ≡ some r))
    → (q : Marks × Option ReaderError) × (after_check fuel k buf r ≡ some q)
unfolding CheckKeeps
after_check-Returns fuel k buf mr (mr', checked e) c h rest = ((mr', e), refl)
after_check-Returns fuel k buf mr (mr', goes_on expect) c h rest =
    rw c (rest expect (h expect refl))
after_check-Returns fuel k buf mr (mr', panics) c h rest = absurd c

check_loop-Returns :
    (fuel k : ℕ) (expect : Bool) (mr : Marks) (buf : BufReader)
    → IsSliceable k mr
    → length buf.rest < fuel
    → (r : Marks × Option ReaderError) × (check_loop fuel k expect mr buf ≡ some r)
check_loop-Returns zero k expect mr buf s h = absurd (omega arith)
check_loop-Returns (suc fuel) k expect mr buf s h =
    let (line, err, buf') = read_slice buf in
    let shorter : (expect' : Bool)
        → (check_line k expect mr (line, err)).1 ≡ CheckOutcome.goes_on expect'
        → length buf'.rest < fuel =
      λ expect' e.
        omega
          (arith, h, read_slice-Shorter buf (check_line_goes_on k expect mr line err expect' e)) in
    let (r, f) =
      after_check-Returns fuel k buf' mr (check_line k expect mr (line, err))
        (check_line-Keeps k expect mr line err s) shorter
        (λ expect' l. check_loop-Returns fuel k expect' mr buf' s l) in
    (r, check_loop_line fuel k expect mr buf ∙ f)

-- `CheckNextPart` returns, however much is buffered, with no panic, and reads nothing: only the marks
-- may change. A part was read before, or lines still end in CRLF, as for a new reader that
-- `CheckNextPart` was not called on.
pub check_next_part-Returns :
    (buffered : ℕ) (mr : Reader)
    → IsSliceable mr.parts_read mr.marks
    → (r : Marks × Option ReaderError) × (check_next_part buffered mr
        ≡ some (record mr { marks = r.0 }, r.1))
unfolding check_next_part
check_next_part-Returns buffered mr s =
    let ahead = (peek buffered mr.buf).0 in
    let (r, e) =
      check_loop-Returns (suc (length ahead)) mr.parts_read false mr.marks
        (record { rest = ahead; fail = none }) s (omega arith) in
    (
      r,
      ap
          (λ (o : Option (Marks × Option ReaderError)).
            o >>= λ q. some (record mr { marks = q.0 }, q.1))
          e,
    )
