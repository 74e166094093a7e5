-- ===== src/Multipart/Progress.antt =====
-- multipart/multipart.go: each read of a part takes something, so that `Part.Close` ends.
use mime.Base.{
  ℕ, zero, suc, ◌+◌, ◌-◌, ◌<◌, ◌≤◌, [], ◌∷◌, ◌++◌, Bool, true, false, not, ◌&&◌, Option, none, some,
  ltb, leb, ◌==◌, if◌then◌else◌, take, drop, length, ◌≡◌, ◌⊎◌, refl, ap, sym, ◌∙◌, subst, inl, inr,
  arith, length-append, length-drop, take-append-drop, Bool-cases,
}
use mime.Base.Bytes.{Bytes}
use mime.Multipart.Bufio.{ReadError, eof, buffer_full, failed, peek, buffer_size, skip, end_error}
use mime.Multipart.Lines.{Marks, is_empty, peek_buffer_separator_index}
use mime.Multipart.Reader.{
  Part, Reader, PartRead, copy_count, give, read_ahead, part_read, read_more, drain, raw, if_raw,
  part_close,
}
use mime.Base.Outcomes.{Gives, Gives-mono}

-- The separator fits into the window that is read ahead, with a byte in front of it.
abbrev pub IsShort : Marks → Type 0
IsShort mr = length mr.nl_dash_boundary < buffer_size

-- the bytes that are left to a part at most
abbrev pub left_of : Part → Reader → ℕ
left_of p mr = length p.buffer + length mr.buf.rest

is_empty_cases : (b : Bytes) → ((is_empty b ≡ true) × (length b ≡ 0)) ⊎ (0 < length b)
is_empty_cases [] = inl (refl, refl)
is_empty_cases (x ∷ b) = inr (omega arith)

if_error-none : (e : ReadError) (b : Bool) → (if b then some e else none) ≡ none → b ≡ false
if_error-none e true h = let f : some e ≡ none = h in cc
if_error-none e false h = refl

give-takes :
    (n : ℕ) (at_end : Bool) (p : Part) (mr : Reader)
    → 0 < n
    → (at_end ≡ false → 0 < length p.buffer)
    → (give n at_end p mr).3 ≡ none
    → length (drop n p.buffer) < length p.buffer
give-takes n at_end p mr h k e = elim (is_empty_cases p.buffer) [
  | inr l ↦ omega (arith, length-drop n p.buffer)
  | inl (z, l) ↦
      let no_end = if_error-none eof ((is_empty p.buffer && ltb 0 n) && at_end) e in
      ground (arith, k, no_end, z, l, h)
]

-- what `copy_count` makes of the index
abbrev count_at : Marks → Bytes → Option (ℕ × Bool) → ℕ × Bool
count_at mr ahead at = elim at [
  | some (idx, ends) ↦ (if not ends && idx == 0 then 1 else idx, ends)
  | none ↦ (length ahead - length mr.nl_dash_boundary, false)
]

count_at-takes :
    (mr : Marks) (ahead : Bytes) (at : Option (ℕ × Bool))
    → IsShort mr
    → buffer_size ≤ length ahead
    → (count_at mr ahead at).1 ≡ false
    → 0 < (count_at mr ahead at).0
count_at-takes mr ahead none s l e = omega (arith, s, l)
count_at-takes mr ahead (some (idx, ends)) s l e = ground arith

-- Where nothing ends the part and the window is full, a byte at least is copied.
copy_count-takes :
    (mr : Marks) (ahead : Bytes)
    → IsShort mr
    → buffer_size ≤ length ahead
    → (copy_count mr ahead false).1 ≡ false
    → 0 < (copy_count mr ahead false).0
unfolding copy_count
copy_count-takes mr ahead s l e =
    count_at-takes mr ahead (peek_buffer_separator_index mr ahead) s l e

-- What a read leaves: the marks, and no more than there was; less, if it gives no error.
pub record Reads (n : ℕ) (p : Part) (mr : Reader) (r : PartRead) : Type 0 where
  pub same : r.1.marks ≡ mr.marks
  pub same_count : r.1.parts_read ≡ mr.parts_read
  pub same_decoding : r.0.decoding ≡ p.decoding
  pub within : left_of r.0 r.1 ≤ left_of p mr
  pub takes : IsShort mr.marks → 0 < n → r.3 ≡ none → left_of r.0 r.1 < left_of p mr

failed_read : (n : ℕ) (p : Part) (mr : Reader) (e : ReadError) → Reads n p mr (p, mr, [], some e)
failed_read n p mr e = record {
  same = refl;
  same_count = refl;
  same_decoding = refl;
  within = omega arith;
  takes = λ s h e. absurd (some_none e);
}
  where
    some_none : {e : ReadError} → some e ≡ none → ⊥
    some_none h = cc

-- the count of the window, and what is left behind it
split_rest :
    (k : ℕ) (b rest : Bytes)
    → length (b ++ take k rest) + length (drop k rest) ≡ length b + length rest
split_rest k b rest = omega (
  arith,
  length-append b (take k rest),
  length-append (take k rest) (drop k rest),
  ap (λ s. length s) (take-append-drop k rest),
)

length-take_some : (k : ℕ) (rest : Bytes) → 0 < k → 0 < length rest → 0 < length (take k rest)
length-take_some (suc k) (x ∷ rest) h l = omega arith
length-take_some zero rest h l = absurd (omega arith)
length-take_some (suc k) [] h l = absurd (omega arith)

-- the outcome of `give`, where the part and the reader have what was there before
give-Reads :
    (n : ℕ) (at_end : Bool) (p p' : Part) (mr mr' : Reader)
    → mr'.marks ≡ mr.marks
    → mr'.parts_read ≡ mr.parts_read
    → p'.decoding ≡ p.decoding
    → left_of p' mr' ≡ left_of p mr
    → (IsShort mr.marks → 0 < n → at_end ≡ false → 0 < length p'.buffer)
    → Reads n p mr (give n at_end p' mr')
give-Reads n at_end p p' mr mr' m c e l some_there = record {
  same = m;
  same_count = c;
  same_decoding = e;
  within = omega (arith, l, length-drop n p'.buffer);
  takes = λ s h e. omega (arith, l, give-takes n at_end p' mr' h (some_there s h) e);
}

if-Reads :
    (n : ℕ) (p : Part) (mr : Reader) (b : Bool) (r q : PartRead)
    → Reads n p mr r
    → Reads n p mr q
    → Reads n p mr (if b then r else q)
if-Reads n p mr true r q h k = h
if-Reads n p mr false r q h k = k

-- a copy of `k` bytes, in front of `give`
copied-Reads :
    (n k : ℕ) (at_end : Bool) (p : Part) (mr : Reader)
    → (IsShort mr.marks → at_end ≡ false → (0 < k) × (0 < length mr.buf.rest))
    → Reads n p mr (
        give n at_end
          (record p { buffer = p.buffer ++ take k mr.buf.rest })
          (record mr { buf = skip k mr.buf }))
copied-Reads n k at_end p mr some_there =
    give-Reads n at_end p (record p { buffer = p.buffer ++ take k mr.buf.rest }) mr
      (record mr { buf = skip k mr.buf }) refl refl refl (split_rest k p.buffer mr.buf.rest)
      (λ s _ e.
        let (k_some, rest_some) = some_there s e in
        omega (
          arith,
          length-append p.buffer (take k mr.buf.rest),
          length-take_some k mr.buf.rest k_some rest_some,
        ))

-- the read behind the window
read_ahead-Reads :
    (n : ℕ) (p : Part) (mr : Reader) (err : Option ReadError) (ahead : Bytes)
    → (err ≡ none → (buffer_size ≤ length ahead) × (0 < length mr.buf.rest))
    → Reads n p mr (read_ahead n p mr err ahead)
unfolding read_ahead
read_ahead-Reads n p mr none ahead full = if-Reads n p mr _ _ _ (failed_read n p mr eof) (
    copied-Reads n (copy_count mr.marks ahead false).0 (copy_count mr.marks ahead false).1 p mr
      (λ s e. (copy_count-takes mr.marks ahead s (full refl).0 e, (full refl).1)))
read_ahead-Reads n p mr (some eof) ahead full =
    if-Reads n p mr _ _ _ (failed_read n p mr eof)
      (copied-Reads n (copy_count mr.marks ahead true).0 true p mr (λ s e. cc))
read_ahead-Reads n p mr (some buffer_full) ahead full =
    if-Reads n p mr _ _ _ (failed_read n p mr eof) (failed_read n p mr buffer_full)
read_ahead-Reads n p mr (some (failed e)) ahead full =
    if-Reads n p mr _ _ _ (failed_read n p mr eof) (failed_read n p mr (failed e))

length-take_full : (k : ℕ) (rest : Bytes) → k ≤ length rest → k ≤ length (take k rest)
length-take_full zero rest h = omega arith
length-take_full (suc k) [] h = absurd (omega arith)
length-take_full (suc k) (x ∷ rest) h = omega (arith, length-take_full k rest (omega arith))

-- Every read of a part keeps the marks and leaves no more than there was. Where the separator fits
-- into the window, a read of at least a byte that gives no error leaves less.
pub part_read-Reads : (n : ℕ) (p : Part) (mr : Reader) → Reads n p mr (part_read n p mr)
unfolding part_read peek
part_read-Reads n p mr =
    let (ahead, err) = peek buffer_size mr.buf in
    let is_full : err ≡ none → buffer_size ≤ length mr.buf.rest = λ e.
      let less = if_error-none (end_error mr.buf.fail) (ltb (length mr.buf.rest) buffer_size) e in
      ground arith in
    elim (Bool-cases (leb n (length p.buffer))) [
      | inl e ↦ rw e (give-Reads n false p p mr mr refl refl refl refl (λ s h _. ground arith))
      | inr e ↦ rw e (
          read_ahead-Reads n p mr err ahead
            (λ e. (length-take_full buffer_size mr.buf.rest (is_full e), omega (arith, is_full e))))
    ]

-- What a whole part leaves: the marks, the count of the parts, and no more than there was.
abbrev pub Drained : Reader → ℕ → Part × Reader × Bytes × ReadError → Type 0
Drained mr k r = (r.1.marks ≡ mr.marks) × (r.1.parts_read ≡ mr.parts_read) × (left_of r.0 r.1 ≤ k)

read_more-Drained :
    (mr : Reader) (k : ℕ) (d : Bytes) (o : Option (Part × Reader × Bytes × ReadError))
    → Gives (Drained mr k) o
    → Gives (Drained mr k) (read_more d o)
read_more-Drained mr k d none h = h
read_more-Drained mr k d (some r) h = h

Drained-mono :
    (mr mr' : Reader) (k j : ℕ)
    → mr'.marks ≡ mr.marks
    → mr'.parts_read ≡ mr.parts_read
    → k ≤ j
    → (r : Part × Reader × Bytes × ReadError) → Drained mr' k r
    → Drained mr j r
Drained-mono mr mr' k j m c l r (same, count, within) = (same ∙ m, count ∙ c, omega arith)

-- the rounds of `drain` behind a read
drain_step :
    (fuel n : ℕ) (p : Part) (mr : Reader) (r : PartRead)
    → Reads n p mr r
    → (r.3 ≡ none → Gives (Drained r.1 (left_of r.0 r.1)) (drain fuel n r.0 r.1))
    → Gives (Drained mr (left_of p mr)) (elim r.3 [
      | some e ↦ some (r.0, r.1, r.2, e)
      | none ↦ read_more r.2 (drain fuel n r.0 r.1)
    ])
drain_step fuel n p mr (p', mr', d, some e) h g = (h.same, h.same_count, h.within)
drain_step fuel n p mr (p', mr', d, none) h g =
    read_more-Drained mr (left_of p mr) d (drain fuel n p' mr') (
      Gives-mono (Drained mr' (left_of p' mr')) (Drained mr (left_of p mr)) (drain fuel n p' mr')
        (Drained-mono mr mr' (left_of p' mr') (left_of p mr) h.same h.same_count h.within) (g refl))

drain-Gives :
    (fuel n : ℕ) (p : Part) (mr : Reader)
    → IsShort mr.marks
    → 0 < n
    → left_of p mr < fuel
    → Gives (Drained mr (left_of p mr)) (drain fuel n p mr)
unfolding drain
drain-Gives zero n p mr s h l = absurd (omega arith)
drain-Gives (suc fuel) n p mr s h l =
    let reads = part_read-Reads n p mr in
    drain_step fuel n p mr (part_read n p mr) reads (λ e.
      drain-Gives fuel n (part_read n p mr).0 (part_read n p mr).1
        (subst (λ m. IsShort m) (sym reads.same) s) h (omega (arith, l, reads.takes s h e)))

-- `Part.Close` of a part with no decoder ends, whatever its bytes are, where the separator is shorter
-- than the window that is read ahead, for slices of at least a byte and more fuel than there are
-- bytes left. The marks of the reader and its count of parts stay, and it has no more left than
-- before.
pub part_close-Gives :
    (fuel n : ℕ) (p : Part) (mr : Reader)
    → p.decoding ≡ raw
    → IsShort mr.marks
    → 0 < n
    → left_of p mr < fuel
    → Gives (Drained mr (left_of p mr)) (part_close fuel n p mr)
unfolding part_close
part_close-Gives fuel n p mr d s h l =
    subst (λ m. Gives (Drained mr (left_of p mr)) (if_raw m (drain fuel n p mr))) (sym d)
      (drain-Gives fuel n p mr s h l)
