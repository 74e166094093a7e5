-- ===== src/Multipart/NextPart.antt =====
-- multipart/multipart.go: `NextPart` takes a line at least for each part that it gives.
use mime.Base.Outcomes.{Gives, Gives-mono}
use mime.Base.{
  ℕ, zero, suc, ◌<◌, ◌≤◌, Bool, true, false, Option, none, some, ◌==◌, if◌then◌else◌, length, ◌≡◌,
  refl, sym, subst, inl, inr, arith,
}
use mime.Base.Bytes.{Bytes, codes, equal}
use mime.Multipart.Bufio.{ReadError, eof, buffer_full, failed, BufReader, read_slice}
use mime.Multipart.Lines.{Marks, is_final_boundary}
use mime.Multipart.Reader.{
  Part, Reader, Textproto, raw, LineOutcome, returns, goes_on, panics, on_tested, ReaderError,
  new_part, next_of, on_line, next_loop, next_part,
}
use mime.Multipart.Progress.{IsShort, left_of}
use mime.Multipart.Returns.{IsSliceable, Tested, delimiter_line-Tested, read_slice-Shorter}

-- A reader between two calls: a slice of `nl` is no panic, and the separator fits into the window.
pub record IsReady (mr : Reader) : Type 0 where
  pub sliceable : IsSliceable mr.parts_read mr.marks
  pub short : IsShort mr.marks

-- What `NextPart` gives, with a reader that is ready again: a part with no decoder, and fewer bytes
-- than `k` left, or an error.
abbrev pub NextGives : ℕ → Reader × Option Part × Option ReaderError → Type 0
NextGives k (mr, some p, e) = IsReady mr × (p.decoding ≡ raw) × (left_of p mr < k)
NextGives k (mr, none, some e) = IsReady mr
NextGives k (mr, none, none) = ⊥

LineGives : ℕ → LineOutcome → Type 0
LineGives k (returns r) = NextGives k r
LineGives k (goes_on mr expect) = IsReady mr × (length mr.buf.rest < k)
LineGives k panics = ⊥

if-LineGives :
    (k : ℕ) (b : Bool) (x y : LineOutcome)
    → LineGives k x
    → LineGives k y
    → LineGives k (if b then x else y)
if-LineGives k true x y h l = h
if-LineGives k false x y h l = l

pub NextGives-mono :
    (k j : ℕ)
    → k ≤ j
    → (r : Reader × Option Part × Option ReaderError) → NextGives k r
    → NextGives j r
NextGives-mono k j l (mr, some p, e) (r, d, h) = (r, d, omega arith)
NextGives-mono k j l (mr, none, some e) h = h
NextGives-mono k j l (mr, none, none) h = h

-- `ReadMIMEHeader` gives no bytes back, and no header asks for the quoted-printable decoder.
pub record TextprotoLaws (textproto : Textproto) : Type 0 where
  pub takes : (b : BufReader) → length (textproto.read b).2.rest ≤ length b.rest
  pub not_quoted :
      (b : BufReader)
      → equal
          (textproto.get (textproto.read b).0 (codes "Content-Transfer-Encoding"))
          (codes "quoted-printable")
        ≡ false

module _ (unicode_lower : ℕ → ℕ) (textproto : Textproto) (laws : TextprotoLaws textproto) where
  next_of-Gives :
      (k : ℕ) (p : Part) (mr : Reader) (e : Option Bool)
      → IsReady mr
      → p.decoding ≡ raw
      → left_of p mr < k
      → NextGives k (next_of unicode_lower textproto (p, mr, e))
  next_of-Gives k p mr none s d l = (s, d, l)
  next_of-Gives k p mr (some true) s d l = (s, d, l)
  next_of-Gives k p mr (some false) s d l = s

  new_part-Gives :
      (k : ℕ) (mr : Reader)
      → IsReady mr
      → length mr.buf.rest < k
      → NextGives k (next_of unicode_lower textproto (new_part unicode_lower textproto mr))
  unfolding new_part
  new_part-Gives k mr s l =
      next_of-Gives k _ _ (textproto.read mr.buf).1
        (record { sliceable = s.sliceable; short = s.short }) (rw (laws.not_quoted mr.buf) refl)
        (omega (arith, laws.takes mr.buf))

  -- behind the test on a line
  on_tested-Gives :
      (k : ℕ) (expect : Bool) (line : Bytes) (b : BufReader) (mr : Reader)
      (o : Option (Marks × Bool))
      → IsReady mr
      → length b.rest < k
      → Tested mr.marks o
      → LineGives k (on_tested unicode_lower textproto expect line b mr o)
  unfolding LineGives
  on_tested-Gives k expect line b mr none s h t = t
  on_tested-Gives k expect line b mr (some (marks, true)) s h (_, l) =
      new_part-Gives k _
        (record { sliceable = inl (omega arith); short = omega (arith, s.short, l) }) h
  on_tested-Gives k expect line b mr (some (marks, false)) s h (inl e, l) = cc
  on_tested-Gives k expect line b mr (some (marks, false)) s h (inr e, l) =
      let ready : IsReady (record mr { buf = b; marks = marks }) = record {
        sliceable = subst (λ m. IsSliceable mr.parts_read m) (sym e) s.sliceable;
        short = omega (arith, s.short, l);
      } in
      if-LineGives k (is_final_boundary marks line) _ _ ready (
        if-LineGives k expect _ _ ready (
          if-LineGives k (mr.parts_read == 0) _ _ (ready, h)
            (if-LineGives k (equal line marks.nl) _ _ (ready, h) ready)))

  on_line-Gives :
      (k : ℕ) (expect : Bool) (r : Bytes × Option ReadError × BufReader) (mr : Reader)
      → IsReady mr
      → (r.1 ≡ none → length r.2.rest < k)
      → LineGives k (on_line unicode_lower textproto expect r mr)
  unfolding on_line LineGives
  on_line-Gives k expect (line, some eof, b) mr s h = record {
    sliceable = s.sliceable;
    short = s.short;
  }
  on_line-Gives k expect (line, some buffer_full, b) mr s h = record {
    sliceable = s.sliceable;
    short = s.short;
  }
  on_line-Gives k expect (line, some (failed e), b) mr s h = record {
    sliceable = s.sliceable;
    short = s.short;
  }
  on_line-Gives k expect (line, none, b) mr s h =
      on_tested-Gives k expect line b mr _ s (h refl)
        (delimiter_line-Tested mr.parts_read mr.marks line s.sliceable)

  after_line-Gives :
      (fuel k : ℕ) (o : LineOutcome)
      → LineGives k o
      → ((expect : Bool) (mr : Reader)
          → IsReady mr
          → length mr.buf.rest < k
          → Gives (NextGives k) (next_loop unicode_lower textproto fuel expect mr))
      → Gives (NextGives k) (elim o [
        | returns r ↦ some r
        | goes_on mr expect ↦ next_loop unicode_lower textproto fuel expect mr
        | panics ↦ none
      ])
  unfolding LineGives
  after_line-Gives fuel k (returns r) h g = h
  after_line-Gives fuel k (goes_on mr expect) h g = g expect mr h.0 h.1
  after_line-Gives fuel k panics h g = absurd h

  next_loop-Gives :
      (fuel : ℕ) (expect : Bool) (mr : Reader)
      → IsReady mr
      → length mr.buf.rest < fuel
      → Gives (NextGives (length mr.buf.rest)) (next_loop unicode_lower textproto fuel expect mr)
  unfolding next_loop
  next_loop-Gives zero expect mr s h = absurd (omega arith)
  next_loop-Gives (suc fuel) expect mr s h =
      let k = length mr.buf.rest in
      after_line-Gives fuel k (on_line unicode_lower textproto expect (read_slice mr.buf) mr)
        (on_line-Gives k expect (read_slice mr.buf) mr s (read_slice-Shorter mr.buf))
        (λ expect' mr' s' l.
          Gives-mono (NextGives (length mr'.buf.rest)) (NextGives k)
            (next_loop unicode_lower textproto fuel expect' mr')
            (NextGives-mono (length mr'.buf.rest) k (omega arith))
            (next_loop-Gives fuel expect' mr' s' (omega (arith, h, l))))

  -- Behind the closing: a part, which has fewer bytes left than there were, or an error.
  pub next_part-Gives :
      (mr : Reader)
      → IsReady mr
      → Gives (NextGives (length mr.buf.rest)) (next_part unicode_lower textproto mr)
  unfolding next_part
  next_part-Gives mr s = next_loop-Gives (suc (length mr.buf.rest)) false mr s (omega arith)
