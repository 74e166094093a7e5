-- ===== src/QuotedPrintable/Padding.antt =====
-- quotedprintable/writer.go: a decoder of RFC 2045 deletes the blanks at the end of a line first, and
-- gets back what was written.
use mime.Base.{
  ℕ, List, [], ◌∷◌, ◌++◌, Bool, true, false, Option, none, some, All, length, ◌≡◌, refl, ap, sym,
  ◌∙◌, subst, arith, append_assoc, append-nil, Bool-cases, inl, inr, if◌then◌else◌, ◌&&◌,
}
use mime.Base.Bytes.{Bytes, has_prefix}
use mime.QuotedPrintable.Bounds.{
  is_blank, ends_blank, IsTextByte, IsLine, IsValid, Written, write_all-Written, IsEnded, Ended,
  close-Ended,
}
use mime.QuotedPrintable.Decoding.{
  Holds, IsInput, meaning, flat, flat_concat, CountPost, Closed, write_all-Holds, close-Closed,
}
use mime.QuotedPrintable.Flushes.{crlf, Refuses}
use mime.QuotedPrintable.Spec.{Decodes}
use mime.QuotedPrintable.Writer.{Writer, Sink, write_all, close}

-- the end of the text or of a line
abbrev at_end : Bytes → Bool
at_end [] = true
at_end (c ∷ s) = has_prefix (c ∷ s) crlf

abbrev unless_last : ℕ → Bytes → Bytes
unless_last c rest = if is_blank c && at_end rest then rest else c ∷ rest

-- RFC 2045, section 6.7, rule 3: the blanks at the end of a line are deleted.
unfoldable pub delete_blanks : Bytes → Bytes
delete_blanks [] = []
delete_blanks (c ∷ s) = unless_last c (delete_blanks s)

-- What a decoder gets of a text.
abbrev pub Gets : Bytes → Bytes → Type 0
Gets s text = Decodes (delete_blanks s) text

delete_blanks-crlf : (s : Bytes) → delete_blanks (crlf ++ s) ≡ crlf ++ delete_blanks s
unfolding delete_blanks
delete_blanks-crlf s = refl

text_not_end : (c : ℕ) (s : Bytes) → IsTextByte c → at_end (c ∷ s) ≡ false
unfolding has_prefix
text_not_end c s h = ground arith

not_last : (c : ℕ) (rest : Bytes) → at_end rest ≡ false → unless_last c rest ≡ c ∷ rest
not_last c rest h = elim (Bool-cases (is_blank c)) [ inl e ↦ rw (e, h) refl | inr e ↦ rw e refl ]

delete_blanks-text :
    (body s : Bytes)
    → All IsTextByte body
    → ends_blank body ≡ false
    → delete_blanks (body ++ s) ≡ body ++ delete_blanks s
unfolding delete_blanks
delete_blanks-text [] s h n = refl
delete_blanks-text (b ∷ []) s h n = rw n refl
delete_blanks-text (b ∷ c ∷ body) s (h, k) n =
    ap (unless_last b) (delete_blanks-text (c ∷ body) s k n)
    ∙ not_last b (c ∷ (body ++ delete_blanks s)) (text_not_end c (body ++ delete_blanks s) k.0)

-- a whole line in front of a text
regroup :
    (chunk body out s : Bytes)
    → chunk ≡ body ++ crlf
    → (chunk ++ out) ++ s ≡ body ++ (crlf ++ (out ++ s))
regroup chunk body out s e =
    append_assoc chunk out s ∙ ap (λ c. c ++ (out ++ s)) e ∙ append_assoc body crlf (out ++ s)

-- Whole lines have no blanks to delete.
delete_blanks-lines :
    (out : List Bytes) (s : Bytes)
    → All IsLine out
    → delete_blanks (flat out ++ s) ≡ flat out ++ delete_blanks s
delete_blanks-lines [] s h = refl
delete_blanks-lines (chunk ∷ out) s (l, h) =
    ap delete_blanks (regroup chunk l.body (flat out) s l.shape)
    ∙ delete_blanks-text l.body (crlf ++ (flat out ++ s)) l.is_body.text l.is_body.no_blank
    ∙ ap (λ t. l.body ++ t) (delete_blanks-crlf (flat out ++ s))
    ∙ ap (λ t. l.body ++ (crlf ++ t)) (delete_blanks-lines out s h)
    ∙ sym (regroup chunk l.body (flat out) (delete_blanks s) l.shape)

delete_blanks-nil : delete_blanks [] ≡ []
unfolding delete_blanks
delete_blanks-nil = refl

delete_blanks-out : (out : List Bytes) → All IsLine out → delete_blanks (flat out) ≡ flat out
delete_blanks-out out h =
    ap delete_blanks (sym (append-nil (flat out)))
    ∙ delete_blanks-lines out [] h
    ∙ ap (λ t. flat out ++ t) delete_blanks-nil
    ∙ append-nil (flat out)

delete_blanks-ended : {w : Writer} → IsEnded w → delete_blanks (flat w.out) ≡ flat w.out
delete_blanks-ended {w} h =
    let whole = ap (λ o. flat o) h.all ∙ flat_concat h.before h.last in
    let last_line =
      ap delete_blanks (sym (append-nil h.last))
      ∙ delete_blanks-text h.last [] h.last_body.text h.last_body.no_blank
      ∙ ap (λ t. h.last ++ t) delete_blanks-nil
      ∙ append-nil h.last in
    ap delete_blanks whole
    ∙ delete_blanks-lines h.before h.last h.lines
    ∙ ap (λ t. flat h.before ++ t) last_line
    ∙ sym whole

-- The writer has taken `text`: it is valid, a decoder gets the text of what has gone out and waits,
-- where the line that waits is not ended yet.
pub record Delivers (binary : Bool) (text : Bytes) (w : Writer) : Type 0 where
  pub valid : IsValid w
  pub decodes : Decodes (delete_blanks (flat w.out) ++ w.line) text
  pub same_mode : w.binary ≡ binary
  pub no_cr : w.cr ≡ false

Delivers-Holds :
    {binary : Bool} {text : Bytes} {w : Writer} → Delivers binary text w → Holds binary text w
Delivers-Holds {binary} {text} {w} h = record {
  decodes =
      subst (λ s. Decodes (s ++ w.line) text) (delete_blanks-out w.out h.valid.lines) h.decodes;
  same_mode = h.same_mode;
  no_cr = h.no_cr;
}

Holds-Delivers :
    {binary : Bool} {text : Bytes} {w : Writer}
    → Holds binary text w
    → IsValid w
    → Delivers binary text w
Holds-Delivers {binary} {text} {w} h v = record {
  valid = v;
  decodes =
      subst (λ s. Decodes (s ++ w.line) text) (sym (delete_blanks-out w.out v.lines)) h.decodes;
  same_mode = h.same_mode;
  no_cr = h.no_cr;
}

-- What `Write` leaves: the writer has taken the text, or the sink refuses a call with the error.
abbrev pub Delivery : Sink → Bool → Bytes → Writer × ℕ × Option ℕ → Type 0
Delivery sink binary text (w, n, none) = Delivers binary text w
Delivery sink binary text (w, n, some e) = Refuses sink e

both-Delivery :
    (sink : Sink) (binary : Bool) (text : Bytes) (k : ℕ) (r : Writer × ℕ × Option ℕ)
    → CountPost sink binary text r
    → Written k r
    → Delivery sink binary text r
both-Delivery sink binary text k (w, n, none) h v = Holds-Delivers h v.0
both-Delivery sink binary text k (w, n, some e) h v = h

-- `Write`, from a writer that has taken `text`, whatever the sink does: if it returns no error then a
-- decoder of RFC 2045, which deletes the blanks at the end of each line and of the text first, gets
-- `text` and the meaning of the input behind it from what has gone out and waits in the line, of which
-- the waiting line is not ended yet; and `Write` returns an error only if the sink refuses a call with
-- it. The input is bytes; in text mode it has no carriage return, and a line feed means a line end.
pub write_all-Delivery :
    (sink : Sink) {binary : Bool} (p : Bytes) {text : Bytes} (w : Writer)
    → All (IsInput binary) p
    → Delivers binary text w
    → Delivery sink binary (text ++ meaning binary p) (write_all sink p w)
write_all-Delivery sink {binary} p {text} w i h =
    both-Delivery sink binary (text ++ meaning binary p) (length p) (write_all sink p w)
      (write_all-Holds sink p w i (Delivers-Holds h)) (write_all-Written sink p w h.valid)

-- What a successful `Close` leaves: nothing waits, and a decoder gets the text.
abbrev pub Complete : Sink → Bytes → Writer × Option ℕ → Type 0
Complete sink text (w, none) = (w.line ≡ []) × Gets (flat w.out) text
Complete sink text (w, some e) = Refuses sink e

both-Complete :
    (sink : Sink) (text : Bytes) (r : Writer × Option ℕ)
    → Closed sink text r
    → Ended r
    → Complete sink text r
both-Complete sink text (w, none) (n, d) h =
    (n, subst (λ s. Decodes s text) (sym (delete_blanks-ended h)) d)
both-Complete sink text (w, some e) c h = c

-- `Close`, from a writer that has taken `text`: it fails only if the sink refuses, and else nothing is
-- left in the line, and a decoder of RFC 2045, which deletes the blanks at the end of each line and of
-- the text first, gets `text` from what has gone out.
pub close-Complete :
    (sink : Sink) {binary : Bool} {text : Bytes} (w : Writer)
    → Delivers binary text w
    → Complete sink text (close sink w)
close-Complete sink {binary} {text} w h =
    both-Complete sink text (close sink w) (close-Closed sink w (Delivers-Holds h))
      (close-Ended sink w h.valid)
