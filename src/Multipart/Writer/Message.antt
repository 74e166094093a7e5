-- ===== src/Multipart/Writer/Message.antt =====
-- multipart/writer.go: the message that a client of the writer makes.
use mime.Base.{
  ℕ, zero, suc, List, [], ◌∷◌, ◌++◌, true, false, Option, none, some, length, get_elem?, ◌≡◌, refl,
  ap, sym, subst, ◌∙◌, append-nil, append_assoc,
}
use mime.Base.Bytes.{Bytes}
use mime.Multipart.Writer.{
  Part, Writer, Sink, Header, new_writer, change_part, close_part, close_if, record_error, send,
  add_part, open_part, open_after, create_part, part_write, end_line, end_after, close, delimiter,
  header_text, crlf, error_of,
}

-- what the underlying writer has got
unfoldable pub joined : List Bytes → Bytes
joined [] = []
joined (chunk ∷ chunks) = chunk ++ joined chunks

joined-append : (a : List Bytes) (b : Bytes) → joined (a ++ b ∷ []) ≡ joined a ++ b
unfolding joined
joined-append [] b = append-nil b
joined-append (c ∷ a) b = ap (λ z. c ++ z) (joined-append a b) ∙ sym (append_assoc c (joined a) b)

abbrev pub Accepts : Sink → Type 0
Accepts sink = (out : List Bytes) (chunk : Bytes) → sink out chunk ≡ none

-- A writer for the boundary that has sent the text, with no error.
pub record Sent (boundary text : Bytes) (w : Writer) : Type 0 where
  pub same : w.boundary ≡ boundary
  pub sent : joined w.out ≡ text
  pub no_errors : (i : ℕ) → error_of (get_elem? w.parts i) ≡ none

abbrev pub IsOpen : Option Part → Type 0
IsOpen none = ⊥
IsOpen (some p) = p.closed ≡ false

error-change :
    (i j : ℕ) (ps : List Part)
    → error_of (get_elem? ps j) ≡ none
    → error_of (get_elem? (change_part i (λ p. record p { closed = true }) ps) j) ≡ none
unfolding change_part
error-change i j [] h = refl
error-change zero zero (p ∷ ps) h = h
error-change zero (suc j) (p ∷ ps) h = h
error-change (suc i) zero (p ∷ ps) h = h
error-change (suc i) (suc j) (p ∷ ps) h = error-change i j ps h

error-append :
    (ps : List Part) (i : ℕ)
    → ((j : ℕ) → error_of (get_elem? ps j) ≡ none)
    → error_of (get_elem? (ps ++ record { closed = false; we = none } ∷ []) i) ≡ none
error-append [] zero h = refl
error-append [] (suc i) h = refl
error-append (p ∷ ps) zero h = h 0
error-append (p ∷ ps) (suc i) h = error-append ps i (λ j. h (suc j))

get-last : (ps : List Part) (p : Part) → get_elem? (ps ++ p ∷ []) (length ps) ≡ some p
get-last [] p = refl
get-last (q ∷ ps) p = get-last ps p

module _ (sink : Sink) (accepts : Accepts sink) (boundary : Bytes) where
  send-accepts :
      (chunk : Bytes) (w : Writer)
      → send sink chunk w ≡ (record w { out = w.out ++ chunk ∷ [] }, length chunk, none)
  unfolding send
  send-accepts chunk w = rw (accepts w.out chunk, send) refl

  close_if-Sent :
      (o : Option ℕ) {text : Bytes} {w : Writer}
      → Sent boundary text w
      → Sent boundary text (close_if o w).0
        × ((close_if o w).1 ≡ none)
        × ((close_if o w).0.lastpart ≡ w.lastpart)
  unfolding close_if close_part
  close_if-Sent none s = (s, refl, refl)
  close_if-Sent (some k) {text} {w} s = (
    record {
      same = s.same;
      sent = s.sent;
      no_errors = λ i. error-change k i w.parts (s.no_errors i);
    },
    s.no_errors k,
    refl,
  )

  open_after-none :
      (header : Header) (r : Writer × Option ℕ)
      → r.1 ≡ none
      → open_after sink header r ≡ open_part sink header r.0
  open_after-none header (w, none) e = refl
  open_after-none header (w, some x) e = cc

  end_after-none :
      (r : Writer × Option ℕ) → r.1 ≡ none → end_after sink r ≡ end_after sink (r.0, none)
  end_after-none (w, none) e = refl
  end_after-none (w, some x) e = cc

  -- A part that was made, and can be written to.
  record Made (i : ℕ) (text : Bytes) (w : Writer) : Type 0 where
    so_far : Sent boundary text w
    last : w.lastpart ≡ some i
    open_there : get_elem? w.parts i ≡ some (record { closed = false; we = none })

  Sent-chunk :
      (text chunk : Bytes) (w : Writer)
      → Sent boundary text w
      → Sent boundary (text ++ chunk) (record w { out = w.out ++ chunk ∷ [] })
  Sent-chunk text chunk w s = record {
    same = s.same;
    sent = joined-append w.out chunk ∙ ap (λ z. z ++ chunk) s.sent;
    no_errors = s.no_errors;
  }

  create_part-Made :
      (header : Header) (text : Bytes) (w : Writer)
      → Sent boundary text w
      → (i : ℕ) × (w' : Writer) × (create_part sink header w ≡ (w', some i, none))
        × Made i (text ++ (delimiter w.lastpart boundary ++ (header_text header ++ crlf))) w'
  unfolding create_part open_part
  create_part-Made header text w s =
      let (s', e, l) = close_if-Sent w.lastpart s in
      let w1 = (close_if w.lastpart w).0 in
      let chunk = delimiter w1.lastpart w1.boundary ++ (header_text header ++ crlf) in
      let w2 = record w1 { out = w1.out ++ chunk ∷ [] } in
      let same : chunk ≡ delimiter w.lastpart boundary ++ (header_text header ++ crlf) =
        ap (λ (o : Option ℕ). delimiter o w1.boundary ++ (header_text header ++ crlf)) l
        ∙ ap (λ b. delimiter w.lastpart b ++ (header_text header ++ crlf)) s'.same in
      let now = Sent-chunk text chunk w1 s' in
      (
        length w1.parts,
        record w2 {
          parts = w1.parts ++ record { closed = false; we = none } ∷ [];
          lastpart = some (length w1.parts);
        },
        open_after-none header (close_if w.lastpart w) e ∙ ap add_part (send-accepts chunk w1),
        record {
          so_far = record {
            same = now.same;
            sent = now.sent ∙ ap (λ z. text ++ z) same;
            no_errors = λ i. error-append w1.parts i now.no_errors;
          };
          last = refl;
          open_there = get-last w1.parts _;
        },
      )

  part_write-Made :
      (i : ℕ) (d text : Bytes) (w : Writer)
      → Made i text w
      → (w' : Writer) × (part_write sink i d w ≡ (w', length d, none)) × Made i (text ++ d) w'
  unfolding part_write record_error
  part_write-Made i d text w m = (
    record w { out = w.out ++ d ∷ [] },
    rw (m.open_there, part_write, send-accepts d w) refl,
    record { so_far = Sent-chunk text d w m.so_far; last = m.last; open_there = m.open_there },
  )

-- A client: for each part it makes the part and writes its chunks.
abbrev pub Content : Type 0
Content = List (Header × List Bytes)

module _ (sink : Sink) where
  unfoldable pub write_chunks : ℕ → List Bytes → Writer → Writer
  write_chunks i [] w = w
  write_chunks i (d ∷ ds) w = write_chunks i ds (part_write sink i d w).0

  abbrev pub write_made : List Bytes → Writer × Option ℕ × Option ℕ → Writer
  write_made ds (w, none, err) = w
  write_made ds (w, some i, err) = write_chunks i ds w

  unfoldable pub write_parts : Content → Writer → Writer
  write_parts [] w = w
  write_parts ((header, ds) ∷ rest) w = write_parts rest (write_made ds (create_part sink header w))

-- the text of the parts; the option says if a part stands in front
unfoldable pub parts_text : Bytes → Option ℕ → Content → Bytes
parts_text boundary before [] = []
parts_text boundary before ((header, ds) ∷ rest) =
    (delimiter before boundary ++ (header_text header ++ crlf))
    ++ (joined ds ++ parts_text boundary (some 0) rest)

delimiter-some :
    (i : ℕ) (boundary : Bytes) → delimiter (some i) boundary ≡ delimiter (some 0) boundary
unfolding delimiter
delimiter-some i boundary = refl

parts_text-some :
    (i : ℕ) (boundary : Bytes) (c : Content)
    → parts_text boundary (some i) c ≡ parts_text boundary (some 0) c
unfolding parts_text
parts_text-some i boundary [] = refl
parts_text-some i boundary ((header, ds) ∷ rest) = rw (delimiter-some i boundary) refl

module _ (sink : Sink) (accepts : Accepts sink) (boundary : Bytes) where
  write_chunks-Made :
      (i : ℕ) (ds : List Bytes) (text : Bytes) (w : Writer)
      → Made sink accepts boundary i text w
      → Made sink accepts boundary i (text ++ joined ds) (write_chunks sink i ds w)
  unfolding write_chunks joined
  write_chunks-Made i [] text w m = rw (append-nil text) m
  write_chunks-Made i (d ∷ ds) text w m =
      let (w', e, m') = part_write-Made sink accepts boundary i d text w m in
      rw (e, sym (append_assoc text d (joined ds))) (write_chunks-Made i ds (text ++ d) w' m')

  write_parts-Sent :
      (c : Content) (text : Bytes) (w : Writer)
      → Sent boundary text w
      → Sent boundary (text ++ parts_text boundary w.lastpart c) (write_parts sink c w)
  unfolding write_parts parts_text
  write_parts-Sent [] text w s = rw (append-nil text) s
  write_parts-Sent ((header, ds) ∷ rest) text w s =
      let opening = delimiter w.lastpart boundary ++ (header_text header ++ crlf) in
      let (i, w', e, m) = create_part-Made sink accepts boundary header text w s in
      let m' = write_chunks-Made i ds (text ++ opening) w' m in
      let done = write_parts-Sent rest _ _ m'.so_far in
      let whole =
        append_assoc (text ++ opening) (joined ds) _
        ∙ append_assoc text opening _
        ∙ ap (λ z. text ++ (opening ++ (joined ds ++ z)))
            (ap (λ o. parts_text boundary o rest) m'.last ∙ parts_text-some i boundary rest) in
      rw e (
        subst (λ z. Sent boundary z (write_parts sink rest (write_chunks sink i ds w'))) whole done)

  close-Sent :
      (text : Bytes) (w : Writer)
      → Sent boundary text w
      → (w' : Writer) × (close sink w ≡ (w', none)) × (joined w'.out ≡ text ++ end_line boundary)
  unfolding close
  close-Sent text w s =
      let (s', e, l) = close_if-Sent sink accepts boundary w.lastpart s in
      let w1 = record (close_if w.lastpart w).0 { lastpart = none } in
      let sent =
        Sent-chunk sink accepts boundary text (end_line w1.boundary) w1
          (record { same = s'.same; sent = s'.sent; no_errors = s'.no_errors }) in
      (
        record w1 { out = w1.out ++ end_line w1.boundary ∷ [] },
        end_after-none sink accepts boundary (close_if w.lastpart w) e
            ∙ ap (λ (r : Writer × ℕ × Option ℕ). (r.0, r.2))
                (send-accepts sink accepts boundary (end_line w1.boundary) w1),
        sent.sent ∙ ap (λ b. text ++ end_line b) s'.same,
      )

  -- the text that is sent with an underlying writer that takes all, in the words of the code
  pub close-parts_text :
      (c : Content)
      → (joined (close sink (write_parts sink c (new_writer boundary))).0.out
          ≡ parts_text boundary none c ++ end_line boundary)
        × ((close sink (write_parts sink c (new_writer boundary))).1 ≡ none)
  close-parts_text c =
      let new : Sent boundary [] (new_writer boundary) = record {
        same = refl;
        sent = unfold joined in refl;
        no_errors = λ i. refl;
      } in
      let (w', e, sent) =
        close-Sent (parts_text boundary none c) (write_parts sink c (new_writer boundary))
          (write_parts-Sent c [] (new_writer boundary) new) in
      rw e (sent, refl)
