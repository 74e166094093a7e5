-- ===== src/Multipart/Writer/Parts.antt =====
-- multipart/writer.go: only the last part is open.
use mathlib.Core.Option
use mime.Base.{
  ℕ, zero, suc, ◌<◌, List, [], ◌∷◌, ◌++◌, Bool, true, false, Option, none, some, ◌==◌,
  if◌then◌else◌, length, get_elem?, ◌≡◌, refl, ap, sym, subst, ◌∙◌, ◌⊎◌, inl, inr, arith,
  Option-cases, ==_iff, length-append,
}
use mime.Base.Bytes.{Bytes}
use mime.Multipart.Writer.{
  Part, Writer, finished_part, Sink, Header, change_part, close_part, close_if, close_last, send,
  add_part, open_part, open_after, create_part, part_write, end_line, end_after, close, delimiter,
  header_text, crlf,
}

get_elem?-change_part :
    (i j : ℕ) (f : Part → Part) (ps : List Part)
    → get_elem? (change_part i f ps) j
      ≡ (if i == j then Option.map f (get_elem? ps j) else get_elem? ps j)
unfolding change_part
get_elem?-change_part i zero f [] = ground arith
get_elem?-change_part i (suc j) f [] = ground arith
get_elem?-change_part zero zero f (p ∷ ps) = ground arith
get_elem?-change_part zero (suc j) f (p ∷ ps) = ground arith
get_elem?-change_part (suc i) zero f (p ∷ ps) = ground arith
get_elem?-change_part (suc i) (suc j) f (p ∷ ps) = ground (arith, get_elem?-change_part i j f ps)

length-change_part :
    (i : ℕ) (f : Part → Part) (ps : List Part) → length (change_part i f ps) ≡ length ps
unfolding change_part
length-change_part i f [] = refl
length-change_part zero f (p ∷ ps) = refl
length-change_part (suc i) f (p ∷ ps) = ap suc (length-change_part i f ps)

-- The part at the index, if there is one, is closed.
abbrev pub IsClosed : Option Part → Type 0
IsClosed none = Unit
IsClosed (some p) = p.closed ≡ true

-- A part that is open is the last one, and the last one is there.
pub record IsValid (w : Writer) : Type 0 where
  pub closed : (i : ℕ) → (w.lastpart ≡ some i) ⊎ IsClosed (get_elem? w.parts i)
  pub there : (i : ℕ) → w.lastpart ≡ some i → i < length w.parts

closed_if :
    (b : Bool) (o : Option Part)
    → (b ≡ true) ⊎ IsClosed o
    → IsClosed (if b then Option.map {A = Part} (λ p. record p { closed = true }) o else o)
closed_if true none h = tt
closed_if true (some p) h = refl
closed_if false o (inl e) = cc
closed_if false o (inr h) = h

IsClosed-close :
    (i j : ℕ) (ps : List Part)
    → (i ≡ j) ⊎ IsClosed (get_elem? ps j)
    → IsClosed (get_elem? (change_part i (λ p. record p { closed = true }) ps) j)
IsClosed-close i j ps (inl e) =
    rw (get_elem?-change_part i j (λ p. record p { closed = true }) ps)
      (closed_if (i == j) (get_elem? ps j) (inl ((==_iff i j).1 e)))
IsClosed-close i j ps (inr h) =
    rw (get_elem?-change_part i j (λ p. record p { closed = true }) ps)
      (closed_if (i == j) (get_elem? ps j) (inr h))

IsClosed-append :
    (ps : List Part) (p : Part) (i : ℕ)
    → ((j : ℕ) → IsClosed (get_elem? ps j))
    → (length ps ≡ i) ⊎ IsClosed (get_elem? (ps ++ p ∷ []) i)
IsClosed-append [] p zero h = inl refl
IsClosed-append [] p (suc i) h = inr tt
IsClosed-append (q ∷ ps) p zero h = inr (h 0)
IsClosed-append (q ∷ ps) p (suc i) h = elim (IsClosed-append ps p i (λ j. h (suc j))) [
  | inl e ↦ inl (ap suc e)
  | inr c ↦ inr c
]

-- All parts are closed.
abbrev pub AllClosed : Writer → Type 0
AllClosed w = (i : ℕ) → IsClosed (get_elem? w.parts i)

some_injective : {a b : ℕ} → some a ≡ some b → a ≡ b
some_injective e = cc

-- What the close of the last part leaves.
pub record Closing (w w' : Writer) : Type 0 where
  pub all : AllClosed w'
  pub last : w'.lastpart ≡ w.lastpart
  pub count : length w'.parts ≡ length w.parts

close_if-Closing :
    (o : Option ℕ) (w : Writer) → w.lastpart ≡ o → IsValid w → Closing w (close_if o w).0
unfolding close_if close_part
close_if-Closing none w e v = record {
  all = λ i. elim (v.closed i) [ inl f ↦ cc | inr c ↦ c ];
  last = refl;
  count = refl;
}
close_if-Closing (some k) w e v = record {
  all = λ i.
      IsClosed-close k i w.parts
        (elim (v.closed i) [ inl f ↦ inl (some_injective (sym e ∙ f)) | inr c ↦ inr c ]);
  last = refl;
  count = length-change_part k _ w.parts;
}

AllClosed-IsValid : (w w' : Writer) → IsValid w → Closing w w' → IsValid w'
AllClosed-IsValid w w' v c = record {
  closed = λ i. inr (c.all i);
  there = λ i e. omega (arith, v.there i (sym c.last ∙ e), c.count);
}

module _ (sink : Sink) where
  -- A call of the underlying writer leaves the parts as they are.
  send-parts :
      (chunk : Bytes) (w : Writer)
      → ((send sink chunk w).0.parts ≡ w.parts) × ((send sink chunk w).0.lastpart ≡ w.lastpart)
  unfolding send
  send-parts chunk w = elim (Option-cases (sink w.out chunk)) [
    | inl n ↦ rw (n, send) (refl, refl)
    | inr ((n, e), f) ↦ rw (f, send) (refl, refl)
  ]

  -- The new part is the last one, and the only one that is open.
  after_open-IsValid :
      (w : Writer)
      → AllClosed w
      → IsValid (record w {
        parts = w.parts ++ record { closed = false; we = none } ∷ [];
        lastpart = some (length w.parts);
      })
  after_open-IsValid w all = record {
    closed = λ i. elim (IsClosed-append w.parts (record { closed = false; we = none }) i all) [
      | inl e ↦ inl (ap some e)
      | inr c ↦ inr c
    ];
    there = λ i e. omega (
      arith,
      some_injective e,
      length-append w.parts (record { closed = false; we = none } ∷ []),
    );
  }

  add_part-IsValid :
      (r : Writer × ℕ × Option ℕ) → AllClosed r.0 → IsValid r.0 → IsValid (add_part r).0
  add_part-IsValid (w, n, some e) all v = v
  add_part-IsValid (w, n, none) all v = after_open-IsValid w all

  open_after-IsValid :
      (header : Header) (r : Writer × Option ℕ)
      → AllClosed r.0
      → IsValid r.0
      → IsValid (open_after sink header r).0
  unfolding open_part
  open_after-IsValid header (w, some e) all v = v
  open_after-IsValid header (w, none) all v =
      let chunk = delimiter w.lastpart w.boundary ++ (header_text header ++ crlf) in
      let (same, last) = send-parts chunk w in
      add_part-IsValid (send sink chunk w) (λ i. rw same (all i))
        (record {
          closed = λ i. rw same (inr (all i));
          there = λ i e. rw same (v.there i (sym last ∙ e));
        })

  -- `CreatePart` leaves a valid writer, whether the underlying writer accepts the header or not.
  pub create_part-IsValid :
      (header : Header) {w : Writer} → IsValid w → IsValid (create_part sink header w).0
  unfolding create_part
  create_part-IsValid header {w} v =
      let c = close_if-Closing w.lastpart w refl v in
      open_after-IsValid header (close_last w) c.all (AllClosed-IsValid w _ v c)

  end_after-AllClosed : (r : Writer × Option ℕ) → AllClosed r.0 → AllClosed (end_after sink r).0
  end_after-AllClosed (w, some e) all = all
  end_after-AllClosed (w, none) all =
      λ i. rw (send-parts (end_line w.boundary) (record w { lastpart = none })).0 (all i)

  -- After `Close`, every part that the writer has made is closed.
  pub close-AllClosed : {w : Writer} → IsValid w → AllClosed (close sink w).0
  unfolding close
  close-AllClosed {w} v =
      end_after-AllClosed (close_last w) (close_if-Closing w.lastpart w refl v).all

  add_part-IsClosed :
      (r : Writer × ℕ × Option ℕ) (i : ℕ)
      → AllClosed r.0
      → i < length r.0.parts
      → IsClosed (get_elem? (add_part r).0.parts i)
  add_part-IsClosed (w, n, some e) i all l = all i
  add_part-IsClosed (w, n, none) i all l =
      elim (IsClosed-append w.parts (record { closed = false; we = none }) i all) [
        | inl e ↦ absurd (omega (arith, l, e))
        | inr c ↦ c
      ]

  open_after-IsClosed :
      (header : Header) (r : Writer × Option ℕ) (i : ℕ)
      → AllClosed r.0
      → i < length r.0.parts
      → IsClosed (get_elem? (open_after sink header r).0.parts i)
  unfolding open_part
  open_after-IsClosed header (w, some e) i all l = all i
  open_after-IsClosed header (w, none) i all l =
      let chunk = delimiter w.lastpart w.boundary ++ (header_text header ++ crlf) in
      let same = (send-parts chunk w).0 in
      add_part-IsClosed (send sink chunk w) i (λ j. rw same (all j)) (rw same l)

  closed_write :
      (i : ℕ) (d : Bytes) (w : Writer)
      → IsClosed (get_elem? w.parts i)
      → part_write sink i d w ≡ (w, 0, some finished_part)
  unfolding part_write
  closed_write i d w c = elim (Option-cases (get_elem? w.parts i)) [
    | inl n ↦ rw (n, part_write) refl
    | inr (p, e) ↦ rw (e, part_write) (rw (subst IsClosed e c) refl)
  ]

  -- After `CreatePart` on a valid writer, whether the underlying writer has taken the header or not,
  -- `Write` on any part that was made before sends nothing, changes nothing and returns the error
  -- that the part is finished.
  pub create_part-part_write :
      (header : Header) (i : ℕ) (d : Bytes) {w : Writer}
      → IsValid w
      → i < length w.parts
      → part_write sink i d (create_part sink header w).0
        ≡ ((create_part sink header w).0, 0, some finished_part)
  unfolding create_part
  create_part-part_write header i d {w} v l =
      let c = close_if-Closing w.lastpart w refl v in
      closed_write i d _
        (open_after-IsClosed header (close_last w) i c.all (omega (arith, l, c.count)))
