-- ===== src/QuotedPrintable/Decoding.antt =====
-- quotedprintable/writer.go: the escapes and line ends of the writer decode to what was written, for a
-- decoder that deletes no blanks.
use mime.Base.{
  ℕ, ◌+◌, ◌-◌, List, [], ◌∷◌, ◌++◌, true, false, not, Bool, none, some, Option, All, All-append,
  length, ◌≡◌, ◌≢◌, ◌⊎◌, inl, inr, refl, ap, sym, ◌∙◌, arith, ◌==◌, ltb, append_assoc, append-nil,
  Option-cases, Bool-cases, if◌then◌else◌, ◌&&◌, ◌||◌,
}
use mime.Base.Bytes.{Bytes, IsByte}
use mime.QuotedPrintable.Flushes.{
  crlf, soft, held, sent, Refuses, Flushes, flush_cases, insert_crlf_cases, insert_soft_cases,
  split_last-some,
}
use mime.QuotedPrintable.Spec.{
  plain, feed, feed-append, step_literal, feed_escape, feed_soft, feed_crlf, Decodes, Decodes-blank,
}
use mime.QuotedPrintable.Writer.{
  Writer, Sink, Step, continue_with, ◌>>◌, skip, append, set_cr, is_whitespace, split_last, flush,
  insert_crlf, insert_soft_line_break, encode, check_last_byte, write_byte, write, is_simple,
  continue_at, write_loop, write_all, close, line_max_len,
}

abbrev pub flat : List Bytes → Bytes
flat [] = []
flat (c ∷ cs) = c ++ flat cs

pub flat_concat : (cs : List Bytes) (c : Bytes) → flat (cs ++ c ∷ []) ≡ flat cs ++ c
flat_concat [] c = append-nil c
flat_concat (d ∷ cs) c = ap (λ t. d ++ t) (flat_concat cs c) ∙ sym (append_assoc d (flat cs) c)

-- all that has gone out, and the line that waits
abbrev pub total : Writer → Bytes
total w = flat w.out ++ w.line

-- The writer has taken `text`: what it has sent and holds decodes to it.
pub record Holds (binary : Bool) (text : Bytes) (w : Writer) : Type 0 where
  pub decodes : Decodes (total w) text
  pub same_mode : w.binary ≡ binary
  pub no_cr : w.cr ≡ false

-- What an input stands for: in text mode a line feed is a line end, and else a byte is itself.
abbrev pub one : Bool → ℕ → Bytes
one binary b = if not binary && b == b'\n' then crlf else b ∷ []

abbrev pub meaning : Bool → Bytes → Bytes
meaning binary [] = []
meaning binary (b ∷ p) = one binary b ++ meaning binary p

meaning-append :
    (binary : Bool) (p q : Bytes) → meaning binary (p ++ q) ≡ meaning binary p ++ meaning binary q
meaning-append binary [] q = refl
meaning-append binary (b ∷ p) q =
    ap (λ t. one binary b ++ t) (meaning-append binary p q)
    ∙ sym (append_assoc (one binary b) (meaning binary p) (meaning binary q))

-- A byte, and in text mode no carriage return.
abbrev pub IsInput : Bool → ℕ → Type 0
IsInput binary b = IsByte b × ((binary ≡ true) ⊎ (b ≢ b'\r'))

-- what the writer makes of a byte that it writes unescaped: a line feed ends the line
abbrev shown : ℕ → Bytes
shown b = if b == b'\n' then crlf else b ∷ []

-- A byte of a batch: `write` gets no `=` and no carriage return, and a line feed in text mode only.
abbrev IsBatch : Bool → ℕ → Type 0
IsBatch binary b = ((b == b'=') ≡ false) × ((b == b'\r') ≡ false) × (shown b ≡ one binary b)

simple-IsBatch :
    (binary : Bool) (b : ℕ) → IsInput binary b → is_simple binary b ≡ true → IsBatch binary b
unfolding is_simple is_whitespace
simple-IsBatch binary b i e = (ground arith, ground arith, ground arith)

escaped_one : (binary : Bool) (b : ℕ) → is_simple binary b ≡ false → one binary b ≡ b ∷ []
unfolding is_simple is_whitespace
escaped_one binary b e = ground arith

module _ (sink : Sink) (binary : Bool) where
  -- after a call that fails only if the sink refuses
  abbrev pub Post : Bytes → Writer × Option ℕ → Type 0
  Post text (w, none) = Holds binary text w
  Post text (w, some e) = Refuses sink e

  continue_with-Post :
      {text : Bytes} (text' : Bytes) (r : Writer × Option ℕ) (k : Step)
      → Post text r
      → ((w : Writer) → Holds binary text w → Post text' (k w))
      → Post text' (continue_with r k)
  continue_with-Post text' (w, some e) k p h = p
  continue_with-Post text' (w, none) k p h = h w p

  total-sent : (w : Writer) (bs : Bytes) → total (sent w bs) ≡ total w ++ bs
  total-sent w bs =
      append-nil _ ∙ flat_concat w.out (w.line ++ bs) ∙ sym (append_assoc (flat w.out) w.line bs)

  -- bytes put behind what decodes
  put_behind :
      {text text' : Bytes} (s bs : Bytes)
      → Decodes s text
      → feed bs (some (plain, text)) ≡ some (plain, text')
      → Decodes (s ++ bs) text'
  put_behind s bs d f = feed-append s bs (some (plain, [])) ∙ ap (feed bs) d ∙ f

  append-Holds :
      {text text' : Bytes} (w : Writer) (bs : Bytes)
      → Holds binary text w
      → feed bs (some (plain, text)) ≡ some (plain, text')
      → Holds binary text' (held w bs)
  append-Holds w bs h f = record {
    decodes = rw (← append_assoc (flat w.out) w.line bs) (put_behind (total w) bs h.decodes f);
    same_mode = h.same_mode;
    no_cr = h.no_cr;
  }

  Flushes-Post :
      {text text' : Bytes} {r : Writer × Option ℕ} (w : Writer) (bs : Bytes)
      → Flushes sink r w bs
      → Holds binary text w
      → feed bs (some (plain, text)) ≡ some (plain, text')
      → Post text' r
  Flushes-Post w bs (inl (e, p, q)) h f = rw p q
  Flushes-Post w bs (inr p) h f = rw p (record {
    decodes = rw (total-sent w bs) (put_behind (total w) bs h.decodes f);
    same_mode = h.same_mode;
    no_cr = h.no_cr;
  })

  insert_soft-Post :
      {text : Bytes} (w : Writer) → Holds binary text w → Post text (insert_soft_line_break sink w)
  insert_soft-Post {text} w h = Flushes-Post w soft (insert_soft_cases sink w) h (feed_soft text)

  insert_crlf-Post :
      {text : Bytes} (w : Writer) → Holds binary text w → Post (text ++ crlf) (insert_crlf sink w)
  insert_crlf-Post {text} w h = Flushes-Post w crlf (insert_crlf_cases sink w) h (feed_crlf text)

  -- room for what follows, by a soft line break if the test says so
  room-Post :
      {text : Bytes} (text' : Bytes) (test : Bool) (k : Step) (w : Writer)
      → Holds binary text w
      → ((w' : Writer) → Holds binary text w' → Post text' (k w'))
      → Post text' (((if test then insert_soft_line_break sink else skip) >> k) w)
  room-Post text' true k w h f = continue_with-Post text' _ k (insert_soft-Post w h) f
  room-Post text' false k w h f = f w h

  encode-Post :
      {text : Bytes} (b : ℕ) (w : Writer)
      → IsByte b
      → Holds binary text w
      → Post (text ++ b ∷ []) (encode sink b w)
  unfolding encode append
  encode-Post {text} b w hb h =
      room-Post (text ++ b ∷ []) (ltb (line_max_len - 1 - length w.line) 3) _ w h
        λ w' h'. append-Holds w' _ h' (feed_escape b text hb)

  -- a blank at the end of the line is taken back and escaped
  blank-Post :
      {text : Bytes} (w : Writer) (front : Bytes) (b : ℕ)
      → w.line ≡ front ++ b ∷ []
      → (b == b' ' || b == b'\t') ≡ true
      → Holds binary text w
      → Post text (encode sink b (record w { line = front }))
  blank-Post {text} w front b e s h =
      let whole = ap (λ l. flat w.out ++ l) e ∙ sym (append_assoc (flat w.out) front (b ∷ [])) in
      let (before, d, t) = Decodes-blank (flat w.out ++ front) b text s (rw whole at h.decodes) in
      rw t (
        encode-Post b (record w { line = front }) (ground arith)
          (record { decodes = d; same_mode = h.same_mode; no_cr = h.no_cr }))

  check_last_byte-Post :
      {text : Bytes} (w : Writer) → Holds binary text w → Post text (check_last_byte sink w)
  unfolding check_last_byte is_whitespace
  check_last_byte-Post {text} w h = elim (Option-cases (split_last w.line)) [
    | inl e ↦ rw (e, check_last_byte) h
    | inr ((front, b), e) ↦ elim (Bool-cases (b == b' ' || b == b'\t')) [
      | inl s ↦ rw (e, check_last_byte, s) (blank-Post w front b (split_last-some w.line e) s h)
      | inr s ↦ rw (e, check_last_byte, s) h
    ]
  ]

  put_byte-Post :
      {text : Bytes} (b : ℕ) (w : Writer)
      → (b == b'=') ≡ false
      → Holds binary text w
      → Post (text ++ b ∷ []) ((append (b ∷ []) >> set_cr false) w)
  unfolding append set_cr feed
  put_byte-Post {text} b w n h =
      let put = append-Holds w (b ∷ []) h (step_literal b text n) in
      record { decodes = put.decodes; same_mode = put.same_mode; no_cr = refl }

  write_byte-Post :
      {text : Bytes} (b : ℕ) (w : Writer)
      → (b == b'=') ≡ false
      → (b == b'\r') ≡ false
      → Holds binary text w
      → Post (text ++ shown b) (write_byte sink b w)
  unfolding write_byte
  write_byte-Post {text} b w n r h = elim (Bool-cases (b == b'\n')) [
    | inl nl ↦
        simp (nl, r, h.no_cr)
          (continue_with-Post (text ++ crlf) (check_last_byte sink w) (insert_crlf sink)
            (check_last_byte-Post w h) insert_crlf-Post)
    | inr p ↦
        rw (p, r)
          (room-Post (text ++ b ∷ []) (length w.line == line_max_len - 1)
            (append (b ∷ []) >> set_cr false) w h (λ w' h'. put_byte-Post b w' n h'))
  ]

  write-Post :
      (p : Bytes) {text : Bytes} (w : Writer)
      → All (IsBatch binary) p
      → Holds binary text w
      → Post (text ++ meaning binary p) (write sink p w)
  unfolding write
  write-Post [] {text} w a h = rw (append-nil text) h
  write-Post (b ∷ p) {text} w ((n, r, e), a) h =
      rw (← append_assoc text (one binary b) (meaning binary p), ← e)
        (continue_with-Post _ (write_byte sink b w) (write sink p) (write_byte-Post b w n r h)
          (λ w' h'. write-Post p w' a h'))

  -- after a call that also returns a count
  abbrev pub CountPost : Bytes → Writer × ℕ × Option ℕ → Type 0
  CountPost text (w, n, none) = Holds binary text w
  CountPost text (w, n, some e) = Refuses sink e

  continue_at-Post :
      {text : Bytes} (text' : Bytes) (n : ℕ) (r : Writer × Option ℕ)
      (k : Writer → Writer × ℕ × Option ℕ)
      → Post text r
      → ((w : Writer) → Holds binary text w → CountPost text' (k w))
      → CountPost text' (continue_at n r k)
  continue_at-Post text' n (w, some e) k h f = h
  continue_at-Post text' n (w, none) k h f = f w h

  regroup :
      (pending : Bytes) (b : ℕ) (p : Bytes)
      → meaning binary pending ++ (one binary b ++ meaning binary p)
        ≡ meaning binary (pending ++ b ∷ []) ++ meaning binary p
  regroup pending b p = simp (meaning-append, append_assoc, append-nil)

  split_off :
      (text pending : Bytes) (b : ℕ) (p : Bytes)
      → text ++ (meaning binary pending ++ (b ∷ meaning binary p))
        ≡ ((text ++ meaning binary pending) ++ b ∷ []) ++ meaning binary p
  split_off text pending b p = simp append_assoc

  write_loop-Post :
      (n : ℕ) (pending p : Bytes) {text : Bytes} (w : Writer)
      → All (IsBatch binary) pending
      → All (IsInput binary) p
      → Holds binary text w
      → CountPost
          (text ++ (meaning binary pending ++ meaning binary p))
          (write_loop sink n pending p w)
  unfolding write_loop
  write_loop-Post n [] [] {text} w a i h = rw (append-nil text) h
  write_loop-Post n (b ∷ pending) [] {text} w a i h =
      rw (append-nil (meaning binary (b ∷ pending))) (
        continue_at-Post _ n (write sink (b ∷ pending) w) _ (write-Post (b ∷ pending) w a h)
          (λ w' h'. h'))
  write_loop-Post n pending (b ∷ p) {text} w a (ib, i) h =
      elim (Bool-cases (is_simple w.binary b)) [
        | inl e ↦
            let batch =
              simple-IsBatch binary b ib (ap (λ m. is_simple m b) (sym h.same_mode) ∙ e) in
            rw (e, write_loop)
              (rw (regroup pending b p) (
                write_loop-Post n (pending ++ b ∷ []) p w
                  (All-append (IsBatch binary) pending (b ∷ []) a (batch, tt)) i h))
        | inr e ↦
            let single = escaped_one binary b (ap (λ m. is_simple m b) (sym h.same_mode) ∙ e) in
            rw (e, write_loop)
              (rw (single, split_off text pending b p)
                (continue_at-Post _ n (write sink pending w) _ (write-Post pending w a h) λ w1 h1.
                  continue_at-Post _ (n + length pending) (encode sink b w1) _
                    (encode-Post b w1 ib.0 h1)
                    λ w2 h2. write_loop-Post (n + length pending + 1) [] p w2 tt i h2))
      ]

-- `Write` for a decoder that deletes no blanks
pub write_all-Holds :
    (sink : Sink) {binary : Bool} (p : Bytes) {text : Bytes} (w : Writer)
    → All (IsInput binary) p
    → Holds binary text w
    → CountPost sink binary (text ++ meaning binary p) (write_all sink p w)
unfolding write_all
write_all-Holds sink {binary} p w i h = write_loop-Post sink binary 0 [] p w tt i h

-- What a successful `Close` leaves: nothing waits, and what went out decodes to `text`.
abbrev pub Closed : Sink → Bytes → Writer × Option ℕ → Type 0
Closed sink text (w, none) = (w.line ≡ []) × Decodes (flat w.out) text
Closed sink text (w, some e) = Refuses sink e

flushed-Closed :
    (sink : Sink) (binary : Bool) (text : Bytes) (w : Writer)
    → Holds binary text w
    → Closed sink text (flush sink w)
flushed-Closed sink binary text w h = elim (flush_cases sink w) [
  | inl (x, e, q) ↦ rw e q
  | inr e ↦ rw e (refl, rw (flat_concat w.out w.line) h.decodes)
]

Closed-after :
    (sink : Sink) (binary : Bool) (text : Bytes) (r : Writer × Option ℕ)
    → Post sink binary text r
    → Closed sink text (continue_with r (flush sink))
Closed-after sink binary text (w, some e) h = h
Closed-after sink binary text (w, none) h = flushed-Closed sink binary text w h

-- `Close` for a decoder that deletes no blanks
pub close-Closed :
    (sink : Sink) {binary : Bool} {text : Bytes} (w : Writer)
    → Holds binary text w
    → Closed sink text (close sink w)
unfolding close
close-Closed sink {binary} {text} w h =
    Closed-after sink binary text (check_last_byte sink w) (check_last_byte-Post sink binary w h)
