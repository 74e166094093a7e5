-- ===== src/Multipart/PartContent.antt =====
-- multipart/multipart.go: what `partReader.Read` gives of a part, read after read.
use mime.Base.{
  ℕ, zero, suc, ◌+◌, ◌<◌, ◌≤◌, [], ◌∷◌, ◌++◌, Bool, true, false, ◌&&◌, ◌||◌, Option, none, some,
  ltb, leb, ◌==◌, if◌then◌else◌, take, drop, length, ◌≡◌, refl, ap, sym, subst, ◌∙◌, inl, inr,
  arith, Bool-cases, take-append-drop, append-nil, append_assoc, leb→le, lt→ltb,
}
use mime.Base.Bytes.{Bytes}
use mime.Multipart.Bufio.{ReadError, eof, buffer_size, peek}
use mime.Multipart.Lines.{Marks, peek_buffer_is_empty_part}
use mime.Multipart.Reader.{
  Part, Reader, PartRead, copy_count, is_eof, read_failure, give, read_ahead, part_read,
}
use mime.Multipart.Separator.{Ahead, Copies, copy_count-Copies}
use mime.Multipart.Search.{drop-append_within}

-- the part with other bytes in its buffer, and `bytesRead`
abbrev pub holding : Part → Bytes → ℕ → Part
holding p b k = record p { buffer = b; bytes_read = k }

-- the reader in front of some bytes, with the end of the file behind them
abbrev pub in_front : Reader → Bytes → Reader
in_front mr s = record mr { buf = record { rest = s; fail = none } }

-- The part is not taken for an empty one.
abbrev pub Begun : ℕ → Marks → Bytes → Type 0
Begun k marks s = (k == 0 && peek_buffer_is_empty_part marks (take buffer_size s)) ≡ false

take-append_within : (n : ℕ) (p s : Bytes) → n ≤ length p → take n (p ++ s) ≡ take n p
take-append_within zero p s h = refl
take-append_within (suc n) [] s h = absurd (omega arith)
take-append_within (suc n) (b ∷ p) s h = ap (λ t. b ∷ t) (take-append_within n p s (omega arith))

module _ (p : Part) (mr : Reader) (rest : Bytes) where
  read_ahead_lem :
      (n k : ℕ) (b c : Bytes) (err : Option ReadError)
      → read_failure err ≡ none
      → Begun k mr.marks (c ++ rest)
      → let q = copy_count mr.marks (take buffer_size (c ++ rest)) (is_eof err) in
        q.0 ≤ length c
        → read_ahead n (holding p b k) (in_front mr (c ++ rest)) err (take buffer_size (c ++ rest))
          ≡ give n
              (is_eof err || q.1)
              (holding p (b ++ take q.0 c) k)
              (in_front mr (drop q.0 c ++ rest))
  unfolding read_ahead
  read_ahead_lem n k b c err e g l =
      let count = (copy_count mr.marks (take buffer_size (c ++ rest)) (is_eof err)).0 in
      rw (g, e, take-append_within count c rest l, drop-append_within count c rest l) refl

-- A read from a buffer that is not empty gives something, and no error.
record Gives (n : ℕ) (p : Part) (k : ℕ) (text : Bytes) (mr : Reader) (r : PartRead) : Type 0 where
  d : Bytes
  later : Bytes
  same : text ≡ d ++ later
  moves : 1 ≤ length d
  result : r ≡ (holding p later (k + length d), mr, d, none)

give-Gives :
    (n : ℕ) (at_end : Bool) (p : Part) (k : ℕ) (text : Bytes) (mr : Reader)
    → 0 < n
    → 0 < length text
    → Gives n p k text mr (give n at_end (holding p text k) mr)
give-Gives n at_end p k [] mr h l = absurd (omega arith)
give-Gives zero at_end p k (x ∷ text) mr h l = absurd (omega arith)
give-Gives (suc n) at_end p k (x ∷ text) mr h l = record {
  d = take (suc n) (x ∷ text);
  later = drop (suc n) (x ∷ text);
  same = sym (take-append-drop (suc n) (x ∷ text));
  moves = omega arith;
  result = refl;
}

Copies-within : (c : Bytes) (q : ℕ × Bool) → Copies c q → q.0 ≤ length c
Copies-within [] q (z, f) = omega (arith, z)
Copies-within (x ∷ c) q (s, l) = l

Copies-some :
    (b c : Bytes) (q : ℕ × Bool) → Copies c q → 0 < length (b ++ c) → 0 < length (b ++ take q.0 c)
Copies-some (y ∷ b) c q h l = omega arith
Copies-some [] [] q h l = absurd (omega arith)
Copies-some [] (x ∷ c) (zero, f) (s, m) l = absurd (omega arith)
Copies-some [] (x ∷ c) (suc j, f) (s, m) l = omega arith

-- A read before the end: it gives the next bytes of the buffer and the content.
pub record Moves (n : ℕ) (p : Part) (k : ℕ) (b c : Bytes) (mr : Reader) (rest : Bytes)
    : Type 0 where
  pub d : Bytes
  pub later : Bytes
  pub taken : ℕ
  pub same : b ++ c ≡ d ++ (later ++ drop taken c)
  pub moves : 1 ≤ length d
  pub within : taken ≤ length c
  pub result :
      part_read n (holding p b k) (in_front mr (c ++ rest))
      ≡ (holding p later (k + length d), in_front mr (drop taken c ++ rest), d, none)

-- what `Peek` says of the end of the file
abbrev peek_error : Bytes → Option ReadError
peek_error s = if ltb (length s) buffer_size then some eof else none

peek_error-ltb :
    (s : Bytes)
    → (is_eof (peek_error s) ≡ ltb (length s) buffer_size) × (read_failure (peek_error s) ≡ none)
peek_error-ltb s = elim (Bool-cases (ltb (length s) buffer_size)) [
  | inl h ↦ rw h (refl, refl)
  | inr h ↦ rw h (refl, refl)
]

module _ (p : Part) (mr : Reader) (rest : Bytes) where
  -- The next bytes of the buffer and the content, where some of the content came to the buffer.
  moved :
      (n k j : ℕ) (b c text : Bytes)
      → text ≡ b ++ take j c
      → Gives n p k text
          (in_front mr (drop j c ++ rest))
          (part_read n (holding p b k) (in_front mr (c ++ rest)))
      → j ≤ length c
      → Moves n p k b c mr rest
  moved n k j b c text e g l = record {
    d = g.d;
    later = g.later;
    taken = j;
    same =
        ap (λ t. b ++ t) (sym (take-append-drop j c))
        ∙ sym (append_assoc b (take j c) (drop j c))
        ∙ ap (λ t. t ++ drop j c) (sym e ∙ g.same)
        ∙ append_assoc g.d g.later (drop j c);
    moves = g.moves;
    within = l;
    result = g.result;
  }

module _ (p : Part) (mr : Reader) (s : Bytes) where
  part_read_buffered :
      (n k : ℕ) (b : Bytes)
      → leb n (length b) ≡ true
      → part_read n (holding p b k) (in_front mr s) ≡ give n false (holding p b k) (in_front mr s)
  unfolding part_read
  part_read_buffered n k b e = rw e refl

  part_read_short :
      (n k : ℕ) (b : Bytes)
      → leb n (length b) ≡ false
      → part_read n (holding p b k) (in_front mr s)
        ≡ read_ahead n (holding p b k) (in_front mr s) (peek_error s) (take buffer_size s)
  unfolding part_read peek
  part_read_short n k b e = rw e refl

last_read :
    (p : Part) (mr : Reader) (k m : ℕ) (b : Bool)
    → m ≡ k
    → b ≡ true
    → ◌≡◌ {A = PartRead}
        (holding p [] m, mr, [], if b && true then some eof else none)
        (holding p [] k, mr, [], some eof)
last_read p mr k m true e f = ap (λ i. (holding p [] i, mr, [], some eof)) e
last_read p mr k m false e f = cc

give_end :
    (n k j : ℕ) (no_more found : Bool) (p : Part) (mr : Reader) (rest : Bytes)
    → j ≡ 0
    → found ≡ true
    → give (suc n) (no_more || found) (holding p (take j []) k) (in_front mr (drop j [] ++ rest))
      ≡ (holding p [] k, in_front mr rest, [], some eof)
give_end n k j true found p mr rest z f = rw z (
    last_read p (in_front mr rest) k (k + 0) (ltb 0 (suc n)) (omega arith)
      (lt→ltb 0 (suc n) (omega arith)))
give_end n k j false found p mr rest z f = rw z (
    rw f (
      last_read p (in_front mr rest) k (k + 0) (ltb 0 (suc n)) (omega arith)
        (lt→ltb 0 (suc n) (omega arith))))

module _ (p : Part) (mr : Reader) (after : Bytes) where
  abbrev rest : Bytes
  rest = mr.marks.nl_dash_boundary ++ after

  pub part_read-Moves :
      (n k : ℕ) (b c : Bytes)
      → Ahead mr.marks c after
      → Begun k mr.marks (c ++ rest)
      → 0 < n
      → 0 < length (b ++ c)
      → Moves n p k b c mr rest
  part_read-Moves n k b c a g h l = elim (Bool-cases (leb n (length b))) [
    | inl e ↦
        let filled : 0 < length b = omega (arith, leb→le n (length b) e) in
        moved p mr rest n k 0 b c b (sym (append-nil b))
          (subst (Gives n p k b (in_front mr (c ++ rest)))
            (sym (part_read_buffered p mr (c ++ rest) n k b e))
            (give-Gives n false p k b (in_front mr (c ++ rest)) h filled))
          (omega arith)
    | inr e ↦
        let err = peek_error (c ++ rest) in
        let (eof_is, no_failure) = peek_error-ltb (c ++ rest) in
        let q = copy_count mr.marks (take buffer_size (c ++ rest)) (is_eof err) in
        let copies = copy_count-Copies mr.marks after c a (is_eof err) eof_is in
        let within = Copies-within c q copies in
        let text = b ++ take q.0 c in
        let to_give =
          part_read_short p mr (c ++ rest) n k b e
          ∙ read_ahead_lem p mr rest n k b c err no_failure g within in
        moved p mr rest n k q.0 b c text refl
          (subst (Gives n p k text (in_front mr (drop q.0 c ++ rest))) (sym to_give) (
            give-Gives n (is_eof err || q.1) p k text (in_front mr (drop q.0 c ++ rest)) h
              (Copies-some b c q copies l)))
          within
  ]

  -- A read at the end, where nothing is left in the buffer.
  pub part_read-ends :
      (n k : ℕ)
      → Ahead mr.marks [] after
      → Begun k mr.marks rest
      → 0 < n
      → part_read n (holding p [] k) (in_front mr rest)
        ≡ (holding p [] k, in_front mr rest, [], some eof)
  part_read-ends zero k a g h = absurd (omega arith)
  part_read-ends (suc n) k a g h =
      let err = peek_error rest in
      let (eof_is, no_failure) = peek_error-ltb rest in
      let (none_taken, seen) = copy_count-Copies mr.marks after [] a (is_eof err) eof_is in
      part_read_short p mr rest (suc n) k [] (ground arith)
      ∙ read_ahead_lem p mr rest (suc n) k [] [] err no_failure g (omega (arith, none_taken))
      ∙ give_end n k _ (is_eof err) _ p mr rest none_taken seen
