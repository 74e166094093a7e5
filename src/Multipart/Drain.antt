-- ===== src/Multipart/Drain.antt =====
-- multipart/multipart.go: `Part.Close`, which reads a part until its end.
use mime.Base.{
  ℕ, zero, suc, ◌+◌, ◌<◌, ◌≤◌, [], ◌∷◌, ◌++◌, Bool, false, ◌&&◌, Option, none, some, ◌==◌, take,
  drop, length, ◌≡◌, ◌⊎◌, refl, ap, sym, ◌∙◌, inl, inr, arith, length-append,
}
use mime.Base.Bytes.{Bytes}
use mime.Multipart.Bufio.{ReadError, eof, buffer_size}
use mime.Multipart.Lines.{peek_buffer_is_empty_part}
use mime.Multipart.Reader.{Part, Reader, PartRead, part_read, read_more, drain}
use mime.Multipart.Separator.{Ahead, Ahead-drop}
use mime.Multipart.PartContent.{holding, in_front, Begun, part_read-Moves, part_read-ends}

nil_cases : (b c : Bytes) → ((b ≡ []) × (c ≡ [])) ⊎ (0 < length (b ++ c))
nil_cases [] [] = inl (refl, refl)
nil_cases [] (x ∷ c) = inr (omega arith)
nil_cases (x ∷ b) c = inr (omega arith)

-- a round of `drain`, after its read
abbrev after_read : ℕ → ℕ → PartRead → Option (Part × Reader × Bytes × ReadError)
after_read fuel n r =
    let (p, mr, d, err) = r in
    elim err [ some e ↦ some (p, mr, d, e) | none ↦ read_more d (drain fuel n p mr) ]

drain-after_read :
    (fuel n : ℕ) (p : Part) (mr : Reader)
    → drain (suc fuel) n p mr ≡ after_read fuel n (part_read n p mr)
unfolding drain
drain-after_read fuel n p mr = refl

begun_later : (k : ℕ) (d : Bytes) (e : Bool) → 1 ≤ length d → (k + length d == 0 && e) ≡ false
begun_later k d e h = ground arith

drain_end :
    (fuel n : ℕ) (p p' : Part) (mr mr' : Reader) (d : Bytes) (e : ReadError)
    → part_read n p mr ≡ (p', mr', d, some e)
    → drain (suc fuel) n p mr ≡ some (p', mr', d, e)
drain_end fuel n p p' mr mr' d e h = drain-after_read fuel n p mr ∙ ap (after_read fuel n) h

drain_step :
    (fuel n : ℕ) (p p' : Part) (mr mr' : Reader) (d : Bytes)
    → part_read n p mr ≡ (p', mr', d, none)
    → drain (suc fuel) n p mr ≡ read_more d (drain fuel n p' mr')
drain_step fuel n p p' mr mr' d h = drain-after_read fuel n p mr ∙ ap (after_read fuel n) h

module _ (p : Part) (mr : Reader) (after : Bytes) where
  abbrev rest : Bytes
  rest = mr.marks.nl_dash_boundary ++ after

  -- What the rest of the reads gives, after the bytes of the first.
  abbrev result_of : ℕ → Bytes → Option (Part × Reader × Bytes × ReadError)
  result_of k text = some (holding p [] (k + length text), in_front mr rest, text, eof)

  result_of-append :
      (k : ℕ) (d text : Bytes)
      → read_more d (result_of (k + length d) text) ≡ result_of k (d ++ text)
  result_of-append k d text =
      ap (λ n. some (holding p [] n, in_front mr rest, d ++ text, eof))
        (omega (arith, length-append d text))

  ended :
      (fuel n k : ℕ) (b c : Bytes)
      → b ≡ []
      → c ≡ []
      → Ahead mr.marks c after
      → Begun k mr.marks (c ++ rest)
      → 0 < n
      → drain (suc fuel) n (holding p b k) (in_front mr (c ++ rest)) ≡ result_of k (b ++ c)
  ended fuel n k [] [] e f a g h =
      drain_end fuel n (holding p [] k) (holding p [] k) (in_front mr rest) (in_front mr rest) []
        eof (part_read-ends p mr after n k a g h)
      ∙ ap (λ i. some (holding p [] i, in_front mr rest, [], eof)) (omega arith)
  ended fuel n k (x ∷ b) c e f a g h = cc
  ended fuel n k [] (x ∷ c) e f a g h = cc

  -- Reads of at least one byte each, to the end, give exactly the bytes of the buffer and the
  -- content, wherever the windows of what is read ahead cut the content and the separator behind it.
  -- They end with the end of the file and stand in front of the separator. The separator is first
  -- found behind the content, what follows ends its line within the window, the source gives no other
  -- error, and the part is not taken for an empty one; one read more than there are bytes is enough.
  pub drain-Content :
      (fuel n k : ℕ) (b c : Bytes)
      → Ahead mr.marks c after
      → Begun k mr.marks (c ++ rest)
      → 0 < n
      → length (b ++ c) < fuel
      → drain fuel n (holding p b k) (in_front mr (c ++ rest)) ≡ result_of k (b ++ c)
  drain-Content zero n k b c a g h l = absurd (omega arith)
  drain-Content (suc fuel) n k b c a g h l = elim (nil_cases b c) [
    | inl (e, f) ↦ ended fuel n k b c e f a g h
    | inr t ↦
        let m = part_read-Moves p mr after n k b c a g h t in
        let shorter : length (m.later ++ drop m.taken c) < fuel = omega (
          arith,
          l,
          m.moves,
          ap (λ s. length s) m.same,
          length-append m.d (m.later ++ drop m.taken c),
        ) in
        drain_step fuel n (holding p b k) (holding p m.later (k + length m.d))
          (in_front mr (c ++ rest)) (in_front mr (drop m.taken c ++ rest)) m.d m.result
        ∙ ap (read_more m.d) (
            drain-Content fuel n (k + length m.d) m.later (drop m.taken c)
              (Ahead-drop mr.marks after m.taken c a m.within)
              (begun_later k m.d
                (peek_buffer_is_empty_part mr.marks (take buffer_size (drop m.taken c ++ rest)))
                m.moves)
              h shorter)
        ∙ result_of-append k m.d (m.later ++ drop m.taken c)
        ∙ ap (result_of k) (sym m.same)
  ]
