-- ===== src/Multipart/Form/Returns.antt =====
-- multipart/formdata.go: `ReadForm` ends, for parts that get shorter with every read.
use mime.Base.{
  ℕ, zero, suc, ◌-◌, ◌<◌, ◌≤◌, [], ◌∷◌, ◌++◌, Bool, true, false, Option, none, some, ltb, leb, ◌==◌,
  length, ◌≡◌, refl, arith, inl, inr, Bool-cases,
}
use mime.Base.Bytes.{Bytes}
use mime.Multipart.Bufio.{ReadError}
use mime.Multipart.Reader.{
  ReaderError, end_of_parts, read_error, malformed_header, header_error, expected_part,
  unexpected_line, read_failure,
}
use mime.Multipart.Form.{FileHeader, FormError, Source, Os, copy_limit, copy_size}
use mime.Multipart.Form.Read.{
  FormState, FormRound, stops, goes_on, copy_n, at_most, copy_end, copy_up_to, write_some, copied,
  copy_file, copy_both, value_round, stored_round, disk_round, file_round, named_round, part_round,
  next_round, form_round, form_loop,
}
use mime.Base.Outcomes.{Gives, Gives-bind, if-Gives, Gives-mono}

-- what is left of a message, in front of the next part or in the current one
abbrev pub left_now : {S P : Type 0} → (P → S → ℕ) → (S → ℕ) → Option P → S → ℕ
left_now left total none s = total s
left_now left total (some p) s = left p s

-- The next part is there if there is no error, and is shorter than what was left.
abbrev pub IsNext : {S P : Type 0} → (P → S → ℕ) → ℕ → S × Option P × Option ReaderError → Type 0
IsNext left k (s, p, some e) = Unit
IsNext left k (s, none, none) = ⊥
IsNext left k (s, some p, none) = left p s < k

-- A reader of parts, by a measure of what is left: `NextPart` returns, and takes something for a
-- part; a read of at least a byte takes something, or gives an error.
pub record SourceLaws {S P : Type 0} (source : Source S P) : Type 0 where
  pub left : P → S → ℕ
  pub total : S → ℕ
  pub next_returns :
      (c : Option P) (s : S) → Gives (IsNext left (left_now left total c s)) (source.next c s)
  pub read_within :
      (n : ℕ) (p : P) (s : S) → left (source.read n p s).0 (source.read n p s).1 ≤ left p s
  pub read_takes :
      (n : ℕ) (p : P) (s : S)
      → 0 < n
      → (source.read n p s).3 ≡ none
      → left (source.read n p s).0 (source.read n p s).1 < left p s
  pub form_name_keeps : (p : P) (s : S) → left (source.form_name p).0 s ≡ left p s
  pub file_name_keeps : (p : P) (s : S) → left (source.file_name p).0 s ≡ left p s

module _ {S P D : Type 0} (source : Source S P) (os : Os D) (room : ℕ → ℕ)
    (laws : SourceLaws source) (room_some : (k : ℕ) → 0 < room k) where
  open laws use {left, total}

  Copies : ℕ → P × S × Bytes × Option ReadError → Type 0
  Copies k r = left r.0 r.1 ≤ k

  copy_step :
      (n k : ℕ) (p : P) (s : S) (b : Bytes) (e : Option ReadError)
      (rest : Option (P × S × Bytes × Option ReadError))
      → left p s ≤ k
      → (e ≡ none → Gives (Copies k) rest)
      → Gives
          (Copies k)
          (elim e [ some e ↦ some (p, s, b, copy_end source os room n b e) | none ↦ rest ])
  unfolding Copies
  copy_step n k p s b none rest h g = g refl
  copy_step n k p s b (some e) rest h g = h

  copy_n-Gives :
      (fuel n : ℕ) (b : Bytes) (p : P) (s : S)
      → left p s < fuel
      → Gives (Copies (left p s)) (copy_n source os room fuel n b p s)
  unfolding copy_n Copies
  copy_n-Gives zero n b p s h = absurd (omega arith)
  copy_n-Gives (suc fuel) n b p s h =
      let k = at_most source os room (n - length b) (room (length b)) in
      let (p', s', d, e) = source.read k p s in
      let within = laws.read_within k p s in
      let takes = laws.read_takes k p s in
      let some_room = room_some (length b) in
      if-Gives (Copies (left p s)) (leb n (length b)) _ _ (λ _. omega arith)
        (λ more. copy_step n (left p s) p' s' (b ++ d) e _ within (λ none_yet.
          let shorter = takes (ground (arith, more, some_room)) none_yet in
          Gives-mono (Copies (left p' s')) (Copies (left p s)) _ (λ a l. omega (arith, within, l))
            (copy_n-Gives fuel n (b ++ d) p' s' (omega (arith, h, shorter)))))

  StoresIn : ℕ → P × S × D × Option FormError → Type 0
  StoresIn k r = left r.0 r.1 ≤ k

  copied-Gives :
      (k : ℕ) (p : P) (s : S) (w : D × Bool) (e : Option ReadError)
      (rest : Option (P × S × D × Option FormError))
      → left p s ≤ k
      → (e ≡ none → Gives (StoresIn k) rest)
      → Gives (StoresIn k) (copied source os room p s w e rest)
  unfolding StoresIn
  copied-Gives k p s (d, false) e rest h g = h
  copied-Gives k p s (d, true) (some e) rest h g = h
  copied-Gives k p s (d, true) none rest h g = g refl

  copy_file-Gives :
      (fuel : ℕ) (tmp : Bytes) (p : P) (s : S) (d : D)
      → left p s < fuel
      → Gives (StoresIn (left p s)) (copy_file source os room fuel tmp p s d)
  unfolding copy_file StoresIn
  copy_file-Gives zero tmp p s d h = absurd (omega arith)
  copy_file-Gives (suc fuel) tmp p s d h =
      let (p', s', b, e) = source.read copy_size p s in
      let w = write_some source os room tmp b d in
      let within = laws.read_within copy_size p s in
      copied-Gives (left p s) p' s' w e _ within (λ none_yet.
        let shorter = laws.read_takes copy_size p s (omega arith) none_yet in
        Gives-mono (StoresIn (left p' s')) (StoresIn (left p s)) _ (λ a l. omega (arith, within, l))
          (copy_file-Gives fuel tmp p' s' w.0 (omega (arith, h, shorter))))

  -- A round that goes on has less than `k` left.
  RoundLeaves : ℕ → FormRound S P D → Type 0
  RoundLeaves k (stops e st) = Unit
  RoundLeaves k (goes_on st) = left_now left total st.current st.source < k

  value_round-Leaves :
      (k : ℕ) (name : Bytes) (e : Option ReadError) (b : Bytes) (st : FormState S P D)
      → left_now left total st.current st.source < k
      → RoundLeaves k (value_round source os room name e b st)
  unfolding RoundLeaves
  value_round-Leaves k name (some e) b st h = tt
  value_round-Leaves k name none b st h = elim (Bool-cases (st.max_value - length b == 0)) [
    | inl e ↦ rw e tt
    | inr e ↦ rw e h
  ]

  stored_round-Leaves :
      (k : ℕ) (name : Bytes) (fh : FileHeader) (e : Option FormError) (st : FormState S P D)
      → left_now left total st.current st.source < k
      → RoundLeaves k (stored_round source os room name fh e st)
  unfolding RoundLeaves
  stored_round-Leaves k name fh (some e) st h = tt
  stored_round-Leaves k name fh none st h = h

  disk_round-Gives :
      (fuel : ℕ) (name : Bytes) (fh : FileHeader) (b : Bytes) (p : P) (made : D × Option Bytes)
      (st : FormState S P D)
      → left p st.source < fuel
      → Gives (RoundLeaves fuel) (disk_round source os room fuel name fh b p made st)
  unfolding RoundLeaves StoresIn
  disk_round-Gives fuel name fh b p (d, none) st h = tt
  disk_round-Gives fuel name fh b p (d, some tmp) st h =
      let w = write_some source os room tmp b d in
      Gives-bind (StoresIn (left p st.source)) (RoundLeaves fuel)
        (copy_both source os room fuel tmp b p st.source d) _
        (copied-Gives (left p st.source) p st.source w none _ (omega arith)
          (λ _. copy_file-Gives fuel tmp p st.source w.0 h))
        (λ r l. stored_round-Leaves fuel name _ r.3 _ (omega (arith, l, h)))

  file_round-Gives :
      (fuel : ℕ) (name : Bytes) (fh : FileHeader) (e : Option ReadError) (b : Bytes) (p : P)
      (st : FormState S P D)
      → left p st.source < fuel
      → left_now left total st.current st.source < fuel
      → Gives (RoundLeaves fuel) (file_round source os room fuel name fh e b p st)
  unfolding RoundLeaves
  file_round-Gives fuel name fh (some e) b p st h l = tt
  file_round-Gives fuel name fh none b p st h l =
      if-Gives (RoundLeaves fuel) (ltb st.max_memory (length b)) _ _
        (λ _. disk_round-Gives fuel name fh b p (os.temp_file st.disk) st h) (λ _. l)

  copy_up_to-Gives :
      (fuel : ℕ) (n : Option ℕ) (p : P) (s : S)
      → left p s < fuel
      → Gives (Copies (left p s)) (copy_up_to source os room fuel n p s)
  unfolding Copies
  copy_up_to-Gives fuel none p s h = omega arith
  copy_up_to-Gives fuel (some n) p s h = copy_n-Gives fuel n [] p s h

  named_round-Gives :
      (fuel : ℕ) (name : Bytes) (r : P × Bytes) (st : FormState S P D)
      → left r.0 st.source < fuel
      → Gives (RoundLeaves fuel) (named_round source os room fuel name r st)
  unfolding Copies
  named_round-Gives fuel name (p, []) st h =
      Gives-bind (Copies (left p st.source)) (RoundLeaves fuel)
        (copy_n source os room fuel st.max_value [] p st.source) _
        (copy_n-Gives fuel st.max_value [] p st.source h)
        (λ r l. value_round-Leaves fuel name (read_failure r.3) r.2 _ (omega (arith, l, h)))
  named_round-Gives fuel name (p, c ∷ filename) st h =
      Gives-bind (Copies (left p st.source)) (RoundLeaves fuel)
        (copy_up_to source os room fuel (copy_limit st.max_memory) p st.source) _
        (copy_up_to-Gives fuel (copy_limit st.max_memory) p st.source h)
        (λ r l.
          file_round-Gives fuel name _ (read_failure r.3) r.2 r.0 _ (omega (arith, l, h))
            (omega (arith, l, h)))

  part_round-Gives :
      (fuel : ℕ) (r : P × Bytes) (st : FormState S P D)
      → left r.0 st.source < fuel
      → Gives (RoundLeaves fuel) (part_round source os room fuel r st)
  unfolding RoundLeaves
  part_round-Gives fuel (p, []) st h = h
  part_round-Gives fuel (p, c ∷ name) st h =
      named_round-Gives fuel (c ∷ name) (source.file_name p) st
        (omega (arith, laws.file_name_keeps p st.source, h))

  next_round-Gives :
      (fuel : ℕ) (r : S × Option P × Option ReaderError) (st : FormState S P D)
      → IsNext left fuel r
      → Gives (RoundLeaves fuel) (next_round source os room fuel r st)
  unfolding RoundLeaves
  next_round-Gives fuel (s, p, some end_of_parts) st h = tt
  next_round-Gives fuel (s, p, some (read_error e)) st h = tt
  next_round-Gives fuel (s, p, some malformed_header) st h = tt
  next_round-Gives fuel (s, p, some header_error) st h = tt
  next_round-Gives fuel (s, p, some (expected_part l)) st h = tt
  next_round-Gives fuel (s, p, some (unexpected_line l)) st h = tt
  next_round-Gives fuel (s, none, none) st h = absurd h
  next_round-Gives fuel (s, some p, none) st h =
      part_round-Gives fuel (source.form_name p) _ (omega (arith, laws.form_name_keeps p s, h))

  IsNext-mono :
      (k fuel : ℕ) (r : S × Option P × Option ReaderError)
      → k ≤ fuel
      → IsNext left k r
      → IsNext left fuel r
  IsNext-mono k fuel (s, p, some e) l h = tt
  IsNext-mono k fuel (s, none, none) l h = h
  IsNext-mono k fuel (s, some p, none) l h = omega arith

  form_round-Gives :
      (fuel : ℕ) (st : FormState S P D)
      → left_now left total st.current st.source ≤ fuel
      → Gives (RoundLeaves fuel) (form_round source os room fuel st)
  unfolding form_round
  form_round-Gives fuel st h =
      let k = left_now left total st.current st.source in
      Gives-bind (IsNext left k) (RoundLeaves fuel) (source.next st.current st.source) _
        (laws.next_returns st.current st.source)
        (λ r g. next_round-Gives fuel r st (IsNext-mono k fuel r h g))

  abbrev pub AnyEnd : Option FormError × FormState S P D → Type 0
  AnyEnd r = Unit

  after_round-Gives :
      (fuel : ℕ) (r : FormRound S P D)
      → ((st : FormState S P D)
          → left_now left total st.current st.source < fuel
          → Gives AnyEnd (form_loop source os room fuel st))
      → RoundLeaves fuel r
      → Gives AnyEnd
          (elim r [ stops e st ↦ some (e, st) | goes_on st ↦ form_loop source os room fuel st ])
  unfolding RoundLeaves
  after_round-Gives fuel (stops e st) h g = tt
  after_round-Gives fuel (goes_on st) h g = h st g

  -- The loop of `ReadForm` ends, with more fuel than there is left to read.
  pub form_loop-Gives :
      (fuel : ℕ) (st : FormState S P D)
      → left_now left total st.current st.source < fuel
      → Gives AnyEnd (form_loop source os room fuel st)
  unfolding form_loop
  form_loop-Gives zero st h = absurd (omega arith)
  form_loop-Gives (suc fuel) st h =
      Gives-bind (RoundLeaves fuel) AnyEnd (form_round source os room fuel st) _
        (form_round-Gives fuel st (omega (arith, h)))
        (λ r g. after_round-Gives fuel r (form_loop-Gives fuel) g)
