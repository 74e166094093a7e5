-- ===== src/Multipart/Form/Rounds.antt =====
-- multipart/formdata.go: every round of `ReadForm` makes steps only.
use mime.Base.{
  ℕ, zero, suc, ◌-◌, [], ◌∷◌, Bool, true, false, Option, none, some, ltb, ◌==◌, length, ◌≡◌, refl,
  arith, inl, inr, Bool-cases,
}
use mime.Base.Bytes.{Bytes}
use mime.Multipart.Bufio.{ReadError}
use mime.Multipart.Reader.{
  ReaderError, end_of_parts, read_error, malformed_header, header_error, expected_part,
  unexpected_line, read_failure,
}
use mime.Multipart.Form.{FileHeader, FormError, Source, Os, copy_limit, copy_size}
use mime.Multipart.Form.Read.{
  FormState, FormRound, stops, goes_on, copy_n, copy_up_to, write_some, copied, copy_file,
  copy_both, value_round, stored_round, disk_round, file_round, named_round, part_round, next_round,
  form_round, form_loop,
}
use mime.Multipart.Form.Steps.{
  Written, unwritten, writes, moves, spends, keeps_value, keeps_file, makes_none, stores, drops,
  Reach, later, round_state,
}
use mime.Base.Outcomes.{OnSome, OnSome-bind, OnSome-bind_given, if-OnSome}

module _ {S P D : Type 0} (source : Source S P) (os : Os D) (room : ℕ → ℕ) where
  -- what a copy leaves of the files
  abbrev Writes : Bytes → D → Option (P × S × D × Option FormError) → Type 0
  Writes tmp d = OnSome (λ r. Written os tmp d r.2)

  write_some-Written :
      (tmp b : Bytes) (d d' : D)
      → Written os tmp (write_some source os room tmp b d).0 d'
      → Written os tmp d d'
  write_some-Written tmp [] d d' h = h
  write_some-Written tmp (c ∷ b) d d' h = writes (c ∷ b) h

  copied-Written :
      (tmp : Bytes) (d : D) (p : P) (s : S) (w : D × Bool) (e : Option ReadError)
      (rest : Option (P × S × D × Option FormError))
      → ((d' : D) → Written os tmp w.0 d' → Written os tmp d d')
      → Writes tmp w.0 rest
      → Writes tmp d (copied source os room p s w e rest)
  copied-Written tmp d p s (w, false) e rest h k = h w unwritten
  copied-Written tmp d p s (w, true) (some e) rest h k = h w unwritten
  copied-Written tmp d p s (w, true) none none h k = tt
  copied-Written tmp d p s (w, true) none (some r) h k = h r.2 k

  copy_file-Written :
      (fuel : ℕ) (tmp : Bytes) (p : P) (s : S) (d : D)
      → Writes tmp d (copy_file source os room fuel tmp p s d)
  unfolding copy_file
  copy_file-Written zero tmp p s d = tt
  copy_file-Written (suc fuel) tmp p s d =
      let (p', s', b, e) = source.read copy_size p s in
      let w = write_some source os room tmp b d in
      copied-Written tmp d p' s' w e _ (write_some-Written tmp b d)
        (copy_file-Written fuel tmp p' s' w.0)

  copy_both-Written :
      (fuel : ℕ) (tmp b : Bytes) (p : P) (s : S) (d : D)
      → Writes tmp d (copy_both source os room fuel tmp b p s d)
  copy_both-Written fuel tmp b p s d =
      let w = write_some source os room tmp b d in
      copied-Written tmp d p s w none _ (write_some-Written tmp b d)
        (copy_file-Written fuel tmp p s w.0)

  module _ (start : FormState S P D) where
    abbrev Reached : FormRound S P D → Type 0
    Reached r = Reach os start (round_state os r)

    abbrev Ends : Option FormError × FormState S P D → Type 0
    Ends r = Reach os start r.1

    value_round-Reach :
        (name : Bytes) (e : Option ReadError) (b : Bytes) (st : FormState S P D)
        → Reach os start st
        → Reached (value_round source os room name e b st)
    value_round-Reach name (some e) b st h = h
    value_round-Reach name none b st h = elim (Bool-cases (st.max_value - length b == 0)) [
      | inl e ↦ rw e (later h (spends b))
      | inr e ↦ rw e (later h (keeps_value name b (ground arith)))
    ]

    stored_round-Reach :
        (name : Bytes) (fh : FileHeader) (e : Option FormError) (st : FormState S P D) {d d' : D}
        → fh.content ≡ none
        → os.temp_file st.disk ≡ (d, some fh.tmpfile)
        → Written os fh.tmpfile d d'
        → Reach os start st
        → Reached (stored_round source os room name fh e (record st { disk = d' }))
    stored_round-Reach name fh (some e) st c t w h = later h (drops fh.tmpfile t w)
    stored_round-Reach name fh none st c t w h = later h (stores name fh c t w)

    disk_round-Reach :
        (fuel : ℕ) (name : Bytes) (fh : FileHeader) (b : Bytes) (p : P) (made : D × Option Bytes)
        (st : FormState S P D)
        → fh.content ≡ none
        → os.temp_file st.disk ≡ made
        → Reach os start st
        → OnSome Reached (disk_round source os room fuel name fh b p made st)
    disk_round-Reach fuel name fh b p (d, none) st c e h = later h (makes_none e)
    disk_round-Reach fuel name fh b p (d, some tmp) st c e h =
        OnSome-bind_given (λ r. Written os tmp d r.2) Reached
          (copy_both source os room fuel tmp b p st.source d) _
          (copy_both-Written fuel tmp b p st.source d)
          (λ r w.
            stored_round-Reach name (record fh { tmpfile = tmp }) r.3
              (record st { current = some r.0; source = r.1 }) c e w
              (later h (moves (some r.0) r.1)))

    file_round-Reach :
        (fuel : ℕ) (name : Bytes) (fh : FileHeader) (e : Option ReadError) (b : Bytes) (p : P)
        (st : FormState S P D)
        → fh.content ≡ none
        → fh.tmpfile ≡ []
        → Reach os start st
        → OnSome Reached (file_round source os room fuel name fh e b p st)
    file_round-Reach fuel name fh (some e) b p st c t h = h
    file_round-Reach fuel name fh none b p st c t h =
        if-OnSome Reached (ltb st.max_memory (length b)) _ _
          (λ _. disk_round-Reach fuel name fh b p (os.temp_file st.disk) st c refl h)
          (λ k. later h (keeps_file name (record fh { content = some b }) b refl t (ground arith)))

    named_round-Reach :
        (fuel : ℕ) (name : Bytes) (r : P × Bytes) (st : FormState S P D)
        → Reach os start st
        → OnSome Reached (named_round source os room fuel name r st)
    named_round-Reach fuel name (p, []) st h =
        OnSome-bind Reached (copy_n source os room fuel st.max_value [] p st.source) _
          (λ r. value_round-Reach name (read_failure r.3) r.2 _ (later h (moves (some r.0) r.1)))
    named_round-Reach fuel name (p, c ∷ filename) st h =
        OnSome-bind Reached (copy_up_to source os room fuel (copy_limit st.max_memory) p st.source)
          _
          (λ r.
            file_round-Reach fuel name _ (read_failure r.3) r.2 r.0 _ refl refl
              (later h (moves (some r.0) r.1)))

    part_round-Reach :
        (fuel : ℕ) (r : P × Bytes) (st : FormState S P D)
        → Reach os start st
        → OnSome Reached (part_round source os room fuel r st)
    part_round-Reach fuel (p, []) st h = later h (moves (some p) st.source)
    part_round-Reach fuel (p, c ∷ name) st h =
        named_round-Reach fuel (c ∷ name) (source.file_name p) st h

    next_round-Reach :
        (fuel : ℕ) (r : S × Option P × Option ReaderError) (st : FormState S P D)
        → Reach os start st
        → OnSome Reached (next_round source os room fuel r st)
    next_round-Reach fuel (s, p, some end_of_parts) st h = later h (moves st.current s)
    next_round-Reach fuel (s, p, some (read_error e)) st h = later h (moves st.current s)
    next_round-Reach fuel (s, p, some malformed_header) st h = later h (moves st.current s)
    next_round-Reach fuel (s, p, some header_error) st h = later h (moves st.current s)
    next_round-Reach fuel (s, p, some (expected_part l)) st h = later h (moves st.current s)
    next_round-Reach fuel (s, p, some (unexpected_line l)) st h = later h (moves st.current s)
    next_round-Reach fuel (s, none, none) st h = tt
    next_round-Reach fuel (s, some p, none) st h =
        part_round-Reach fuel (source.form_name p) _ (later h (moves st.current s))

    form_round-Reach :
        (fuel : ℕ) (st : FormState S P D)
        → Reach os start st
        → OnSome Reached (form_round source os room fuel st)
    unfolding form_round
    form_round-Reach fuel st h =
        OnSome-bind Reached (source.next st.current st.source) _ (λ r. next_round-Reach fuel r st h)

    after_round-Reach :
        (fuel : ℕ) (r : FormRound S P D)
        → ((st : FormState S P D)
            → Reach os start st
            → OnSome Ends (form_loop source os room fuel st))
        → Reached r
        → OnSome Ends
            (elim r [ stops e st ↦ some (e, st) | goes_on st ↦ form_loop source os room fuel st ])
    after_round-Reach fuel (stops e st) h g = g
    after_round-Reach fuel (goes_on st) h g = h st g

    -- The states of the loop of `ReadForm` are reached by steps from its start.
    pub form_loop-Reach :
        (fuel : ℕ) (st : FormState S P D)
        → Reach os start st
        → OnSome Ends (form_loop source os room fuel st)
    unfolding form_loop
    form_loop-Reach zero st h = tt
    form_loop-Reach (suc fuel) st h =
        OnSome-bind_given Reached Ends (form_round source os room fuel st) _
          (form_round-Reach fuel st h) (λ r g. after_round-Reach fuel r (form_loop-Reach fuel) g)
