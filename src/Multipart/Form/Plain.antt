-- ===== src/Multipart/Form/Plain.antt =====
-- multipart/: the reader of multipart/multipart.go as a source of `ReadForm`, for a message whose parts
-- have no decoder. A reader and a part are taken with the facts that this needs.
use mime.Base.Array.{◌>>=◌}
use mime.Base.Outcomes.{Gives, Gives-bind, Gives-mono}
use mime.Base.{ℕ, suc, ◌+◌, ◌<◌, Option, none, some, length, ◌≡◌, refl, ◌∙◌, sym, subst, arith, ap}
use mime.Base.Bytes.{Bytes}
use mime.MediaType.Parse.{Params}
use mime.Multipart.Bufio.{ReadError}
use mime.Multipart.Reader.{
  Part, Reader, Textproto, ReaderError, raw, part_read, part_close, next_part, form_name, file_name,
  parsed_part, parse_content_disposition,
}
use mime.Multipart.Returns.{IsSliceable}
use mime.Multipart.Progress.{IsShort, left_of, Drained, part_read-Reads, part_close-Gives}
use mime.Multipart.NextPart.{IsReady, NextGives, NextGives-mono, TextprotoLaws, next_part-Gives}
use mime.Multipart.Form.{Source}
use mime.Multipart.Form.Returns.{SourceLaws, IsNext, left_now}

pub record ReadyReader : Type 0 where
  pub reader : Reader
  pub ready : IsReady reader

-- a part with no decoder
pub record RawPart : Type 0 where
  pub part : Part
  pub is_raw : part.decoding ≡ raw

abbrev pub NextRead : Type 0
NextRead = ReadyReader × Option RawPart × Option ReaderError

-- The result of a call, with the facts that come with it.
abbrev pub attach_read :
    (k : ℕ) (r : Reader × Option Part × Option ReaderError) → NextGives k r → NextRead
attach_read k (mr, some p, e) h =
    (record { reader = mr; ready = h.0 }, some (record { part = p; is_raw = h.1 }), e)
attach_read k (mr, none, some e) h = (record { reader = mr; ready = h }, none, some e)
attach_read k (mr, none, none) h = absurd h

abbrev pub attach :
    (k : ℕ) (o : Option (Reader × Option Part × Option ReaderError))
    → Gives (NextGives k) o
    → Option NextRead
attach k none h = none
attach k (some r) h = some (attach_read k r h)

attach-Gives :
    (k : ℕ) (o : Option (Reader × Option Part × Option ReaderError)) (h : Gives (NextGives k) o)
    → Gives (IsNext (λ p s. left_of p.part s.reader) k) (attach k o h)
attach-Gives k (some (mr, some p, some e)) h = tt
attach-Gives k (some (mr, some p, none)) h = h.2
attach-Gives k (some (mr, none, some e)) h = tt
attach-Gives k (some (mr, none, none)) h = absurd h
attach-Gives k none h = h

parsed_keeps :
    (unicode_lower : ℕ → ℕ) (textproto : Textproto) (params : Option Params) (p : Part)
    → ((parsed_part unicode_lower textproto params p).buffer ≡ p.buffer)
      × ((parsed_part unicode_lower textproto params p).decoding ≡ p.decoding)
unfolding parse_content_disposition
parsed_keeps unicode_lower textproto none p = (refl, refl)
parsed_keeps unicode_lower textproto (some m) p = (refl, refl)

pub form_name_keeps :
    (unicode_lower : ℕ → ℕ) (textproto : Textproto) (p : Part)
    → ((form_name unicode_lower textproto p).0.buffer ≡ p.buffer)
      × ((form_name unicode_lower textproto p).0.decoding ≡ p.decoding)
unfolding form_name
form_name_keeps unicode_lower textproto p = parsed_keeps unicode_lower textproto p.disposition.1 p

pub file_name_keeps :
    (unicode_lower : ℕ → ℕ) (textproto : Textproto) (p : Part)
    → ((file_name unicode_lower textproto p).0.buffer ≡ p.buffer)
      × ((file_name unicode_lower textproto p).0.decoding ≡ p.decoding)
unfolding file_name
file_name_keeps unicode_lower textproto p = parsed_keeps unicode_lower textproto p.disposition.1 p

-- the reader is ready with the same marks and count
pub IsReady-again :
    {mr mr' : Reader}
    → mr'.marks ≡ mr.marks
    → mr'.parts_read ≡ mr.parts_read
    → IsReady mr
    → IsReady mr'
IsReady-again {mr} {mr'} m c h = record {
  sliceable =
      subst (λ k. IsSliceable k mr'.marks) (sym c)
        (subst (λ x. IsSliceable mr.parts_read x) (sym m) h.sliceable);
  short = subst (λ x. IsShort x) (sym m) h.short;
}

module _ (unicode_lower : ℕ → ℕ) (textproto : Textproto) (laws : TextprotoLaws textproto) (n : ℕ)
    (n_some : 0 < n) where
  abbrev pub left : RawPart → ReadyReader → ℕ
  left p s = left_of p.part s.reader

  abbrev pub total : ReadyReader → ℕ
  total s = length s.reader.buf.rest

  abbrev pub now : Option Part → Reader → ℕ
  now none mr = length mr.buf.rest
  now (some p) mr = left_of p mr

  -- `NextPart`: it closes the current part, with slices of length `n`, and goes on behind it
  unfoldable pub next_closing :
      Option Part → Reader → Option (Reader × Option Part × Option ReaderError)
  next_closing none mr = next_part unicode_lower textproto mr
  next_closing (some p) mr =
      part_close (suc (left_of p mr)) n p mr >>= λ r. next_part unicode_lower textproto r.1

  after_close :
      (mr : Reader) (k : ℕ) (r : Part × Reader × Bytes × ReadError)
      → IsReady mr
      → Drained mr k r
      → Gives (NextGives k) (next_part unicode_lower textproto r.1)
  after_close mr k r s (same, count, within) =
      Gives-mono (NextGives (length r.1.buf.rest)) (NextGives k)
        (next_part unicode_lower textproto r.1)
        (NextGives-mono (length r.1.buf.rest) k (omega arith))
        (next_part-Gives unicode_lower textproto laws r.1 (IsReady-again same count s))

  pub next_closing-Gives :
      (c : Option Part) (mr : Reader)
      → ((p : Part) → c ≡ some p → p.decoding ≡ raw)
      → IsReady mr
      → Gives (NextGives (now c mr)) (next_closing c mr)
  unfolding next_closing
  next_closing-Gives none mr d s = next_part-Gives unicode_lower textproto laws mr s
  next_closing-Gives (some p) mr d s =
      let k = left_of p mr in
      Gives-bind (Drained mr k) (NextGives k) (part_close (suc k) n p mr) _
        (part_close-Gives (suc k) n p mr (d p refl) s.short n_some (omega arith))
        (λ r h. after_close mr k r s h)

  -- the part of a reader that is given
  abbrev pub part_of : Option RawPart → Option Part
  part_of none = none
  part_of (some p) = some p.part

  pub part_of-raw : (c : Option RawPart) (p : Part) → part_of c ≡ some p → p.decoding ≡ raw
  part_of-raw none p e = cc
  part_of-raw (some q) p e =
      let same : q.part ≡ p = cc in subst (λ (x : Part). x.decoding ≡ raw) same q.is_raw

  abbrev pub next_ready : Option RawPart → ReadyReader → Option NextRead
  next_ready c s =
      attach (now (part_of c) s.reader) (next_closing (part_of c) s.reader)
        (next_closing-Gives (part_of c) s.reader (part_of-raw c) s.ready)

  next_ready-Gives :
      (c : Option RawPart) (s : ReadyReader)
      → Gives (IsNext left (left_now left total c s)) (next_ready c s)
  next_ready-Gives none s = attach-Gives _ (next_closing none s.reader) _
  next_ready-Gives (some p) s = attach-Gives _ (next_closing (some p.part) s.reader) _

  -- `Part.Read` of a part with no decoder
  abbrev pub read_raw : ℕ → RawPart → ReadyReader → RawPart × ReadyReader × Bytes × Option ReadError
  read_raw n p s =
      let (p', mr, d, e) = part_read n p.part s.reader in
      let reads = part_read-Reads n p.part s.reader in
      (
        record { part = p'; is_raw = reads.same_decoding ∙ p.is_raw },
        record { reader = mr; ready = IsReady-again reads.same reads.same_count s.ready },
        d,
        e,
      )

  -- the reader as a source
  abbrev pub plain_source : Source ReadyReader RawPart
  plain_source = record {
    next = next_ready;
    read = read_raw;
    header = λ p. p.part.header;
    form_name = λ p. (
      record {
        part = (form_name unicode_lower textproto p.part).0;
        is_raw = (form_name_keeps unicode_lower textproto p.part).1 ∙ p.is_raw;
      },
      (form_name unicode_lower textproto p.part).1,
    );
    file_name = λ p. (
      record {
        part = (file_name unicode_lower textproto p.part).0;
        is_raw = (file_name_keeps unicode_lower textproto p.part).1 ∙ p.is_raw;
      },
      (file_name unicode_lower textproto p.part).1,
    );
  }

  -- what `ReadForm` needs of the reader
  pub plain_source-Laws : SourceLaws plain_source
  plain_source-Laws = record {
    left = left;
    total = total;
    next_returns = next_ready-Gives;
    read_within = λ n p s. (part_read-Reads n p.part s.reader).within;
    read_takes = λ n p s h e. (part_read-Reads n p.part s.reader).takes s.ready.short h e;
    form_name_keeps = λ p s.
        ap (λ b. length b + length s.reader.buf.rest)
          (form_name_keeps unicode_lower textproto p.part).0;
    file_name_keeps = λ p s.
        ap (λ b. length b + length s.reader.buf.rest)
          (file_name_keeps unicode_lower textproto p.part).0;
  }

-- unfolds what a test computes with
unfoldable pub computes : Unit {0}
unfolding next_closing
computes = tt
