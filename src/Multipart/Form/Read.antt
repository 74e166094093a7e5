-- ===== src/Multipart/Form/Read.antt =====
-- multipart/formdata.go: `ReadForm`.
use mime.Base.Array.{◌>>=◌}
use mime.Base.{
  ℕ, zero, suc, ◌-◌, [], ◌∷◌, ◌++◌, Bool, true, false, Option, none, some, ltb, leb, ◌==◌,
  if◌then◌else◌, length,
}
use mime.Base.Bytes.{Bytes}
use mime.Base.Result.{Result, ok, err}
use mime.Multipart.Bufio.{ReadError}
use mime.Multipart.Reader.{ReaderError, end_of_parts, read_failure}
use mime.Multipart.Form
use mime.Multipart.Form.{
  FileHeader, Form, FormError, Os, Source, append_to, copy_error, copy_failure, copy_limit,
  copy_size, empty_form, max_value_bytes, message_too_large, next_error, remove_all,
  temp_file_error, write_error,
}

-- The variables of `ReadForm`, with the current part of the reader.
pub record FormState (S P D : Type 0) : Type 0 where
  pub current : Option P
  pub source : S
  pub disk : D
  pub form : Form
  pub max_value : ℕ
  pub max_memory : ℕ

-- A round of the loop of `ReadForm`: it returns, or goes on.
pub data FormRound (S P D : Type 0) : Type 0 where
  stops : Option FormError → FormState S P D → FormRound S P D
  goes_on : FormState S P D → FormRound S P D

-- `room` is the room that `bytes.Buffer.ReadFrom` gives a read behind the bytes it has.
module _ {S P D : Type 0} (source : Source S P) (os : Os D) (room : ℕ → ℕ) where
  -- the slice that a `LimitedReader` passes on
  abbrev pub at_most : ℕ → ℕ → ℕ
  at_most n k = if leb n k then n else k

  -- the error of `io.CopyN`, where the reads end with one
  abbrev pub copy_end : ℕ → Bytes → ReadError → Option ReadError
  copy_end n b e = if leb n (length b) then none else some e

  -- `io.CopyN(&b, p, n)`, on fuel, where `b` has the bytes that are copied
  unfoldable pub copy_n : ℕ → ℕ → Bytes → P → S → Option (P × S × Bytes × Option ReadError)
  copy_n zero n b p s = none
  copy_n (suc fuel) n b p s =
      let (p', s', d, e) = source.read (at_most (n - length b) (room (length b))) p s in
      let rest = copy_n fuel n (b ++ d) p' s' in
      if leb n (length b)
      then some (p, s, b, none)
      else elim e [ some e ↦ some (p', s', b ++ d, copy_end n (b ++ d) e) | none ↦ rest ]

  -- the same for a limit that may be negative
  abbrev pub copy_up_to : ℕ → Option ℕ → P → S → Option (P × S × Bytes × Option ReadError)
  copy_up_to fuel none p s = some (p, s, [], none)
  copy_up_to fuel (some n) p s = copy_n fuel n [] p s

  -- the write of `io.Copy`, only for some bytes
  abbrev pub write_some : Bytes → Bytes → D → D × Bool
  write_some tmp [] d = (d, true)
  write_some tmp (c ∷ b) d = os.write tmp (c ∷ b) d

  -- a read of `io.Copy` and its write, in front of the others
  abbrev pub copied :
      P
      → S
      → D × Bool
      → Option ReadError
      → Option (P × S × D × Option FormError)
      → Option (P × S × D × Option FormError)
  copied p s (d, false) e rest = some (p, s, d, some write_error)
  copied p s (d, true) (some e) rest = some (p, s, d, copy_failure e)
  copied p s (d, true) none rest = rest

  -- `io.Copy(file, p)`, on fuel
  unfoldable pub copy_file : ℕ → Bytes → P → S → D → Option (P × S × D × Option FormError)
  copy_file zero tmp p s d = none
  copy_file (suc fuel) tmp p s d =
      let (p', s', b, e) = source.read copy_size p s in
      let w = write_some tmp b d in copied p' s' w e (copy_file fuel tmp p' s' w.0)

  -- `io.Copy(file, io.MultiReader(&b, p))`; the buffer is written with one call
  abbrev pub copy_both : ℕ → Bytes → Bytes → P → S → D → Option (P × S × D × Option FormError)
  copy_both fuel tmp b p s d =
      let w = write_some tmp b d in copied p s w none (copy_file fuel tmp p s w.0)

  -- a part with a value, when it is copied
  abbrev pub value_round : Bytes → Option ReadError → Bytes → FormState S P D → FormRound S P D
  value_round name (some e) b st = stops (some (copy_error e)) st
  value_round name none b st =
      let left = st.max_value - length b in
      if left == 0
      then stops (some message_too_large) (record st { max_value = left })
      else goes_on (record st {
        max_value = left;
        form = record st.form { value = append_to name b st.form.value };
      })

  -- `form.File[name] = append(form.File[name], fh)`
  abbrev pub with_file : Bytes → FileHeader → FormState S P D → FormState S P D
  with_file name fh st = record st {
    form = record st.form { file = append_to name fh st.form.file };
  }

  -- behind the copy to the file `tmp`
  abbrev pub stored_round :
      Bytes → FileHeader → Option FormError → FormState S P D → FormRound S P D
  stored_round name fh (some e) st =
      stops (some e) (record st { disk = (os.remove fh.tmpfile st.disk).0 })
  stored_round name fh none st = goes_on (with_file name fh st)

  -- a file that is too big for the memory
  abbrev pub disk_round :
      ℕ
      → Bytes
      → FileHeader
      → Bytes
      → P
      → D × Option Bytes
      → FormState S P D
      → Option (FormRound S P D)
  disk_round fuel name fh b p (d, none) st =
      some (stops (some temp_file_error) (record st { disk = d }))
  disk_round fuel name fh b p (d, some tmp) st = copy_both fuel tmp b p st.source d >>= λ r. some (
      stored_round name (record fh { tmpfile = tmp }) r.3
        (record st { current = some r.0; source = r.1; disk = r.2 }))

  -- a part with a file, when it is copied to the buffer `b`
  abbrev pub file_round :
      ℕ
      → Bytes
      → FileHeader
      → Option ReadError
      → Bytes
      → P
      → FormState S P D
      → Option (FormRound S P D)
  file_round fuel name fh (some e) b p st = some (stops (some (copy_error e)) st)
  file_round fuel name fh none b p st =
      let on_disk = disk_round fuel name fh b p (os.temp_file st.disk) st in
      let in_memory = with_file name (record fh { content = some b }) st in
      if ltb st.max_memory (length b)
      then on_disk
      else some (goes_on (record in_memory { max_memory = st.max_memory - length b }))

  -- a part with a name
  abbrev pub named_round : ℕ → Bytes → P × Bytes → FormState S P D → Option (FormRound S P D)
  named_round fuel name (p, []) st = copy_n fuel st.max_value [] p st.source >>= λ r.
      some
        (value_round name (read_failure r.3) r.2 (record st { current = some r.0; source = r.1 }))
  named_round fuel name (p, c ∷ filename) st =
      let fh : FileHeader = record {
        filename = c ∷ filename;
        header = source.header p;
        content = none;
        tmpfile = [];
      } in
      copy_up_to fuel (copy_limit st.max_memory) p st.source >>= λ r.
      file_round fuel name fh (read_failure r.3) r.2 r.0
        (record st { current = some r.0; source = r.1 })

  -- a part that `NextPart` gives
  abbrev pub part_round : ℕ → P × Bytes → FormState S P D → Option (FormRound S P D)
  part_round fuel (p, []) st = some (goes_on (record st { current = some p }))
  part_round fuel (p, c ∷ name) st = named_round fuel (c ∷ name) (source.file_name p) st

  -- what follows `NextPart`, which gives a part where it gives no error
  abbrev pub next_round :
      ℕ → S × Option P × Option ReaderError → FormState S P D → Option (FormRound S P D)
  next_round fuel (s, p, some end_of_parts) st = some (stops none (record st { source = s }))
  next_round fuel (s, p, some e) st = some (stops (some (next_error e)) (record st { source = s }))
  next_round fuel (s, none, none) st = none
  next_round fuel (s, some p, none) st =
      part_round fuel (source.form_name p) (record st { source = s })

  -- a round
  unfoldable pub form_round : ℕ → FormState S P D → Option (FormRound S P D)
  form_round fuel st = source.next st.current st.source >>= λ r. next_round fuel r st

  -- the loop of `ReadForm`, on fuel: the error, if there is one, and the variables
  unfoldable pub form_loop : ℕ → FormState S P D → Option (Option FormError × FormState S P D)
  form_loop zero st = none
  form_loop (suc fuel) st = form_round fuel st >>= λ r. elim r [
    | stops e st' ↦ some (e, st')
    | goes_on st' ↦ form_loop fuel st'
  ]

  abbrev pub start : ℕ → S → D → FormState S P D
  start max_memory s d = record {
    current = none;
    source = s;
    disk = d;
    form = empty_form;
    max_value = max_value_bytes;
    max_memory = max_memory;
  }

  -- what `ReadForm` returns, behind the deferred `RemoveAll`
  abbrev pub returned : Option FormError × FormState S P D → Result FormError Form × FormState S P D
  returned (none, st) = (ok st.form, st)
  returned (some e, st) = (err e, record st { disk = (remove_all os st.form st.disk).0 })

  -- `ReadForm`, for a `maxMemory` that is not negative
  unfoldable pub read_form : ℕ → ℕ → S → D → Option (Result FormError Form × FormState S P D)
  read_form fuel max_memory s d = form_loop fuel (start max_memory s d) >>= λ r. some (returned r)

-- unfolds what a test computes with
unfoldable pub computes : Unit {0}
unfolding copy_n copy_file form_round form_loop read_form Form.computes
computes = tt
