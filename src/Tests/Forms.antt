-- ===== src/Tests/Forms.antt =====
-- Examples for multipart/formdata.go: a message that is a list of parts, and one place for a file.
use mime.Base.{
  ℕ, suc, ◌+◌, ◌<◌, ◌≤◌, List, [], ◌∷◌, Bool, true, false, not, ◌&&◌, ◌||◌, Option, none, some,
  if◌then◌else◌, map, length, take, drop, ◌≡◌, refl, arith, length-drop, ap, sym, ◌∙◌,
}
use mime.Base.Bytes.{Bytes, codes, equal, equal_iff}
use mime.Base.Result.{Result, ok, err}
use mime.Multipart.Bufio.{ReadError, eof}
use mime.Multipart.Reader.{ReaderError, end_of_parts}
use mime.Multipart.Lines.{is_empty}
use mime.Multipart.Bufio.{BufReader, buffer_size, read_slice}
use mime.Multipart.Writer.{Header}
use mime.Multipart.Reader.{Textproto, new_reader, part_close}
use mime.Multipart.Client.{raw_part}
use mime.Multipart.Progress.{left_of, Drained, part_close-Gives}
use mime.Multipart.Lines.{new_marks}
use mime.Multipart.NextPart.{TextprotoLaws}
use mime.Multipart.Form.Plain.{ReadyReader, plain_source}
use mime.Base.Bytes.{index_byte}
use mime.Base.{◌-◌, leb, Option-cases, Bool-cases, inl, inr}
use mime.Multipart.Reader
use mime.Multipart.Form
use mime.Multipart.Form.Read
use mime.Multipart.Form.{
  FormError, message_too_large, Source, Os, max_int64, remove_all, open_header,
}
use mime.Multipart.Form.Read.{read_form}
use mime.Base.Outcomes.{Gives}
use mime.Multipart.Form.TempFiles.{OsLaws}
use mime.Multipart.Form.Returns.{SourceLaws}
use mime.Multipart.Form.Results.{IsWithin, IsClean, read_form-Within, read_form-Clean}

-- a part: its name, the name of its file, and its bytes
abbrev Item : Type 0
Item = Bytes × Bytes × Bytes

abbrev read_item :
    ℕ → Bytes → Bytes → Bytes → List Item → Item × List Item × Bytes × Option ReadError
read_item n name file [] s = ((name, file, []), s, [], some eof)
read_item n name file (c ∷ b) s = ((name, file, drop n (c ∷ b)), s, take n (c ∷ b), none)

abbrev next_item : List Item → Option (List Item × Option Item × Option ReaderError)
next_item [] = some ([], none, some end_of_parts)
next_item (p ∷ s) = some (s, some p, none)

abbrev items : Source (List Item) Item
items = record {
  next = λ c s. next_item s;
  read = λ n p s. read_item n p.0 p.1 p.2 s;
  header = λ p. [];
  form_name = λ p. (p, p.0);
  file_name = λ p. (p, p.1);
}

abbrev size : List Item → ℕ
size [] = 0
size (p ∷ s) = suc (length p.2 + size s)

next_item-Gives :
    (k : ℕ) (s : List Item)
    → size s ≤ k
    → Gives (Form.Returns.IsNext (λ p s. length p.2 + size s) k) (next_item s)
next_item-Gives k [] h = tt
next_item-Gives k (p ∷ s) h = omega arith

items-Laws : SourceLaws items
items-Laws = record {
  left = λ p s. length p.2 + size s;
  total = size;
  next_returns = λ c s. next_Gives c s;
  read_within = read_within;
  read_takes = read_takes;
  form_name_keeps = λ p s. refl;
  file_name_keeps = λ p s. refl;
}
  where
    next_Gives :
        (c : Option Item) (s : List Item)
        → Gives
            (Form.Returns.IsNext
              (λ p s. length p.2 + size s)
              (Form.Returns.left_now (λ p s. length p.2 + size s) size c s))
            (next_item s)
    next_Gives none s = next_item-Gives _ s (omega arith)
    next_Gives (some p) s = next_item-Gives _ s (omega arith)

    read_within :
        (n : ℕ) (p : Item) (s : List Item)
        → length (items.read n p s).0.2 + size (items.read n p s).1 ≤ length p.2 + size s
    read_within n (name, file, []) s = omega arith
    read_within n (name, file, c ∷ b) s = omega (arith, length-drop n (c ∷ b))

    read_takes :
        (n : ℕ) (p : Item) (s : List Item)
        → 0 < n
        → (items.read n p s).3 ≡ none
        → length (items.read n p s).0.2 + size (items.read n p s).1 < length p.2 + size s
    read_takes n (name, file, []) s h e = cc
    read_takes n (name, file, c ∷ b) s h e = omega (arith, h, length-drop n (c ∷ b))

-- the files of the system, by their names; there is one name for a temporary file
abbrev Files : Type 0
Files = List Bytes

exists : Bytes → Files → Bool
exists m [] = false
exists m (f ∷ d) = equal f m || exists m d

without : Bytes → Files → Files
without t [] = []
without t (f ∷ d) = if equal t f then without t d else f ∷ without t d

abbrev tmp : Bytes
tmp = codes "multipart-1"

abbrev made_at : Bool → Files → Files × Option Bytes
made_at true d = (d, none)
made_at false d = (tmp ∷ d, some tmp)

abbrev one_place : Os Files
one_place = record {
  temp_file = λ d. made_at (exists tmp d) d;
  write = λ t b d. (d, true);
  remove = λ t d. (without t d, none);
  open_file = λ t d. if exists t d then ok [] else err t;
}

exists-without :
    (t : Bytes) (d : Files) (m : Bytes) → exists m (without t d) ≡ (not (equal t m) && exists m d)
unfolding exists without
exists-without t [] m = ground arith
exists-without t (f ∷ d) m =
    ground (arith, exists-without t d m, equal_iff t f, equal_iff f m, equal_iff t m)

made_at-some :
    (b : Bool) {d d' : Files} {t : Bytes}
    → made_at b d ≡ (d', some t)
    → (b ≡ false) × (tmp ∷ d ≡ d') × (tmp ≡ t)
made_at-some true {d} {d'} {t} h = let e : none ≡ some t = ap (λ r. r.1) h in cc
made_at-some false {d} {d'} {t} h =
    let e : some tmp ≡ some t = ap (λ r. r.1) h in (refl, ap (λ r. r.0) h, cc)

made_at-none : (b : Bool) {d d' : Files} → made_at b d ≡ (d', none) → d ≡ d'
made_at-none true h = ap (λ r. r.0) h
made_at-none false h = let e : some tmp ≡ none = ap (λ r. r.1) h in cc

one_place-Laws : OsLaws one_place exists
unfolding exists
one_place-Laws = record {
  names = λ {d} e. ap is_empty (sym (made_at-some (exists tmp d) e).2);
  is_new =
      λ {d} e. let (b, _, t) = made_at-some (exists tmp d) e in ap (λ t. exists t d) (sym t) ∙ b;
  makes = λ {d} {d'} {t} e m.
      let (b, f, n) = made_at-some (exists tmp d) e in
      ap (exists m) (sym f) ∙ ap (λ t. equal t m || exists m d) n;
  fails = λ {d} e m. ap (exists m) (sym (made_at-none (exists tmp d) e));
  keeps = λ t b d m. refl;
  removes = exists-without;
}

-- a value, a file of three bytes and one of one byte
abbrev three_parts : List Item
three_parts =
    (codes "a", [], codes "xy")
    ∷ (codes "f", codes "big.txt", codes "123")
    ∷ (codes "g", codes "one.txt", codes "4")
    ∷ []

abbrev rooms : ℕ → ℕ
rooms k = 2

read_form-Within_example :
    Gives (IsWithin 2) (read_form items one_place rooms 20 2 three_parts (codes "home" ∷ []))
unfolding items-Laws
read_form-Within_example =
    read_form-Within items one_place rooms items-Laws (λ k. omega arith) 20 2 three_parts
      (codes "home" ∷ []) (omega arith)

read_form-Clean_example :
    Gives
      (IsClean one_place exists (codes "home" ∷ []))
      (read_form items one_place rooms 20 2 three_parts (codes "home" ∷ []))
unfolding items-Laws
read_form-Clean_example =
    read_form-Clean items one_place rooms items-Laws (λ k. omega arith) exists one_place-Laws 20 2
      three_parts (codes "home" ∷ []) (omega arith)

-- the contents of the files behind a call
abbrev files_in :
    Option (Result FormError Form.Form × Form.Read.FormState (List Item) Item Files)
    → Option (List (Bytes × List (Option Bytes × Bytes)) × Files)
files_in (some (ok form, st)) =
    some (map (λ e. (e.0, map (λ fh. (fh.content, fh.tmpfile)) e.1)) form.file, st.disk)
files_in _ = none

-- The big file is on disk, and the other in memory.
three_parts_text :
    files_in (read_form items one_place rooms 20 2 three_parts [])
    ≡ some ((codes "f", (none, tmp) ∷ []) ∷ (codes "g", (some (codes "4"), []) ∷ []) ∷ [], tmp ∷ [])
unfolding Form.Read.computes exists
three_parts_text = refl

-- With the greatest limit nothing of a file is read.
max_int64_text :
    files_in (read_form items one_place rooms 20 max_int64 three_parts [])
    ≡ some ((codes "f", (some [], []) ∷ []) ∷ (codes "g", (some [], []) ∷ []) ∷ [], [])
unfolding Form.Read.computes exists
max_int64_text = refl

-- A package textproto for headers of one line, which is the value of Content-Disposition.
abbrev one_value : Header → Bytes → Bytes
one_value ((key, v ∷ vs) ∷ h) wanted = if equal wanted key then take (length v - 2) v else []
one_value h wanted = []

one_line : Textproto
one_line = record {
  get = one_value;
  set = λ h k v. h;
  del = λ h k. h;
  read = λ b.
      let (line, _, b') = read_slice b in
      ((codes "Content-Disposition", line ∷ []) ∷ [], none, (read_slice b').2);
}

read_slice-within : (b : BufReader) → length (read_slice b).2.rest ≤ length b.rest
unfolding read_slice
read_slice-within b = elim (Option-cases (index_byte (take buffer_size b.rest) b'\n')) [
  | inl e ↦ elim (Bool-cases (leb buffer_size (length b.rest))) [
    | inl h ↦ rw (e, read_slice, h) (omega (arith, length-drop buffer_size b.rest))
    | inr h ↦ rw (e, read_slice, h) (omega (arith, length-drop (length b.rest) b.rest))
  ]
  | inr (i, e) ↦ rw (e, read_slice) (omega (arith, length-drop (suc i) b.rest))
]

one_line-Laws : TextprotoLaws one_line
unfolding one_line
one_line-Laws = record {
  takes = λ b. omega (arith, read_slice-within b, read_slice-within (read_slice b).2);
  not_quoted = λ b. unfold equal in refl;
}

abbrev message : Bytes
message =
    codes
      "--b\r\nform-data; name=a\r\n\r\nxy\r\n--b\r\nform-data; name=f; filename=g\r\n\r\n123\r\n--b--"

reader : ReadyReader
unfolding new_marks
reader = record {
  reader = new_reader (record { rest = message; fail = none }) (codes "b") false;
  ready = record { sliceable = inr refl; short = omega arith };
}

part_close-Gives_example :
    Gives
      (Drained reader.reader (left_of (raw_part []) reader.reader))
      (part_close 201 512 (raw_part []) reader.reader)
unfolding reader
part_close-Gives_example =
    part_close-Gives 201 512 (raw_part []) reader.reader refl reader.ready.short (omega arith)
      (omega arith)

-- what is read of the message: the value and the file that is on disk
form_of :
    {S P D : Type 0}
    → Option (Result FormError Form.Form × Form.Read.FormState S P D)
    → Option (List (Bytes × List Bytes) × List Bytes)
form_of none = none
form_of (some (ok form, st)) = some (form.value, map (λ e. e.0) form.file)
form_of (some (err e, st)) = none

message_text :
    form_of (
      read_form
        (plain_source (λ r. r) one_line one_line-Laws 512 (omega arith))
        one_place
        rooms
        200
        2
        reader
        [])
    ≡ some ((codes "a", codes "xy" ∷ []) ∷ [], codes "f" ∷ [])
unfolding Form.Read.computes Reader.computes Form.Plain.computes reader exists one_line form_of
message_text = refl
