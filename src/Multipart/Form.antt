-- ===== src/Multipart/Form.antt =====
-- multipart/formdata.go. The parts are read through the methods that `ReadForm` calls, and the
-- packages os and ioutil are a parameter. The map of the files is gone through in the order of its
-- list; a file that is open is its content, and the deferred closing of a file is left out.
pub mod Read
pub mod Totals
pub mod Steps
pub mod Rounds
pub mod Returns
pub mod TempFiles
pub mod Limits
pub mod Results
pub mod Plain
use mime.Base.Array.{◌>>=◌}
use mime.Base.Bytes
use mime.Base.Dict
use mime.Base.Result
use mime.Base.{
  ℕ, zero, suc, ◌+◌, ◌-◌, ◌*◌, List, [], ◌∷◌, ◌++◌, Bool, true, false, Option, none, some, ltb, leb,
  ◌==◌, if◌then◌else◌, length, ◌≡◌, refl,
}
use mime.Base.Bytes.{Bytes, codes, equal}
use mime.Base.Dict.{lookup, insert}
use mime.Base.Result.{Result, ok, err}
use mime.Multipart.Bufio.{ReadError, eof}
use mime.Multipart.Lines.{is_empty}
use mime.Multipart.Reader.{ReaderError, end_of_parts, read_failure}
use mime.Multipart.Writer.{Header}

-- `FileHeader`; `content` is `none` for nil
pub record FileHeader : Type 0 where
  pub filename : Bytes
  pub header : Header
  pub content : Option Bytes
  pub tmpfile : Bytes

-- `Form`
pub record Form : Type 0 where
  pub value : List (Bytes × List Bytes)
  pub file : List (Bytes × List FileHeader)

abbrev pub empty_form : Form
empty_form = record { value = []; file = [] }

-- `m[name] = append(m[name], v)`
abbrev pub or_nil {ℓ} : {V : Type ℓ} → Option (List V) → List V
or_nil none = []
or_nil (some vs) = vs

abbrev pub append_to {ℓ} : {V : Type ℓ} → Bytes → V → List (Bytes × List V) → List (Bytes × List V)
append_to name v m = insert name (or_nil (lookup name m) ++ (v ∷ [])) m

pub data FormError : Type 0 where
  next_error : ReaderError → FormError
  copy_error : ReadError → FormError
  message_too_large : FormError
  temp_file_error : FormError
  write_error : FormError

-- The methods of a reader with the state `S` and of its parts with the state `P`: `NextPart`, which
-- is given the current part, as it closes it, and is `none` where it does not end; `Read`, into a
-- slice of some length; the header; `FormName` and `FileName`, which may parse the header.
pub record Source (S P : Type 0) : Type 0 where
  pub next : Option P → S → Option (S × Option P × Option ReaderError)
  pub read : ℕ → P → S → P × S × Bytes × Option ReadError
  pub header : P → Header
  pub form_name : P → P × Bytes
  pub file_name : P → P × Bytes

-- the error of a copy, where the reads end with `e`
abbrev pub copy_failure : ReadError → Option FormError
copy_failure eof = none
copy_failure e = some (copy_error e)

-- What is called of os and ioutil, on files with the state `D`: `TempFile` with the name, `Write` at
-- the end of a file and whether it succeeds, `Remove` with its error, and `Open` with the content.
pub record Os (D : Type 0) : Type 0 where
  pub temp_file : D → D × Option Bytes
  pub write : Bytes → Bytes → D → D × Bool
  pub remove : Bytes → D → D × Option Bytes
  pub open_file : Bytes → D → Result Bytes Bytes

-- `maxValueBytes`
abbrev pub max_value_bytes : ℕ
max_value_bytes = 10 * 0x100000

abbrev pub max_int64 : ℕ
max_int64 = 0x7fffffffffffffff

-- `maxMemory+1`: `none` is the negative number that the sum wraps to
unfoldable pub copy_limit : ℕ → Option ℕ
copy_limit max_memory = if max_memory == max_int64 then none else some (max_memory + 1)

-- the length of the slices of `io.Copy`
abbrev pub copy_size : ℕ
copy_size = 0x8000

-- `if e != nil && err == nil { err = e }`
abbrev pub first_error : Option Bytes → Option Bytes → Option Bytes
first_error (some e) new = some e
first_error none new = new

module _ {D : Type 0} (os : Os D) where
  -- the loops of `RemoveAll`
  unfoldable pub remove_each : List FileHeader → Option Bytes → D → D × Option Bytes
  remove_each [] e d = (d, e)
  remove_each (fh ∷ fhs) e d =
      let (d', new) = os.remove fh.tmpfile d in
      if is_empty fh.tmpfile then remove_each fhs e d else remove_each fhs (first_error e new) d'

  unfoldable pub remove_lists : List (Bytes × List FileHeader) → Option Bytes → D → D × Option Bytes
  remove_lists [] e d = (d, e)
  remove_lists ((name, fhs) ∷ rest) e d =
      let (d', e') = remove_each fhs e d in remove_lists rest e' d'

  -- `RemoveAll`
  abbrev pub remove_all : Form → D → D × Option Bytes
  remove_all form d = remove_lists form.file none d

  -- `Open`
  abbrev pub open_content : Option Bytes → Bytes → D → Result Bytes Bytes
  open_content (some b) tmpfile d = ok b
  open_content none tmpfile d = os.open_file tmpfile d

  abbrev pub open_header : FileHeader → D → Result Bytes Bytes
  open_header fh d = open_content fh.content fh.tmpfile d

-- unfolds what a test computes with
unfoldable pub computes : Unit {0}
unfolding copy_limit remove_each remove_lists Bytes.computes Dict.computes
computes = tt
