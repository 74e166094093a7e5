-- ===== src/Multipart/Form/Limits.antt =====
-- multipart/formdata.go: `ReadForm` keeps to the limit of the memory and to that of the values.
use mime.Base.{ℕ, ◌+◌, ◌<◌, ◌≤◌, Option, none, some, length, arith, ap}
use mime.Base.Bytes.{Bytes}
use mime.Multipart.Form.{FileHeader, Form, Os, max_value_bytes}
use mime.Multipart.Form.Read.{FormState}
use mime.Multipart.Form.Totals.{total_of, total_of-append_to}
use mime.Multipart.Form.Steps.{
  Step, moves, spends, keeps_value, keeps_file, makes_none, stores, drops, Reach, here, later,
}

-- the bytes of a file that are in memory
abbrev pub content_size : Option Bytes → ℕ
content_size none = 0
content_size (some b) = length b

abbrev pub in_memory : FileHeader → ℕ
in_memory fh = content_size fh.content

-- the bytes of all values, and of all files in memory
abbrev pub values_of : Form → ℕ
values_of form = total_of length form.value

abbrev pub memory_of : Form → ℕ
memory_of form = total_of in_memory form.file

-- What is used and what is left is within the limits.
pub record Within (limit : ℕ) (form : Form) (max_value max_memory : ℕ) : Type 0 where
  pub values : values_of form + max_value ≤ max_value_bytes
  pub values_left : values_of form < max_value_bytes
  pub memory : memory_of form + max_memory ≤ limit

abbrev pub WithinState : {S P D : Type 0} → ℕ → FormState S P D → Type 0
WithinState limit st = Within limit st.form st.max_value st.max_memory

module _ {S P D : Type 0} (os : Os D) (limit : ℕ) where
  Step-Within :
      {st st' : FormState S P D} → Step os st st' → WithinState limit st → WithinState limit st'
  Step-Within (moves p s) h = h
  Step-Within {st} (spends b) h = record {
    values = omega (arith, h.values);
    values_left = h.values_left;
    memory = h.memory;
  }
  Step-Within {st} (keeps_value name b k) h =
      let t = total_of-append_to length name b st.form.value in
      record {
        values = omega (arith, t, h.values, k);
        values_left = omega (arith, t, h.values, k);
        memory = h.memory;
      }
  Step-Within {st} (keeps_file name fh b c t k) h =
      let t = total_of-append_to in_memory name fh st.form.file in
      record {
        values = h.values;
        values_left = h.values_left;
        memory = omega (arith, t, h.memory, ap content_size c, k);
      }
  Step-Within (makes_none e) h = h
  Step-Within {st} (stores name fh c e w) h =
      let t = total_of-append_to in_memory name fh st.form.file in
      record {
        values = h.values;
        values_left = h.values_left;
        memory = omega (arith, t, h.memory, ap content_size c);
      }
  Step-Within (drops tmp e w) h = h

  pub Reach-Within :
      {st st' : FormState S P D} → Reach os st st' → WithinState limit st → WithinState limit st'
  Reach-Within here h = h
  Reach-Within (later r s) h = Step-Within s (Reach-Within r h)
