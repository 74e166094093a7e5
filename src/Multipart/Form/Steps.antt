-- ===== src/Multipart/Form/Steps.antt =====
-- multipart/formdata.go: the changes that `ReadForm` makes to its form and to the files, as steps.
use mime.Base.{◌-◌, ◌<◌, ◌≤◌, [], Option, none, some, length, ◌≡◌}
use mime.Base.Bytes.{Bytes}
use mime.Multipart.Form.{FileHeader, Os, append_to}
use mime.Multipart.Form.Read.{FormState, FormRound, stops, goes_on}

module _ {D : Type 0} (os : Os D) (tmp : Bytes) where
  -- Writes to the file `tmp`, one after the other.
  pub data Written : D → D → Type 0 where
    unwritten : {d : D} → Written d d
    writes : {d d' : D} (b : Bytes) → Written (os.write tmp b d).0 d' → Written d d'

module _ {S P D : Type 0} (os : Os D) where
  -- A step of `ReadForm`: to move in the message; to keep a value, or to refuse it; to keep a file in
  -- memory; to fail to make a temporary file; to write one and keep it, or to remove it.
  pub data Step (st : FormState S P D) : FormState S P D → Type 0 where
    moves : (p : Option P) (s : S) → Step st (record st { current = p; source = s })
    spends : (b : Bytes) → Step st (record st { max_value = st.max_value - length b })
    keeps_value :
        (name b : Bytes)
        → length b < st.max_value
        → Step st (record st {
          max_value = st.max_value - length b;
          form = record st.form { value = append_to name b st.form.value };
        })
    keeps_file :
        (name : Bytes) (fh : FileHeader) (b : Bytes)
        → fh.content ≡ some b
        → fh.tmpfile ≡ []
        → length b ≤ st.max_memory
        → Step st (record st {
          max_memory = st.max_memory - length b;
          form = record st.form { file = append_to name fh st.form.file };
        })
    makes_none : {d : D} → os.temp_file st.disk ≡ (d, none) → Step st (record st { disk = d })
    stores :
        (name : Bytes) (fh : FileHeader) {d d' : D}
        → fh.content ≡ none
        → os.temp_file st.disk ≡ (d, some fh.tmpfile)
        → Written os fh.tmpfile d d'
        → Step st (record st {
          disk = d';
          form = record st.form { file = append_to name fh st.form.file };
        })
    drops :
        (tmp : Bytes) {d d' : D}
        → os.temp_file st.disk ≡ (d, some tmp)
        → Written os tmp d d'
        → Step st (record st { disk = (os.remove tmp d').0 })

  -- the states that some steps lead to
  pub data Reach (s : FormState S P D) : FormState S P D → Type 0 where
    here : Reach s s
    later : {t u : FormState S P D} → Reach s t → Step t u → Reach s u

  abbrev pub round_state : FormRound S P D → FormState S P D
  round_state (stops e st) = st
  round_state (goes_on st) = st
