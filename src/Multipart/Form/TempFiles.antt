-- ===== src/Multipart/Form/TempFiles.antt =====
-- multipart/formdata.go: the temporary files that `ReadForm` makes and `RemoveAll` removes.
use mime.Base.{
  ℕ, List, [], ◌∷◌, Bool, true, false, not, ◌&&◌, ◌||◌, Option, none, some, ltb, ◌≡◌, refl, arith,
  ap, sym, ◌∙◌, if◌then◌else◌,
}
use mime.Base.Bytes.{Bytes, equal, equal_iff}
use mime.Multipart.Lines.{is_empty}
use mime.Multipart.Form.{
  FileHeader, Form, Os, append_to, first_error, remove_each, remove_lists, remove_all,
}
use mime.Multipart.Form.Read.{FormState}
use mime.Multipart.Form.Totals.{total, total_of, total_of-append_to}
use mime.Multipart.Form.Steps.{
  Written, unwritten, writes, Step, moves, spends, keeps_value, keeps_file, makes_none, stores,
  drops, Reach, here, later,
}

-- whether the temporary file of a header has the name `m`
abbrev pub is_at : Bytes → FileHeader → ℕ
is_at m fh = if is_empty fh.tmpfile then 0 else if equal fh.tmpfile m then 1 else 0

-- whether `m` is a temporary file of the form
abbrev pub holds_file : Bytes → Form → Bool
holds_file m form = ltb 0 (total_of (is_at m) form.file)

-- What os and ioutil promise of the files that exist, where every file can be removed: `TempFile`
-- makes a new file, or none; a write makes and removes none; `Remove` removes its file only.
pub record OsLaws {D : Type 0} (os : Os D) (exists : Bytes → D → Bool) : Type 0 where
  pub names : {d d' : D} {t : Bytes} → os.temp_file d ≡ (d', some t) → is_empty t ≡ false
  pub is_new : {d d' : D} {t : Bytes} → os.temp_file d ≡ (d', some t) → exists t d ≡ false
  pub makes :
      {d d' : D} {t : Bytes}
      → os.temp_file d ≡ (d', some t)
      → (m : Bytes) → exists m d' ≡ (equal t m || exists m d)
  pub fails : {d d' : D} → os.temp_file d ≡ (d', none) → (m : Bytes) → exists m d' ≡ exists m d
  pub keeps : (t b : Bytes) (d : D) (m : Bytes) → exists m (os.write t b d).0 ≡ exists m d
  pub removes :
      (t : Bytes) (d : D) (m : Bytes) → exists m (os.remove t d).0 ≡ (not (equal t m) && exists m d)

module _ {D : Type 0} (exists : Bytes → D → Bool) where
  -- The files of the form exist beside those that were there before, and are none of them.
  pub record Owns (before : D) (form : Form) (d : D) : Type 0 where
    pub now : (m : Bytes) → exists m d ≡ (holds_file m form || exists m before)
    pub apart : (m : Bytes) → holds_file m form ≡ true → exists m before ≡ false

module _ {D : Type 0} (os : Os D) (exists : Bytes → D → Bool) (laws : OsLaws os exists) where
  Written-exists :
      {t : Bytes} {d d' : D} → Written os t d d' → (m : Bytes) → exists m d' ≡ exists m d
  Written-exists unwritten m = refl
  Written-exists {t} {d} (writes b w) m = Written-exists w m ∙ laws.keeps t b d m

  remove_each-exists :
      (fhs : List FileHeader) (e : Option Bytes) (d : D) (m : Bytes)
      → exists m (remove_each os fhs e d).0 ≡ (not (ltb 0 (total (is_at m) fhs)) && exists m d)
  unfolding remove_each
  remove_each-exists [] e d m = refl
  remove_each-exists (fh ∷ fhs) e d m =
      let (d', new) = os.remove fh.tmpfile d in
      ground (
        arith,
        remove_each-exists fhs e d m,
        remove_each-exists fhs (first_error e new) d' m,
        laws.removes fh.tmpfile d m,
      )

  remove_lists-exists :
      (files : List (Bytes × List FileHeader)) (e : Option Bytes) (d : D) (m : Bytes)
      → exists m (remove_lists os files e d).0
        ≡ (not (ltb 0 (total_of (is_at m) files)) && exists m d)
  unfolding remove_lists
  remove_lists-exists [] e d m = refl
  remove_lists-exists ((name, fhs) ∷ rest) e d m =
      let (d', e') = remove_each os fhs e d in
      ground (arith, remove_lists-exists rest e' d' m, remove_each-exists fhs e d m)

  -- `RemoveAll` leaves the files that were there before.
  pub remove_all-Owns :
      {before d : D} {form : Form}
      → Owns exists before form d
      → (m : Bytes) → exists m (remove_all os form d).0 ≡ exists m before
  remove_all-Owns {before} {d} {form} h m =
      let r = remove_lists-exists form.file none d m in
      let n = h.now m in let a = h.apart m in ground arith

  added :
      (name : Bytes) (fh : FileHeader) (form : Form) (m : Bytes)
      → holds_file m (record form { file = append_to name fh form.file })
        ≡ (ltb 0 (is_at m fh) || holds_file m form)
  added name fh form m = ground (arith, total_of-append_to (is_at m) name fh form.file)

  is_at_none : (fh : FileHeader) (m : Bytes) → fh.tmpfile ≡ [] → is_at m fh ≡ 0
  is_at_none fh m h = rw h refl

  is_at_named :
      (fh : FileHeader) (m : Bytes)
      → is_empty fh.tmpfile ≡ false
      → ltb 0 (is_at m fh) ≡ equal fh.tmpfile m
  is_at_named fh m h = ground arith

  -- A new file has not been there.
  not_there :
      {t : Bytes} {d d' : D}
      → os.temp_file d ≡ (d', some t)
      → (m : Bytes) → equal t m ≡ true
      → exists m d ≡ false
  not_there {t} {d} e m h = ap (λ n. exists n d) (sym ((equal_iff t m).0 h)) ∙ laws.is_new e

  -- what exists when a new file is written
  made :
      {t : Bytes} {d d' d'' : D}
      → os.temp_file d ≡ (d', some t)
      → Written os t d' d''
      → (m : Bytes) → exists m d'' ≡ (equal t m || exists m d)
  made e w m = Written-exists w m ∙ laws.makes e m

  Step-Owns :
      {S P : Type 0} {before : D} {st st' : FormState S P D}
      → Step os st st'
      → Owns exists before st.form st.disk
      → Owns exists before st'.form st'.disk
  Step-Owns (moves p s) h = h
  Step-Owns (spends b) h = h
  Step-Owns (keeps_value name b k) h = record { now = h.now; apart = h.apart }
  Step-Owns {st = st} (keeps_file name fh b c t k) h =
      let at = λ (m : Bytes). is_at_none fh m t in
      let more = λ (m : Bytes). added name fh st.form m in
      record {
        now = λ m. ground (arith, at m, more m, h.now m);
        apart = λ m e. ground (arith, at m, more m, h.apart m);
      }
  Step-Owns (makes_none e) h = record { now = λ m. laws.fails e m ∙ h.now m; apart = h.apart }
  Step-Owns {st = st} (stores name fh c e w) h =
      let at = λ (m : Bytes). is_at_named fh m (laws.names e) in
      let more = λ (m : Bytes). added name fh st.form m in
      record {
        now = λ m. ground (arith, at m, more m, h.now m, made e w m);
        apart = λ m k. ground (arith, at m, more m, h.now m, h.apart m, not_there e m, k);
      }
  Step-Owns {st = st} (drops tmp {d} {d'} e w) h = record {
    now = λ m. ground (arith, laws.removes tmp d' m, made e w m, h.now m, not_there e m);
    apart = h.apart;
  }

  pub Reach-Owns :
      {S P : Type 0} {before : D} {st st' : FormState S P D}
      → Reach os st st'
      → Owns exists before st.form st.disk
      → Owns exists before st'.form st'.disk
  Reach-Owns here h = h
  Reach-Owns (later r s) h = Step-Owns s (Reach-Owns r h)
