-- ===== src/Multipart/Form/Results.antt =====
-- multipart/formdata.go: `ReadForm` returns, and what it has kept then.
use mime.Base.Result.{Result, ok, err}
use mime.Base.{ℕ, ◌<◌, ◌≤◌, Bool, Option, none, some, ◌≡◌, refl, arith}
use mime.Base.Bytes.{Bytes}
use mime.Multipart.Form.{Form, FormError, Source, Os, max_value_bytes, remove_all}
use mime.Multipart.Form.Read.{FormState, start, returned, form_loop, read_form}
use mime.Base.Outcomes.{Gives, Gives-bind, Gives-OnSome}
use mime.Multipart.Form.Steps.{Reach, here}
use mime.Multipart.Form.Rounds.{form_loop-Reach}
use mime.Multipart.Form.Limits.{values_of, memory_of, Within, Reach-Within}
use mime.Multipart.Form.TempFiles.{OsLaws, Owns, remove_all-Owns, Reach-Owns}
use mime.Multipart.Form.Returns.{SourceLaws, AnyEnd, form_loop-Gives}

-- A form that is returned has less than 10 MB of values, and no more in memory than the limit.
abbrev pub IsWithin : {S P D : Type 0} → ℕ → Result FormError Form × FormState S P D → Type 0
IsWithin limit (ok form, st) = (values_of form < max_value_bytes) × (memory_of form ≤ limit)
IsWithin limit (err e, st) = Unit

-- A form that is returned has its temporary files, and `RemoveAll` leaves the files that were there
-- before; behind an error, there are those that were there before.
abbrev pub IsClean :
    {S P D : Type 0}
    → Os D
    → (Bytes → D → Bool)
    → D
    → Result FormError Form × FormState S P D
    → Type 0
IsClean os exists before (ok form, st) =
    Owns exists before form st.disk
    × ((m : Bytes) → exists m (remove_all os form st.disk).0 ≡ exists m before)
IsClean os exists before (err e, st) = (m : Bytes) → exists m st.disk ≡ exists m before

module _ {S P D : Type 0} (source : Source S P) (os : Os D) (room : ℕ → ℕ)
    (laws : SourceLaws source) (room_some : (k : ℕ) → 0 < room k) where
  -- the end of the loop is reached by steps
  abbrev Reached : ℕ → S → D → Option FormError × FormState S P D → Type 0
  Reached limit s d r = Reach os (start source os room limit s d) r.1

  form_loop-Reached :
      (fuel limit : ℕ) (s : S) (d : D)
      → laws.total s < fuel
      → Gives (Reached limit s d) (form_loop source os room fuel (start source os room limit s d))
  form_loop-Reached fuel limit s d h =
      let st = start source os room limit s d in
      Gives-OnSome (AnyEnd source os room laws room_some) (Reached limit s d)
        (form_loop source os room fuel st) (form_loop-Gives source os room laws room_some fuel st h)
        (form_loop-Reach source os room st fuel st here)

  -- A property of what is returned, that the steps give.
  read_form-Gives :
      (Q : Result FormError Form × FormState S P D → Type 0) (fuel limit : ℕ) (s : S) (d : D)
      → laws.total s < fuel
      → ((r : Option FormError × FormState S P D)
          → Reached limit s d r
          → Q (returned source os room r))
      → Gives Q (read_form source os room fuel limit s d)
  unfolding read_form
  read_form-Gives Q fuel limit s d h g =
      Gives-bind (Reached limit s d) Q
        (form_loop source os room fuel (start source os room limit s d)) _
        (form_loop-Reached fuel limit s d h) g

  returned-Within :
      (limit : ℕ) (r : Option FormError × FormState S P D)
      → Within limit r.1.form r.1.max_value r.1.max_memory
      → IsWithin limit (returned source os room r)
  returned-Within limit (none, st) h = (h.values_left, omega (arith, h.memory))
  returned-Within limit (some e, st) h = tt

  -- `ReadForm` returns on every message, with more fuel than there is left to read, and what it
  -- returns is within the limits: the values have less than 10 MB together, and the files that are
  -- held in memory have no more than `maxMemory` bytes together. It holds for every reader whose
  -- parts get shorter with each read, whatever the files of the system do, and for every `maxMemory`
  -- that is not negative.
  pub read_form-Within :
      (fuel limit : ℕ) (s : S) (d : D)
      → laws.total s < fuel
      → Gives (IsWithin limit) (read_form source os room fuel limit s d)
  read_form-Within fuel limit s d h = read_form-Gives (IsWithin limit) fuel limit s d h (λ r g.
      returned-Within limit r (
        Reach-Within os limit g
          (record { values = omega arith; values_left = omega arith; memory = omega arith })))

  module _ (exists : Bytes → D → Bool) (os_laws : OsLaws os exists) where
    returned-Clean :
        (before : D) (r : Option FormError × FormState S P D)
        → Owns exists before r.1.form r.1.disk
        → IsClean os exists before (returned source os room r)
    returned-Clean before (none, st) h = (h, remove_all-Owns os exists os_laws h)
    returned-Clean before (some e, st) h = remove_all-Owns os exists os_laws h

    -- `ReadForm` returns on every message, with more fuel than there is left to read, and leaves no
    -- temporary file behind: with an error, whichever read, write or creation of a file gave it, the
    -- files that exist are those that existed before; with a form, they are those and the temporary
    -- files that the form names, and its `RemoveAll` brings the files back to those that existed
    -- before. It holds where `TempFile` gives new names, a write makes no file, and every removal
    -- succeeds.
    pub read_form-Clean :
        (fuel limit : ℕ) (s : S) (d : D)
        → laws.total s < fuel
        → Gives (IsClean os exists d) (read_form source os room fuel limit s d)
    read_form-Clean fuel limit s d h =
        read_form-Gives (IsClean os exists d) fuel limit s d h (λ r g.
          returned-Clean d r
            (Reach-Owns os exists os_laws g (record { now = λ m. refl; apart = λ m. cc })))
