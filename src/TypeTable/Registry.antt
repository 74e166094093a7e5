-- ===== src/TypeTable/Registry.antt =====
-- type.go and type_unix.go: the tables after `initMime`, and after calls of `AddExtensionType`.
use mime.Base.{
  ℕ, List, [], ◌∷◌, Bool, true, false, not, Option, none, some, if◌then◌else◌, ◌≡◌, refl, sym,
  subst, inl, inr, Option-cases,
}
use mime.Base.Array.{◌>>=◌}
use mime.Base.Bytes.{Bytes, codes, has_prefix}
use mime.MediaType.Errors.{GoError}
use mime.TypeTable.{Tables, set_extension_type}
use mime.TypeTable.Files.{
  File, FileSystem, Registry, fields, begins_comment, type_files, add_exts, add_line, add_lines,
  load_mime_file, init_mime_unix, init_mime, once_do, registered, add_extension_type,
}
use mime.TypeTable.Lookup.{Sets, set_extension_type-Sets}
use mime.TypeTable.Invariant.{IsValid, Keeps, set_extension_type-IsValid}
use mime.TypeTable.Start.{builtin, clone_builtin, set_builtin, builtin-IsValid}

-- The scanner of no file ends with an error, such as a line that is too long.
abbrev pub Readable : FileSystem → Type 0
Readable files = (name : Bytes) (lines : List Bytes) → files name ≡ some (lines, true) → ⊥

module _ (unicode_lower : ℕ → ℕ) where
  -- A result, with valid tables.
  abbrev pub Valid : Option Tables → Type 0
  Valid none = ⊥
  Valid (some tb) = IsValid unicode_lower tb

  Valid-bind :
      (o : Option Tables) (f : Tables → Option Tables)
      → Valid o
      → ((tb : Tables) → IsValid unicode_lower tb → Valid (f tb))
      → Valid (o >>= f)
  Valid-bind none f v g = absurd v
  Valid-bind (some tb) f v g = g tb v

  -- `setExtensionType` gives a result, with valid tables.
  record Done (ext typ : Bytes) (tb : Tables) : Type 0 where
    after : Tables
    error : Option GoError
    result : set_extension_type unicode_lower ext typ tb ≡ some (after, error)
    valid : IsValid unicode_lower after

  set_extension_type-Done :
      (ext typ : Bytes) (tb : Tables) → IsValid unicode_lower tb → Done ext typ tb
  set_extension_type-Done ext typ tb v =
      let sets = set_extension_type-Sets unicode_lower ext typ tb in
      let keeps = set_extension_type-IsValid unicode_lower ext typ tb v in
      elim (Option-cases (set_extension_type unicode_lower ext typ tb)) [
        | inl e ↦ absurd (subst (Sets unicode_lower ext typ tb) e sets)
        | inr ((tb', err), e) ↦ record {
          after = tb';
          error = err;
          result = e;
          valid = subst (Keeps unicode_lower) e keeps;
        }
      ]

  set-Valid :
      (ext typ : Bytes) (tb : Tables) (f : Tables → Option Tables)
      → IsValid unicode_lower tb
      → ((tb' : Tables) → IsValid unicode_lower tb' → Valid (f tb'))
      → Valid (set_extension_type unicode_lower ext typ tb >>= λ r. f r.0)
  set-Valid ext typ tb f v g =
      let d = set_extension_type-Done ext typ tb v in
      subst (λ (o : Option (Tables × Option GoError)). Valid (o >>= λ r. f r.0)) (sym d.result)
        (g d.after d.valid)

  if-Valid : (b : Bool) (x y : Option Tables) → Valid x → Valid y → Valid (if b then x else y)
  if-Valid true x y v w = v
  if-Valid false x y v w = w

  add_exts-Valid :
      (mime_type : Bytes) (exts : List Bytes) (tb : Tables)
      → IsValid unicode_lower tb
      → Valid (add_exts unicode_lower mime_type exts tb)
  unfolding add_exts
  add_exts-Valid mime_type [] tb v = v
  add_exts-Valid mime_type (ext ∷ exts) tb v = if-Valid (begins_comment ext) _ _ v (
      set-Valid (b'.' ∷ ext) mime_type tb (add_exts unicode_lower mime_type exts) v
        (add_exts-Valid mime_type exts))

  add_line-Valid :
      (line : List Bytes) (tb : Tables)
      → IsValid unicode_lower tb
      → Valid (add_line unicode_lower line tb)
  unfolding add_line
  add_line-Valid [] tb v = v
  add_line-Valid (mime_type ∷ []) tb v = v
  add_line-Valid (mime_type ∷ ext ∷ exts) tb v =
      if-Valid (begins_comment mime_type) _ _ v (add_exts-Valid mime_type (ext ∷ exts) tb v)

  add_lines-Valid :
      (lines : List Bytes) (tb : Tables)
      → IsValid unicode_lower tb
      → Valid (add_lines unicode_lower lines tb)
  unfolding add_lines
  add_lines-Valid [] tb v = v
  add_lines-Valid (line ∷ lines) tb v =
      Valid-bind (add_line unicode_lower (fields line) tb) _ (add_line-Valid (fields line) tb v)
        (add_lines-Valid lines)

  load_mime_file-Valid :
      (file : Option File) (tb : Tables)
      → ((lines : List Bytes) → file ≡ some (lines, true) → ⊥)
      → IsValid unicode_lower tb
      → Valid (load_mime_file unicode_lower file tb)
  unfolding load_mime_file
  load_mime_file-Valid none tb r v = v
  load_mime_file-Valid (some (lines, true)) tb r v = absurd (r lines refl)
  load_mime_file-Valid (some (lines, false)) tb r v =
      Valid-bind (add_lines unicode_lower lines tb) _ (add_lines-Valid lines tb v) (λ tb' v'. v')

  init_mime_unix-Valid :
      (files : FileSystem) (names : List Bytes) (tb : Tables)
      → Readable files
      → IsValid unicode_lower tb
      → Valid (init_mime_unix unicode_lower files names tb)
  unfolding init_mime_unix
  init_mime_unix-Valid files [] tb r v = v
  init_mime_unix-Valid files (name ∷ names) tb r v =
      Valid-bind (load_mime_file unicode_lower (files name) tb) _
        (load_mime_file-Valid (files name) tb (r name) v)
        (λ tb' v'. init_mime_unix-Valid files names tb' r v')

  -- `initMime` does not panic, whatever is in the files of the system, if no scanner of a file ends
  -- with an error; and the tables that it makes go together.
  pub init_mime-Valid :
      (files : FileSystem) → Readable files → Valid (init_mime unicode_lower files)
  unfolding init_mime
  init_mime-Valid files r =
      rw (clone_builtin unicode_lower, set_builtin unicode_lower)
        (init_mime_unix-Valid files type_files (builtin unicode_lower) r
          (builtin-IsValid unicode_lower))

  -- The tables go together, once they are there.
  abbrev pub RegistryIsValid : Registry → Type 0
  RegistryIsValid none = Unit
  RegistryIsValid (some tb) = IsValid unicode_lower tb

  -- What a call gives, with valid tables; no panic.
  abbrev Registers : Option (Registry × Bool) → Type 0
  Registers none = ⊥
  Registers (some (reg, done)) = RegistryIsValid reg

  once_do-Valid :
      (files : FileSystem) (reg : Registry)
      → Readable files
      → RegistryIsValid reg
      → Valid (once_do unicode_lower files reg)
  unfolding once_do
  once_do-Valid files none r v = init_mime-Valid files r
  once_do-Valid files (some tb) r v = v

  registered-Valid :
      (tb : Tables) (e : Option GoError)
      → IsValid unicode_lower tb
      → RegistryIsValid (registered unicode_lower (tb, e)).0
  registered-Valid tb none v = v
  registered-Valid tb (some e) v = v

  if-Registers :
      (b : Bool) (x y : Option (Registry × Bool))
      → Registers x
      → Registers y
      → Registers (if b then x else y)
  if-Registers true x y v w = v
  if-Registers false x y v w = w

  bind-Registers :
      (ext typ : Bytes) (o : Option Tables)
      → Valid o
      → Registers (
          o >>= λ tb.
          set_extension_type unicode_lower ext typ tb >>= λ r. some (registered unicode_lower r))
  bind-Registers ext typ none v = absurd v
  bind-Registers ext typ (some tb) v =
      let d = set_extension_type-Done ext typ tb v in
      subst
        (λ (o : Option (Tables × Option GoError)).
          Registers (o >>= λ r. some (registered unicode_lower r)))
        (sym d.result) (registered-Valid d.after d.error d.valid)

  add_extension_type-Registers :
      (files : FileSystem) (ext typ : Bytes) (reg : Registry)
      → Readable files
      → RegistryIsValid reg
      → Registers (add_extension_type unicode_lower files ext typ reg)
  unfolding add_extension_type
  add_extension_type-Registers files ext typ reg r v =
      if-Registers (not (has_prefix ext (codes "."))) _ _ v
        (bind-Registers ext typ (once_do unicode_lower files reg) (once_do-Valid files reg r v))

  -- a client that adds one extension after the other, whatever the errors are
  unfoldable pub add_all : FileSystem → List (Bytes × Bytes) → Registry → Option Registry
  add_all files [] reg = some reg
  add_all files ((ext, typ) ∷ calls) reg =
      add_extension_type unicode_lower files ext typ reg >>= λ r. add_all files calls r.0

  after_call :
      (files : FileSystem) (calls : List (Bytes × Bytes)) (o : Option (Registry × Bool))
      → Registers o
      → ((reg : Registry)
          → RegistryIsValid reg
          → (after : Registry) × (add_all files calls reg ≡ some after) × RegistryIsValid after)
      → (after : Registry) × ((o >>= λ r. add_all files calls r.0) ≡ some after)
        × RegistryIsValid after
  after_call files calls none w rest = absurd w
  after_call files calls (some (reg, done)) w rest = rest reg w

  -- Any calls of `AddExtensionType`, from the start of the program on, with an error or without,
  -- never panic and leave tables that go together, if no scanner of a file ends with an error.
  pub add_all-IsValid :
      (files : FileSystem) (calls : List (Bytes × Bytes)) (reg : Registry)
      → Readable files
      → RegistryIsValid reg
      → (after : Registry) × (add_all files calls reg ≡ some after) × RegistryIsValid after
  unfolding add_all
  add_all-IsValid files [] reg r v = (reg, refl, v)
  add_all-IsValid files ((ext, typ) ∷ calls) reg r v =
      after_call files calls (add_extension_type unicode_lower files ext typ reg)
        (add_extension_type-Registers files ext typ reg r v)
        (λ reg' w. add_all-IsValid files calls reg' r w)
