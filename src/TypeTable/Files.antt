-- ===== src/TypeTable/Files.antt =====
-- type_unix.go, and the start of the tables in type.go. The files of the system are a parameter: for
-- a name, the lines that a `bufio.Scanner` gives of the file, and whether it ends with an error.
use mime.Base.Array.{◌>>=◌}
use mime.Runes
use mime.Runes.Strings
use mime.Base.{
  ℕ, zero, suc, ◌-◌, List, [], ◌∷◌, ◌++◌, Bool, true, false, not, Option, none, some, if◌then◌else◌,
  ◌≡◌, refl,
}
use mime.Base.Bytes.{Bytes, codes, has_prefix}
use mime.MediaType.Errors.{GoError}
use mime.Runes.Strings.{is_space}
use mime.Runes.{decode_rune}
use mime.TypeTable
use mime.TypeTable.{
  Tables, Types, builtin_types_lower, clone, set_mime_types, set_extension_type, is_nil,
}

-- the field that a space ends, if there is one
abbrev pub with_field : Bytes → List Bytes → List Bytes
with_field [] fields = fields
with_field (b ∷ s) fields = (b ∷ s) ∷ fields

-- `strings.Fields(s)`: `inside` says if the bytes that are passed over belong to the field
unfoldable pub fields_after : Bool → ℕ → Bytes → Bytes → List Bytes
fields_after inside skip field [] = with_field field []
fields_after inside zero field (b ∷ s) =
    let (r, width) = decode_rune (b ∷ s) in
    let next = fields_after false (width - 1) [] s in
    let longer = fields_after true (width - 1) (field ++ (b ∷ [])) s in
    if is_space r then with_field field next else longer
fields_after true (suc skip) field (b ∷ s) = fields_after true skip (field ++ (b ∷ [])) s
fields_after false (suc skip) field (b ∷ s) = fields_after false skip field s

abbrev pub fields : Bytes → List Bytes
fields s = fields_after false 0 [] s

-- a file: its lines, and whether the scanner ends with an error
abbrev pub File : Type 0
File = List Bytes × Bool

-- `os.Open` and the scan: `none` where the file cannot be opened
abbrev pub FileSystem : Type 0
FileSystem = Bytes → Option File

-- `s[0] == '#'`, for a field
abbrev pub begins_comment : Bytes → Bool
begins_comment s = has_prefix s (b'#' ∷ [])

-- `typeFiles`
abbrev pub type_files : List Bytes
type_files =
    codes "/etc/mime.types" ∷ codes "/etc/apache2/mime.types" ∷ codes "/etc/apache/mime.types" ∷ []

-- the variables of the package: the tables once `initMime` has run
abbrev pub Registry : Type 0
Registry = Option Tables

module _ (unicode_lower : ℕ → ℕ) where
  -- the loop over the extensions of a line
  unfoldable pub add_exts : Bytes → List Bytes → Tables → Option Tables
  add_exts mime_type [] tb = some tb
  add_exts mime_type (ext ∷ exts) tb =
      let rest = set_extension_type unicode_lower (b'.' ∷ ext) mime_type tb >>= λ r.
      add_exts mime_type exts r.0 in
      if begins_comment ext then some tb else rest

  -- a line of the file, by its fields
  unfoldable pub add_line : List Bytes → Tables → Option Tables
  add_line [] tb = some tb
  add_line (mime_type ∷ []) tb = some tb
  add_line (mime_type ∷ ext ∷ exts) tb =
      if begins_comment mime_type then some tb else add_exts mime_type (ext ∷ exts) tb

  unfoldable pub add_lines : List Bytes → Tables → Option Tables
  add_lines [] tb = some tb
  add_lines (line ∷ lines) tb = add_line (fields line) tb >>= λ tb'. add_lines lines tb'

  -- `loadMimeFile`; an error of the scanner is a panic
  unfoldable pub load_mime_file : Option File → Tables → Option Tables
  load_mime_file none tb = some tb
  load_mime_file (some (lines, failed)) tb =
      add_lines lines tb >>= λ tb'. if failed then none else some tb'

  -- `initMimeUnix`
  unfoldable pub init_mime_unix : FileSystem → List Bytes → Tables → Option Tables
  init_mime_unix files [] tb = some tb
  init_mime_unix files (name ∷ names) tb =
      load_mime_file (files name) tb >>= λ tb'. init_mime_unix files names tb'

  -- `initMime`, with no `testInitMime`
  unfoldable pub init_mime : FileSystem → Option Tables
  init_mime files = clone unicode_lower builtin_types_lower >>= λ mixed.
      set_mime_types unicode_lower (some builtin_types_lower) (some mixed) >>= λ tb.
      init_mime_unix files type_files tb

  -- `once.Do(initMime)`
  unfoldable pub once_do : FileSystem → Registry → Option Tables
  once_do files none = init_mime files
  once_do files (some tb) = some tb

  -- what `AddExtensionType` returns, behind `setExtensionType`
  abbrev pub registered : Tables × Option GoError → Registry × Bool
  registered (tb, none) = (some tb, true)
  registered (tb, some e) = (some tb, false)

  -- `AddExtensionType`: the registry, and whether the error is nil
  unfoldable pub add_extension_type :
      FileSystem → Bytes → Bytes → Registry → Option (Registry × Bool)
  add_extension_type files ext typ reg =
      if not (has_prefix ext (codes "."))
      then some (reg, false)
      else once_do files reg >>= λ tb.
          set_extension_type unicode_lower ext typ tb >>= λ r. some (registered r)

-- unfolds what a test of this file computes with
unfoldable pub computes : Unit {0}
unfolding fields_after add_exts add_line add_lines load_mime_file init_mime_unix init_mime once_do
    add_extension_type TypeTable.computes Strings.computes Runes.computes
computes = tt

abbrev one_file : FileSystem
one_file name =
    if has_prefix name (codes "/etc/mime")
    then some (codes "# types" ∷ codes "a/b \tx  Y #z w" ∷ codes "a/c" ∷ [], false)
    else none

file_text :
    (fields (codes " a  b\t") ≡ codes "a" ∷ codes "b" ∷ [])
    × ((init_mime (λ r. r) one_file >>= λ tb.
          TypeTable.extensions_by_type (λ r. r) (codes "a/b") tb)
        ≡ some (some (codes ".x" ∷ codes ".y" ∷ []), none))
unfolding computes
file_text = (refl, refl)
