-- ===== src/TypeTable/Lookup.antt =====
-- type.go: what `TypeByExtension` reads, and what `setExtensionType` changes of it.
use mathlib.Core.List.{Memᴰ}
use mathlib.Core.List.Memᴰ
use mime.Base.{
  ℕ, List, [], ◌∷◌, ◌++◌, map, Bool, true, false, ◌||◌, ◌&&◌, Option, none, some, ltb,
  if◌then◌else◌, ◌≡◌, ◌≢◌, ◌⊎◌, inl, inr, refl, ap, sym, subst, ◌∙◌, All, Bool-cases, ltb→lt,
}
use mime.Base.Bytes.{Bytes, IsAscii, codes, equal, equal_iff, equal_refl, has_prefix}
use mime.Base.Dict.{lookup, insert, lookup-insert}
use mime.MediaType.Errors.{GoError, is_ok_pmt_error}
use mime.MediaType.Format.{or_empty, format_media_type}
use mime.MediaType.Parse.{Parsed, Params, parse_media_type}
use mime.MediaType.Total.{Usable, parse_media_type-Returns}
use mime.Runes.Lower.{to_lower_ascii}
use mime.Runes.Strings.{to_lower, lower_ascii}
use mime.TypeTable.{
  Tables, is_nil, member, or_no_list, lower_ext, type_by_extension, extensions_of, answer,
  set_checked, extensions_by_type, lacks_charset, with_charset, put_type, set_parsed,
  set_extension_type,
}

-- The fast path takes all of an ASCII text, in lower case; else it gives up.
lower_ext-cases :
    (s : Bytes) → (lower_ext s ≡ none) ⊎ (All IsAscii s × (lower_ext s ≡ some (map lower_ascii s)))
unfolding lower_ext
lower_ext-cases [] = inr (tt, refl)
lower_ext-cases (c ∷ s) = elim (Bool-cases (ltb c 0x80)) [
  | inr h ↦ inl (rw h refl)
  | inl h ↦ elim (lower_ext-cases s) [
    | inl e ↦ inl (rw (h, lower_ext, e) refl)
    | inr (a, e) ↦ inr ((ltb→lt c 0x80 h, a), rw (h, lower_ext, e) refl)
  ]
]

-- the value of the first option that is there and not empty
abbrev pub first_value : Option Bytes → Option Bytes → Bytes
first_value o o' = if is_nil (or_empty o) then or_empty o' else or_empty o

-- The two paths of `TypeByExtension` are one: it reads the extension in the exact table, and where
-- that gives nothing in lower case in the other.
pub type_by_extension_lem :
    (unicode_lower : ℕ → ℕ) (ext : Bytes) (tb : Tables)
    → type_by_extension unicode_lower ext tb
      ≡ first_value (lookup ext tb.types) (lookup (to_lower unicode_lower ext) tb.types_lower)
unfolding type_by_extension
type_by_extension_lem unicode_lower ext tb = elim (lower_ext-cases ext) [
  | inl e ↦ rw (e, type_by_extension) refl
  | inr (a, e) ↦ rw (e, type_by_extension, to_lower_ascii unicode_lower ext a) refl
]

or_right : (x y : Bool) → (x || y) ≡ true → x ≡ false → y ≡ true
or_right true y h e = cc
or_right false y h e = h

pub member-Mem : (e : Bytes) (s : List Bytes) → member e s ≡ true → Memᴰ e s
unfolding member
member-Mem e [] h = cc
member-Mem e (v ∷ s) h = elim (Bool-cases (equal v e)) [
  | inl f ↦ Memᴰ.head (sym ((equal_iff v e).0 f))
  | inr f ↦ Memᴰ.tail (member-Mem e s (or_right (equal v e) (member e s) h f))
]

first_same : (t : Bytes) → first_value (some t) (some t) ≡ t
first_same [] = refl
first_same (b ∷ t) = refl

first_behind : (o : Option Bytes) (t : Bytes) → or_empty o ≡ [] → first_value o (some t) ≡ t
first_behind none t h = refl
first_behind (some []) t h = refl
first_behind (some (b ∷ s)) t h = cc

equal-ne : (a b : Bytes) → a ≢ b → equal a b ≡ false
equal-ne a b h = elim (Bool-cases (equal a b)) [
  | inl e ↦ absurd (h ((equal_iff a b).0 e))
  | inr e ↦ e
]

some-inj : {a b : Bytes} → ◌≡◌ {A = Option Bytes} (some a) (some b) → a ≡ b
some-inj e = cc

-- The list of the type, where `setExtensionType` has put the extension.
record Lists (e : Bytes) (o : Option (List Bytes)) : Type 0 where
  list : List Bytes
  there : o ≡ some list
  listed : Memᴰ e list

known-Lists : (e : Bytes) (o : Option (List Bytes)) → member e (or_no_list o) ≡ true → Lists e o
known-Lists e none h = unfold member in cc
known-Lists e (some s) h = record { list = s; there = refl; listed = member-Mem e s h }

module _ (unicode_lower : ℕ → ℕ) where
  put_type-Lists :
      (ext t just_type : Bytes) (tb : Tables)
      → Lists
          (to_lower unicode_lower ext)
          (lookup just_type (put_type unicode_lower ext t just_type tb).extensions)
  unfolding put_type
  put_type-Lists ext t just_type tb =
      let e = to_lower unicode_lower ext in
      let known = or_no_list (lookup just_type tb.extensions) in
      elim (Bool-cases (member e known)) [
        | inl h ↦ rw h (known-Lists e (lookup just_type tb.extensions) h)
        | inr h ↦ record {
          list = known ++ (e ∷ []);
          there =
              rw
                (
                  h,
                  lookup-insert just_type just_type (known ++ (e ∷ [])) tb.extensions,
                  equal_refl just_type,
                )
                refl;
          listed = Memᴰ.append_right known (Memᴰ.head refl);
        }
      ]

  -- The type that is stored for a type text with some parameters: the text itself, if it is no text
  -- type or has a charset; else what `FormatMediaType` gives for the text and its parameters with the
  -- charset UTF-8.
  pub record IsStored (typ : Bytes) (params : Option Params) (stored : Bytes) : Type 0 where
    pub as_given : has_prefix typ (codes "text/") ≡ false → stored ≡ typ
    pub keeps_charset :
        (m : Params) (c : ℕ) (v : Bytes)
        → params ≡ some m
        → lookup (codes "charset") m ≡ some (c ∷ v)
        → stored ≡ typ
    pub adds_charset :
        (m : Params)
        → params ≡ some m
        → has_prefix typ (codes "text/") ≡ true
        → or_empty (lookup (codes "charset") m) ≡ []
        → stored ≡ format_media_type unicode_lower typ (insert (codes "charset") (codes "utf-8") m)

  -- What is read where an extension has a type.
  pub record Registered (ext typ : Bytes) (tb tb' : Tables) : Type 0 where
    pub stored : Bytes
    pub exact : type_by_extension unicode_lower ext tb' ≡ stored
    pub any_case :
        (e : Bytes)
        → to_lower unicode_lower e ≡ to_lower unicode_lower ext
        → or_empty (lookup e tb.types) ≡ []
        → type_by_extension unicode_lower e tb' ≡ stored
    pub others :
        (e : Bytes)
        → to_lower unicode_lower e ≢ to_lower unicode_lower ext
        → type_by_extension unicode_lower e tb' ≡ type_by_extension unicode_lower e tb
    pub exts : List Bytes
    pub by_type : extensions_by_type unicode_lower typ tb' ≡ some (some exts, none)
    pub listed : Memᴰ (to_lower unicode_lower ext) exts
    pub parsed : Parsed
    pub is_parsed : parse_media_type unicode_lower typ ≡ some parsed
    pub is_stored : IsStored typ parsed.params stored

  read_put :
      (e ext t just_type : Bytes) (tb : Tables)
      → type_by_extension unicode_lower e (put_type unicode_lower ext t just_type tb)
        ≡ first_value (if equal ext e then some t else lookup e tb.types) (
            if equal (to_lower unicode_lower ext) (to_lower unicode_lower e)
            then some t
            else lookup (to_lower unicode_lower e) tb.types_lower)
  unfolding put_type
  read_put e ext t just_type tb =
      type_by_extension_lem unicode_lower e _
      ∙ rw
          (
            lookup-insert ext e t tb.types,
            lookup-insert (to_lower unicode_lower ext) (to_lower unicode_lower e) t tb.types_lower,
          )
          refl

  pub read_put_self :
      (ext t just_type : Bytes) (tb : Tables)
      → type_by_extension unicode_lower ext (put_type unicode_lower ext t just_type tb) ≡ t
  read_put_self ext t just_type tb =
      read_put ext ext t just_type tb
      ∙ rw (equal_refl ext, equal_refl (to_lower unicode_lower ext)) (first_same t)

  put_any_case :
      (e ext t just_type : Bytes) (tb : Tables)
      → to_lower unicode_lower e ≡ to_lower unicode_lower ext
      → or_empty (lookup e tb.types) ≡ []
      → type_by_extension unicode_lower e (put_type unicode_lower ext t just_type tb) ≡ t
  put_any_case e ext t just_type tb q h =
      let same = (equal_iff (to_lower unicode_lower ext) (to_lower unicode_lower e)).1 (sym q) in
      read_put e ext t just_type tb ∙ elim (Bool-cases (equal ext e)) [
        | inl f ↦ rw (f, same) (first_same t)
        | inr f ↦ rw (f, same) (first_behind (lookup e tb.types) t h)
      ]

  put_others :
      (e ext t just_type : Bytes) (tb : Tables)
      → to_lower unicode_lower e ≢ to_lower unicode_lower ext
      → type_by_extension unicode_lower e (put_type unicode_lower ext t just_type tb)
        ≡ type_by_extension unicode_lower e tb
  put_others e ext t just_type tb n =
      let lower =
        equal-ne (to_lower unicode_lower ext) (to_lower unicode_lower e) (λ q. n (sym q)) in
      let exact = equal-ne ext e (λ q. n (ap (to_lower unicode_lower) (sym q))) in
      read_put e ext t just_type tb
      ∙ rw (lower, exact) (sym (type_by_extension_lem unicode_lower e tb))

  answered :
      (tb : Tables) (p : Parsed)
      → p.error ≡ none
      → extensions_of unicode_lower (some p) tb ≡ some (lookup p.media_type tb.extensions, none)
  unfolding extensions_of
  answered tb p h = ap (λ o. answer unicode_lower o (lookup p.media_type tb.extensions)) h

  -- What `setExtensionType` gives: no panic; with an error, which is the one of the parse, the same
  -- tables, else the extension has a type.
  abbrev pub Sets : Bytes → Bytes → Tables → Option (Tables × Option GoError) → Type 0
  Sets ext typ tb none = ⊥
  Sets ext typ tb (some (tb', none)) = Registered ext typ tb tb'
  Sets ext typ tb (some (tb', some e)) =
      (tb' ≡ tb)
      × ((p : Parsed) × (parse_media_type unicode_lower typ ≡ some p) × (p.error ≡ some e))

  put_type-Registered :
      (ext typ t : Bytes) (p : Parsed) (tb : Tables)
      → parse_media_type unicode_lower typ ≡ some p
      → p.error ≡ none
      → IsStored typ p.params t
      → Registered ext typ tb (put_type unicode_lower ext t p.media_type tb)
  put_type-Registered ext typ t p tb e h g =
      let l = put_type-Lists ext t p.media_type tb in
      record {
        stored = t;
        exact = read_put_self ext t p.media_type tb;
        any_case = λ x q o. put_any_case x ext t p.media_type tb q o;
        others = λ x n. put_others x ext t p.media_type tb n;
        exts = l.list;
        by_type =
            ap (λ o. extensions_of unicode_lower o (put_type unicode_lower ext t p.media_type tb)) e
            ∙ answered (put_type unicode_lower ext t p.media_type tb) p h
            ∙ ap (λ o. some (o, none)) l.there;
        listed = l.listed;
        parsed = p;
        is_parsed = e;
        is_stored = g;
      }

  and_false : (b : Bool) → (b && false) ≡ false
  and_false true = refl
  and_false false = refl

  with_charset_other :
      (typ : Bytes) (m : Option Params)
      → has_prefix typ (codes "text/") ≡ false
      → with_charset unicode_lower typ m ≡ some typ
  unfolding with_charset
  with_charset_other typ m h = rw (h, with_charset) refl

  with_charset_kept :
      (typ : Bytes) (m : Params) (c : ℕ) (v : Bytes)
      → lookup (codes "charset") m ≡ some (c ∷ v)
      → with_charset unicode_lower typ (some m) ≡ some typ
  unfolding with_charset
  with_charset_kept typ m c v h = rw (h, and_false (has_prefix typ (codes "text/"))) refl

  with_charset_added :
      (typ : Bytes) (m : Params)
      → has_prefix typ (codes "text/") ≡ true
      → or_empty (lookup (codes "charset") m) ≡ []
      → with_charset unicode_lower typ (some m)
        ≡ some (format_media_type unicode_lower typ (insert (codes "charset") (codes "utf-8") m))
  unfolding with_charset
  with_charset_added typ m h n = rw (h, n) refl

  with_charset-IsStored :
      (typ : Bytes) (o : Option Params) (t : Bytes)
      → with_charset unicode_lower typ o ≡ some t
      → IsStored typ o t
  with_charset-IsStored typ o t w = record {
    as_given = λ g. some-inj (sym w ∙ with_charset_other typ o g);
    keeps_charset = λ m c v e g.
        some-inj (sym w ∙ ap (with_charset unicode_lower typ) e ∙ with_charset_kept typ m c v g);
    adds_charset = λ m e g n.
        some-inj (sym w ∙ ap (with_charset unicode_lower typ) e ∙ with_charset_added typ m g n);
  }

  with_charset_there : (typ : Bytes) (m : Params) → with_charset unicode_lower typ (some m) ≢ none
  unfolding with_charset
  with_charset_there typ m e =
      elim (Bool-cases (has_prefix typ (codes "text/") && lacks_charset unicode_lower (some m))) [
        | inl h ↦ cc (
            sym (
              ap
                (λ b.
                  if b
                  then some (
                      format_media_type unicode_lower typ
                        (insert (codes "charset") (codes "utf-8") m))
                  else some typ)
                h)
            ∙ e)
        | inr h ↦ cc (
            sym (
              ap
                (λ b.
                  if b
                  then some (
                      format_media_type unicode_lower typ
                        (insert (codes "charset") (codes "utf-8") m))
                  else some typ)
                h)
            ∙ e)
      ]

  set_checked-Sets :
      (ext typ : Bytes) (p : Parsed) (tb : Tables) (err : Option GoError) (t : Option Bytes)
      → parse_media_type unicode_lower typ ≡ some p
      → p.error ≡ err
      → with_charset unicode_lower typ p.params ≡ t
      → (err ≡ none → t ≢ none)
      → Sets ext typ tb (set_checked unicode_lower err t ext p.media_type tb)
  set_checked-Sets ext typ p tb (some e) t parsed h w n = (refl, (p, parsed, h))
  set_checked-Sets ext typ p tb none none parsed h w n = absurd (n refl refl)
  set_checked-Sets ext typ p tb none (some t) parsed h w n =
      put_type-Registered ext typ t p tb parsed h (with_charset-IsStored typ p.params t w)

  params_there :
      (p : Parsed) (typ : Bytes)
      → Usable p
      → p.error ≡ none
      → with_charset unicode_lower typ p.params ≢ none
  params_there p typ u h = elim u [
    | inl (m, e) ↦ λ n. with_charset_there typ m (ap (with_charset unicode_lower typ) (sym e) ∙ n)
    | inr f ↦ λ n. f (ap is_ok_pmt_error h ∙ (unfold is_ok_pmt_error in refl))
  ]

  -- `setExtensionType` does not panic. Where the parse of the type gives an error, it returns that
  -- error and changes nothing. Else one type is stored: the one given, if that is no text type or has
  -- a charset, and else what `FormatMediaType` gives for the whole text given and its parameters with
  -- the charset UTF-8, which may be the empty text. `TypeByExtension` reads the stored type for the
  -- extension, and for each other form of it in upper and lower case that has no type of its own; any
  -- other extension reads as before; and `ExtensionsByType` of the type lists the extension in lower
  -- case.
  pub set_extension_type-Sets :
      (ext typ : Bytes) (tb : Tables)
      → Sets ext typ tb (set_extension_type unicode_lower ext typ tb)
  unfolding set_parsed
  set_extension_type-Sets ext typ tb =
      let (p, e, u) = parse_media_type-Returns unicode_lower typ in
      subst (λ o. Sets ext typ tb (set_parsed unicode_lower ext typ o tb)) (sym e)
        (set_checked-Sets ext typ p tb p.error _ e refl refl (params_there p typ u))
