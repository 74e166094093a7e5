-- ===== src/TypeTable/Invariant.antt =====
-- type.go: the three tables go together.
use mathlib.Core.List.{Memᴰ}
use mathlib.Core.List.Memᴰ
use mime.Base.{
  ℕ, List, [], ◌∷◌, ◌++◌, Bool, true, false, ◌||◌, Option, none, some, ◌≡◌, ◌⊎◌, inl, inr, refl, ap,
  sym, subst, ◌∙◌, Bool-cases, Option-cases,
}
use mime.Base.Bytes.{Bytes, equal, equal_iff, equal_refl}
use mime.Base.Dict.{lookup, insert, lookup-insert, Has, Has-insert_self, Has-insert, insert-Has}
use mime.MediaType.Errors.{GoError}
use mime.MediaType.Parse.{Parsed, parse_media_type}
use mime.Runes.Strings.{to_lower}
use mime.TypeTable.{
  Tables, Extensions, member, or_no_list, put_type, set_checked, set_parsed, set_extension_type,
}
use mime.TypeTable.Lookup.{member-Mem}

-- No extension is twice in the list.
abbrev pub NoRepeats : List Bytes → Type 0
NoRepeats [] = Unit
NoRepeats (e ∷ s) = (Memᴰ e s → ⊥) × NoRepeats s

-- The extension is listed for some type.
pub record Listed (e : Bytes) (exts : Extensions) : Type 0 where
  pub just_type : Bytes
  pub list : List Bytes
  pub there : lookup just_type exts ≡ some list
  pub among : Memᴰ e list

module _ (unicode_lower : ℕ → ℕ) where
  -- No extension is twice in a list; the extensions in the lists are those of the table in lower
  -- case; and each extension of the exact table is in lower case in the other.
  pub record IsValid (tb : Tables) : Type 0 where
    pub no_repeats : (j : Bytes) (s : List Bytes) → lookup j tb.extensions ≡ some s → NoRepeats s
    pub listed : (e : Bytes) → Has e tb.types_lower → Listed e tb.extensions
    pub typed : (e : Bytes) → Listed e tb.extensions → Has e tb.types_lower
    pub lowered : (e : Bytes) → Has e tb.types → Has (to_lower unicode_lower e) tb.types_lower

or_first : (x y : Bool) → (x || y) ≡ false → x ≡ false
or_first true y h = h
or_first false y h = refl

or_second : (x y : Bool) → (x || y) ≡ false → y ≡ false
or_second true y h = cc
or_second false y h = h

some-inj : {a b : List Bytes} → ◌≡◌ {A = Option (List Bytes)} (some a) (some b) → a ≡ b
some-inj e = cc

not_member : (e : Bytes) (s : List Bytes) → member e s ≡ false → Memᴰ e s → ⊥
unfolding member
not_member e [] h m = Memᴰ.not-nil m
not_member e (v ∷ s) h m = elim (Bool-cases (equal v e)) [
  | inl f ↦ cc (or_first (equal v e) (member e s) h)
  | inr f ↦ elim (Memᴰ.cases_cons m) [
    | inl q ↦ cc ((equal_iff v e).1 (sym q))
    | inr k ↦ not_member e s (or_second (equal v e) (member e s) h) k
  ]
]

snoc-NoRepeats :
    (s : List Bytes) (e : Bytes) → NoRepeats s → (Memᴰ e s → ⊥) → NoRepeats (s ++ (e ∷ []))
snoc-NoRepeats [] e h n = (λ m. Memᴰ.not-nil m, tt)
snoc-NoRepeats (a ∷ s) e (f, h) n = (
  λ m. elim (Memᴰ.append_cases s m) [
    | inl k ↦ f k
    | inr k ↦ n (Memᴰ.head (sym (Memᴰ.eq_of_singleton k)))
  ],
  snoc-NoRepeats s e h (λ m. n (Memᴰ.tail m)),
)

-- A new extension at the end of the list of a type.
module _ (just_type e : Bytes) (exts : Extensions) where
  abbrev pub known : List Bytes
  known = or_no_list (lookup just_type exts)

  abbrev pub longer : Extensions
  longer = insert just_type (known ++ (e ∷ [])) exts

  longer_self : lookup just_type longer ≡ some (known ++ (e ∷ []))
  longer_self =
      lookup-insert just_type just_type (known ++ (e ∷ [])) exts ∙ rw (equal_refl just_type) refl

  longer_other : (j : Bytes) → equal just_type j ≡ false → lookup j longer ≡ lookup j exts
  longer_other j h = lookup-insert just_type j (known ++ (e ∷ [])) exts ∙ rw h refl

  known_at :
      (j : Bytes) (s : List Bytes) → equal just_type j ≡ true → lookup j exts ≡ some s → known ≡ s
  known_at j s h l =
      ap (λ k. or_no_list (lookup k exts)) ((equal_iff just_type j).0 h) ∙ ap or_no_list l

  pub longer-Listed : (x : Bytes) → (x ≡ e) ⊎ Listed x exts → Listed x longer
  longer-Listed x (inl h) = record {
    just_type = just_type;
    list = known ++ (e ∷ []);
    there = longer_self;
    among = Memᴰ.append_right known (Memᴰ.head h);
  }
  longer-Listed x (inr l) = elim (Bool-cases (equal just_type l.just_type)) [
    | inl h ↦ record {
      just_type = just_type;
      list = known ++ (e ∷ []);
      there = longer_self;
      among =
          Memᴰ.append_left (e ∷ [])
            (subst (Memᴰ x) (sym (known_at l.just_type l.list h l.there)) l.among);
    }
    | inr h ↦ record {
      just_type = l.just_type;
      list = l.list;
      there = longer_other l.just_type h ∙ l.there;
      among = l.among;
    }
  ]

  pub known_or_none : (x : Bytes) → Memᴰ x known → Listed x exts
  known_or_none x m = elim (Option-cases (lookup just_type exts)) [
    | inl h ↦ absurd (Memᴰ.not-nil (subst (Memᴰ x) (ap or_no_list h) m))
    | inr (s, h) ↦ record {
      just_type = just_type;
      list = s;
      there = h;
      among = subst (Memᴰ x) (ap or_no_list h) m;
    }
  ]

  longer_at :
      (j : Bytes) (s : List Bytes)
      → equal just_type j ≡ true
      → lookup j longer ≡ some s
      → s ≡ known ++ (e ∷ [])
  longer_at j s h l =
      let same = (equal_iff just_type j).0 h in
      some-inj (sym l ∙ ap (λ k. lookup k longer) (sym same) ∙ longer_self)

  pub member-Listed : member e known ≡ true → Listed e exts
  member-Listed h = known_or_none e (member-Mem e known h)

  pub Listed-longer : (x : Bytes) → Listed x longer → (x ≡ e) ⊎ Listed x exts
  Listed-longer x l = elim (Bool-cases (equal just_type l.just_type)) [
    | inr h ↦ inr (record {
      just_type = l.just_type;
      list = l.list;
      there = sym (longer_other l.just_type h) ∙ l.there;
      among = l.among;
    })
    | inl h ↦
        elim (Memᴰ.append_cases known
          (subst (Memᴰ x) (longer_at l.just_type l.list h l.there) l.among)) [
            | inl m ↦ inr (known_or_none x m)
            | inr m ↦ inl (Memᴰ.eq_of_singleton m)
          ]
  ]

  pub longer-NoRepeats :
      ((j : Bytes) (s : List Bytes) → lookup j exts ≡ some s → NoRepeats s)
      → member e known ≡ false
      → (j : Bytes) (s : List Bytes) → lookup j longer ≡ some s
      → NoRepeats s
  longer-NoRepeats all h j s l = elim (Bool-cases (equal just_type j)) [
    | inr f ↦ all j s (sym (longer_other j f) ∙ l)
    | inl f ↦
        let old : NoRepeats known = elim (Option-cases (lookup just_type exts)) [
          | inl g ↦ subst NoRepeats (sym (ap or_no_list g)) tt
          | inr (v, g) ↦ subst NoRepeats (sym (ap or_no_list g)) (all just_type v g)
        ] in
        subst NoRepeats (sym (longer_at j s f l))
          (snoc-NoRepeats known e old (not_member e known h))
  ]

module _ (unicode_lower : ℕ → ℕ) where
  put_type-IsValid :
      (ext t just_type : Bytes) (tb : Tables)
      → IsValid unicode_lower tb
      → IsValid unicode_lower (put_type unicode_lower ext t just_type tb)
  unfolding put_type
  put_type-IsValid ext t just_type tb v =
      let e = to_lower unicode_lower ext in
      let known = or_no_list (lookup just_type tb.extensions) in
      let lowered : (x : Bytes)
          → Has x (insert ext t tb.types)
          → Has (to_lower unicode_lower x) (insert e t tb.types_lower) =
        λ x h. elim (insert-Has ext x t tb.types h) [
          | inl q ↦
              subst (λ y. Has y (insert e t tb.types_lower)) (sym (ap (to_lower unicode_lower) q))
                (Has-insert_self e t tb.types_lower)
          | inr k ↦ Has-insert e (to_lower unicode_lower x) t tb.types_lower (v.lowered x k)
        ] in
      let new : (x : Bytes) → (x ≡ e) ⊎ Listed x tb.extensions → Has x (insert e t tb.types_lower) =
        λ x k. elim k [
          | inl q ↦
              subst (λ y. Has y (insert e t tb.types_lower)) (sym q)
                (Has-insert_self e t tb.types_lower)
          | inr l ↦ Has-insert e x t tb.types_lower (v.typed x l)
        ] in
      let old : (x : Bytes) → Has x (insert e t tb.types_lower) → (x ≡ e) ⊎ Listed x tb.extensions =
        λ x k. elim (insert-Has e x t tb.types_lower k) [
          | inl q ↦ inl q
          | inr h ↦ inr (v.listed x h)
        ] in
      elim (Bool-cases (member e known)) [
        | inl h ↦ rw h (record {
          no_repeats = v.no_repeats;
          listed = λ x k. elim (old x k) [
            | inl q ↦
                subst (λ y. Listed y tb.extensions) (sym q)
                  (member-Listed just_type e tb.extensions h)
            | inr l ↦ l
          ];
          typed = λ x l. new x (inr l);
          lowered = lowered;
        })
        | inr h ↦ rw h (record {
          no_repeats = longer-NoRepeats just_type e tb.extensions v.no_repeats h;
          listed = λ x k. longer-Listed just_type e tb.extensions x (old x k);
          typed = λ x k. new x (Listed-longer just_type e tb.extensions x k);
          lowered = lowered;
        })
      ]

  -- The tables that a call leaves are valid.
  abbrev pub Keeps : Option (Tables × Option GoError) → Type 0
  Keeps none = Unit
  Keeps (some (tb, e)) = IsValid unicode_lower tb

  set_checked-IsValid :
      (err : Option GoError) (t : Option Bytes) (ext just_type : Bytes) (tb : Tables)
      → IsValid unicode_lower tb
      → Keeps (set_checked unicode_lower err t ext just_type tb)
  set_checked-IsValid (some e) t ext just_type tb v = v
  set_checked-IsValid none none ext just_type tb v = tt
  set_checked-IsValid none (some t) ext just_type tb v = put_type-IsValid ext t just_type tb v

  set_parsed-IsValid :
      (ext typ : Bytes) (o : Option Parsed) (tb : Tables)
      → IsValid unicode_lower tb
      → Keeps (set_parsed unicode_lower ext typ o tb)
  unfolding set_parsed
  set_parsed-IsValid ext typ none tb v = tt
  set_parsed-IsValid ext typ (some p) tb v = set_checked-IsValid p.error _ ext p.media_type tb v

  -- `setExtensionType` keeps the three tables together, with an error or without.
  pub set_extension_type-IsValid :
      (ext typ : Bytes) (tb : Tables)
      → IsValid unicode_lower tb
      → Keeps (set_extension_type unicode_lower ext typ tb)
  set_extension_type-IsValid ext typ tb v =
      set_parsed-IsValid ext typ (parse_media_type unicode_lower typ) tb v
