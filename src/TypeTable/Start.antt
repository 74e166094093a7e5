-- ===== src/TypeTable/Start.antt =====
-- type.go and type_unix.go: the tables after `initMime`, and after calls of `AddExtensionType`.
use mime.Base.{
  ℕ, List, [], ◌∷◌, Bool, true, false, Option, none, some, if◌then◌else◌, ◌≡◌, ◌⊎◌, inl, inr, refl,
  ap, sym, subst, ◌∙◌, Bool-cases,
}
use mime.Base.Array.{bind-some}
use mime.Base.Bytes.{Bytes, codes, equal, equal_iff, equal_refl}
use mime.Base.Dict.{lookup, Has}
use mime.MediaType.Errors.{GoError}
use mime.MediaType.Parse.{Parsed, parse_media_type}
use mime.Runes.Strings.{to_lower}
use mime.TypeTable
use mime.TypeTable.{
  Tables, Types, Extensions, builtin_types_lower, or_no_list, member, clone, unless, invert_one,
  invert_onto, invert, set_mime_types, set_extension_type,
}
use mime.TypeTable.Invariant.{
  NoRepeats, Listed, IsValid, known, longer, longer-Listed, Listed-longer, longer-NoRepeats,
  member-Listed,
}

-- The keys are distinct, as those of a map are.
abbrev pub IsMap : Types → Type 0
IsMap [] = Unit
IsMap ((k, v) ∷ m) = (lookup k m ≡ none) × IsMap m

abbrev AllNoRepeats : Extensions → Type 0
AllNoRepeats exts = (j : Bytes) (s : List Bytes) → lookup j exts ≡ some s → NoRepeats s

-- The lists of a map that is inverted onto others.
record Inverts (m : Types) (m2 m3 : Extensions) : Type 0 where
  no_repeats : AllNoRepeats m3
  from_key : (x : Bytes) → Has x m ⊎ Listed x m2 → Listed x m3
  to_key : (x : Bytes) → Listed x m3 → Has x m ⊎ Listed x m2

Has-cases : (x k v : Bytes) (m : Types) → Has x ((k, v) ∷ m) → (x ≡ k) ⊎ Has x m
unfolding lookup
Has-cases x k v m (w, h) = elim (Bool-cases (equal k x)) [
  | inl e ↦ inl (sym ((equal_iff k x).0 e))
  | inr e ↦ inr (w, ap (λ b. if b then some v else lookup x m) (sym e) ∙ h)
]

Has-head : (k v : Bytes) (m : Types) → Has k ((k, v) ∷ m)
unfolding lookup
Has-head k v m = (v, rw (equal_refl k) refl)

Has-tail : (x k v : Bytes) (m : Types) → Has x m → Has x ((k, v) ∷ m)
unfolding lookup
Has-tail x k v m (w, h) = elim (Bool-cases (equal k x)) [
  | inl e ↦ (v, rw e refl)
  | inr e ↦ (w, rw e h)
]

absent : (x k : Bytes) (m : Types) → Has x m → x ≡ k → lookup k m ≡ none → ⊥
absent x k m (w, h) y f = cc

nil_some : (m2 m3 : Extensions) → ◌≡◌ {A = Option Extensions} (some m2) (some m3) → m2 ≡ m3
nil_some m2 m3 h = cc

no_key : (x : Bytes) → Has {V = Bytes} x [] → ⊥
unfolding lookup
no_key x (w, h) = cc

Inverts-nil : (m2 m3 : Extensions) → AllNoRepeats m2 → m2 ≡ m3 → Inverts [] m2 m3
Inverts-nil m2 m3 a q = subst (Inverts [] m2) q (record {
  no_repeats = a;
  from_key = λ x u. elim u [ inl h ↦ absurd (no_key x h) | inr l ↦ l ];
  to_key = λ x l. inr l;
})

no_list : (j : Bytes) → Has {V = List Bytes} j [] → ⊥
unfolding lookup
no_list j (s, h) = cc

tables-inj : {a b : Tables} → ◌≡◌ {A = Option Tables} (some a) (some b) → a ≡ b
tables-inj e = cc

if-some : (b : Bool) (a m2 : Types) → (if b then some a else none) ≡ some m2 → (b ≡ true) × (m2 ≡ a)
if-some true a m2 h = (refl, cc)
if-some false a m2 h = cc

module _ (unicode_lower : ℕ → ℕ) where
  unless-some :
      (e : Option GoError) (m2 m3 : Extensions) → unless unicode_lower e m2 ≡ some m3 → m3 ≡ m2
  unless-some (some e) m2 m3 h = cc
  unless-some none m2 m3 h = cc

  invert_one-longer :
      (k : Bytes) (o : Option Parsed) (m2 m3 : Extensions)
      → invert_one unicode_lower k o m2 ≡ some m3
      → (j : Bytes) × (m3 ≡ longer j k m2)
  unfolding invert_one
  invert_one-longer k none m2 m3 h = cc
  invert_one-longer k (some p) m2 m3 h = (p.media_type, unless-some p.error _ m3 h)

  invert_onto-Inverts :
      (m : Types) (m2 m3 : Extensions)
      → IsMap m
      → AllNoRepeats m2
      → ((x : Bytes) → Has x m → Listed x m2 → ⊥)
      → invert_onto unicode_lower m m2 ≡ some m3
      → Inverts m m2 m3
  unfolding invert_onto
  invert_onto-Inverts [] m2 m3 d a n h = Inverts-nil m2 m3 a (nil_some m2 m3 h)
  invert_onto-Inverts ((k, v) ∷ m) m2 m3 (f, d) a n h =
      let (m', e, rest) =
        bind-some (invert_one unicode_lower k (parse_media_type unicode_lower v) m2)
          (invert_onto unicode_lower m) h in
      let (j, q) = invert_one-longer k (parse_media_type unicode_lower v) m2 m' e in
      let new : member k (known j k m2) ≡ false = elim (Bool-cases (member k (known j k m2))) [
        | inl l ↦ absurd (n k (Has-head k v m) (member-Listed j k m2 l))
        | inr l ↦ l
      ] in
      let apart : (x : Bytes) → Has x m → Listed x (longer j k m2) → ⊥ = λ x u l.
        elim (Listed-longer j k m2 x l) [
          | inl y ↦ absent x k m u y f
          | inr l' ↦ n x (Has-tail x k v m u) l'
        ] in
      let ih =
        invert_onto-Inverts m (longer j k m2) m3 d (longer-NoRepeats j k m2 a new) apart
          (subst (λ t. invert_onto unicode_lower m t ≡ some m3) q rest) in
      record {
        no_repeats = ih.no_repeats;
        from_key = λ x u. ih.from_key x (elim u [
          | inl w ↦ elim (Has-cases x k v m w) [
            | inl y ↦ inr (longer-Listed j k m2 x (inl y))
            | inr w' ↦ inl w'
          ]
          | inr l ↦ inr (longer-Listed j k m2 x (inr l))
        ]);
        to_key = λ x l. elim (ih.to_key x l) [
          | inl w ↦ inl (Has-tail x k v m w)
          | inr l' ↦ elim (Listed-longer j k m2 x l') [
            | inl y ↦ inl (subst (λ t. Has t ((k, v) ∷ m)) (sym y) (Has-head k v m))
            | inr l'' ↦ inr l''
          ]
        ];
      }

  -- `clone` gives the map, and its keys are in lower case.
  clone_keys :
      (m m2 : Types)
      → clone unicode_lower m ≡ some m2
      → (m2 ≡ m) × ((x : Bytes) → Has x m → to_lower unicode_lower x ≡ x)
  unfolding clone
  clone_keys [] m2 h = (cc, λ x u. absurd (no_key x u))
  clone_keys ((k, v) ∷ m) m2 h =
      let (m', e, q) =
        bind-some (clone unicode_lower m)
          (λ m2. if equal (to_lower unicode_lower k) k then some ((k, v) ∷ m2) else none) h in
      let (same, low) = clone_keys m m' e in
      let (l, whole) = if-some (equal (to_lower unicode_lower k) k) ((k, v) ∷ m') m2 q in
      (
        whole ∙ ap (λ t. (k, v) ∷ t) same,
        λ x u. elim (Has-cases x k v m u) [
          | inl y ↦
              ap (to_lower unicode_lower) y ∙ (equal_iff (to_lower unicode_lower k) k).0 l ∙ sym y
          | inr w ↦ low x w
        ],
      )

  -- The tables that `setMimeTypes` makes of a map in lower case and one in any case go together.
  pub set_mime_types-IsValid :
      (lower mixed : Types) (tb : Tables)
      → IsMap lower
      → ((e : Bytes) → Has e mixed → Has (to_lower unicode_lower e) lower)
      → set_mime_types unicode_lower (some lower) (some mixed) ≡ some tb
      → IsValid unicode_lower tb
  unfolding set_mime_types invert
  set_mime_types-IsValid lower mixed tb d k h =
      let (exts, e, q) =
        bind-some (invert_onto unicode_lower lower [])
          (λ x. some (record { types = mixed; types_lower = lower; extensions = x })) h in
      let i =
        invert_onto-Inverts lower [] exts d (λ j s l. absurd (no_list j (s, l)))
          (λ x u l. no_list l.just_type (l.list, l.there)) e in
      subst (IsValid unicode_lower) (tables-inj q) (record {
        no_repeats = i.no_repeats;
        listed = λ x u. i.from_key x (inl u);
        typed = λ x l. elim (i.to_key x l) [
          | inl u ↦ u
          | inr l' ↦ absurd (no_list l'.just_type (l'.list, l'.there))
        ];
        lowered = k;
      })

  -- the tables for the built-in types
  abbrev pub builtin : Tables
  builtin = record {
    types = builtin_types_lower;
    types_lower = builtin_types_lower;
    extensions =
        (codes "text/css", codes ".css" ∷ [])
        ∷ (codes "image/gif", codes ".gif" ∷ [])
        ∷ (codes "text/html", codes ".htm" ∷ codes ".html" ∷ [])
        ∷ (codes "image/jpeg", codes ".jpg" ∷ [])
        ∷ (codes "application/x-javascript", codes ".js" ∷ [])
        ∷ (codes "application/pdf", codes ".pdf" ∷ [])
        ∷ (codes "image/png", codes ".png" ∷ [])
        ∷ (codes "image/svg+xml", codes ".svg" ∷ [])
        ∷ (codes "text/xml", codes ".xml" ∷ [])
        ∷ [];
  }

  pub clone_builtin : clone unicode_lower builtin_types_lower ≡ some builtin_types_lower
  unfolding TypeTable.computes
  clone_builtin = refl

  pub set_builtin :
      set_mime_types unicode_lower (some builtin_types_lower) (some builtin_types_lower)
      ≡ some builtin
  unfolding TypeTable.computes
  set_builtin = refl

  builtin-IsMap : IsMap builtin_types_lower
  unfolding TypeTable.computes
  builtin-IsMap = (refl, (refl, (refl, (refl, (refl, (refl, (refl, (refl, (refl, (refl, tt))))))))))

  pub builtin-IsValid : IsValid unicode_lower builtin
  builtin-IsValid =
      let (same, low) = clone_keys builtin_types_lower builtin_types_lower clone_builtin in
      set_mime_types-IsValid builtin_types_lower builtin_types_lower builtin builtin-IsMap
        (λ e u. subst (λ x. Has x builtin_types_lower) (sym (low e u)) u) set_builtin
