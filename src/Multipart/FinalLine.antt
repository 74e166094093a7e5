-- ===== src/Multipart/FinalLine.antt =====
-- multipart/multipart.go: the lines that `isFinalBoundary` accepts.
use mime.Base.{
  ℕ, [], ◌∷◌, ◌++◌, Bool, true, false, ◌&&◌, ◌||◌, ==_iff, ◌==◌, drop, length, ◌≡◌, ◌⊎◌, ◌↔◌, refl,
  ap, sym, ◌∙◌, inl, inr, All, Bool-cases, drop-append,
}
use mime.Base.Bytes.{Bytes, equal, equal_iff, has_prefix, has_prefix-append}
use mime.Multipart.Lines.{Marks, is_empty, skip_lwsp_char, is_final_boundary}

abbrev pub IsBlank : ℕ → Type 0
IsBlank b = (b == b' ' || b == b'\t') ≡ true

and_both : (x y : Bool) → (x && y) ≡ true → (x ≡ true) × (y ≡ true)
and_both true y h = (refl, h)
and_both false y h = cc

has_prefix-split : (s p : Bytes) → has_prefix s p ≡ true → s ≡ p ++ drop (length p) s
unfolding has_prefix
has_prefix-split s [] h = refl
has_prefix-split [] (c ∷ p) h = cc
has_prefix-split (b ∷ s) (c ∷ p) h =
    let (x, y) = and_both (b == c) (has_prefix s p) h in
    ap (λ t. t ∷ s) ((==_iff b c).0 x) ∙ ap (λ t. c ∷ t) (has_prefix-split s p y)

-- The blanks in front of a text, and what `skipLWSPChar` leaves.
record Skipped (s : Bytes) : Type 0 where
  blanks : Bytes
  all_blank : All IsBlank blanks
  same : s ≡ blanks ++ skip_lwsp_char s

skip_lwsp_char-Skipped : (s : Bytes) → Skipped s
unfolding skip_lwsp_char
skip_lwsp_char-Skipped [] = record { blanks = []; all_blank = tt; same = refl }
skip_lwsp_char-Skipped (b ∷ s) = elim (Bool-cases (b == b' ' || b == b'\t')) [
  | inl h ↦
      let k = skip_lwsp_char-Skipped s in
      record {
        blanks = b ∷ k.blanks;
        all_blank = (h, k.all_blank);
        same = rw (skip_lwsp_char, h) (ap (λ t. b ∷ t) k.same);
      }
  | inr h ↦ record { blanks = []; all_blank = tt; same = rw (skip_lwsp_char, h) refl }
]

skip_blanks :
    (blanks s : Bytes) → All IsBlank blanks → skip_lwsp_char (blanks ++ s) ≡ skip_lwsp_char s
unfolding skip_lwsp_char
skip_blanks [] s h = refl
skip_blanks (b ∷ blanks) s (h, k) = rw (skip_lwsp_char, h) (skip_blanks blanks s k)

rest_cases : (rest nl : Bytes) → (is_empty rest || equal rest nl) ≡ true → (rest ≡ []) ⊎ (rest ≡ nl)
rest_cases [] nl h = inl refl
rest_cases (b ∷ rest) nl h = inr ((equal_iff (b ∷ rest) nl).0 h)

-- What a line is where it closes the message.
abbrev pub IsFinal : Marks → Bytes → Type 0
IsFinal mr line =
    (blanks : Bytes) × (rest : Bytes) × (line ≡ mr.dash_boundary_dash ++ (blanks ++ rest))
    × All IsBlank blanks
    × ((rest ≡ []) ⊎ (rest ≡ mr.nl))

-- what `isFinalBoundary` says of the text behind the blanks
abbrev final_rest : Marks → Bytes → Bool
final_rest mr line =
    let rest = skip_lwsp_char (drop (length mr.dash_boundary_dash) line) in
    is_empty rest || equal rest mr.nl

final_when :
    (mr : Marks) (line : Bytes)
    → has_prefix line mr.dash_boundary_dash ≡ true
    → is_final_boundary mr line ≡ final_rest mr line
unfolding is_final_boundary
final_when mr line e = rw (is_final_boundary, e) refl

final_unless :
    (mr : Marks) (line : Bytes)
    → has_prefix line mr.dash_boundary_dash ≡ false
    → is_final_boundary mr line ≡ false
unfolding is_final_boundary
final_unless mr line e = rw (is_final_boundary, e) refl

line-IsFinal : (mr : Marks) (line : Bytes) → is_final_boundary mr line ≡ true → IsFinal mr line
line-IsFinal mr line h = elim (Bool-cases (has_prefix line mr.dash_boundary_dash)) [
  | inl e ↦
      let after = drop (length mr.dash_boundary_dash) line in
      let k = skip_lwsp_char-Skipped after in
      (
        k.blanks,
        skip_lwsp_char after,
        has_prefix-split line mr.dash_boundary_dash e ∙ ap (λ t. mr.dash_boundary_dash ++ t) k.same,
        k.all_blank,
        rest_cases (skip_lwsp_char after) mr.nl (sym (final_when mr line e) ∙ h),
      )
  | inr e ↦ cc (final_unless mr line e)
]

rest_final : (rest nl : Bytes) → (rest ≡ []) ⊎ (rest ≡ nl) → (is_empty rest || equal rest nl) ≡ true
rest_final [] nl h = refl
rest_final (b ∷ rest) nl (inl h) = cc
rest_final (b ∷ rest) nl (inr h) = (equal_iff (b ∷ rest) nl).1 h

skipped :
    (rest nl : Bytes)
    → skip_lwsp_char nl ≡ nl
    → (rest ≡ []) ⊎ (rest ≡ nl)
    → skip_lwsp_char rest ≡ rest
skipped rest nl n (inl e) = rw e (unfold skip_lwsp_char in refl)
skipped rest nl n (inr e) = rw e n

IsFinal-line :
    (mr : Marks) (line : Bytes)
    → skip_lwsp_char mr.nl ≡ mr.nl
    → IsFinal mr line
    → is_final_boundary mr line ≡ true
IsFinal-line mr line n (blanks, rest, e, b, r) =
    let p = mr.dash_boundary_dash in
    let left =
      ap (λ t. skip_lwsp_char (drop (length p) t)) e
      ∙ ap skip_lwsp_char (drop-append p (blanks ++ rest))
      ∙ skip_blanks blanks rest b
      ∙ skipped rest mr.nl n r in
    final_when mr line (ap (λ t. has_prefix t p) e ∙ has_prefix-append p (blanks ++ rest))
    ∙ ap (λ t. is_empty t || equal t mr.nl) left
    ∙ rest_final rest mr.nl r

-- Where the line end does not begin with a blank: `isFinalBoundary` accepts exactly the lines of the
-- boundary with both its pairs of dashes, then blanks, and then nothing or the line end.
pub is_final_boundary_iff :
    (mr : Marks) (line : Bytes)
    → skip_lwsp_char mr.nl ≡ mr.nl
    → (is_final_boundary mr line ≡ true) ↔ IsFinal mr line
is_final_boundary_iff mr line n = (line-IsFinal mr line, IsFinal-line mr line n)
