-- ===== src/EncodedWord/HeaderFuel.antt =====
-- The loop of `DecodeHeader` ends: each round leaves a shorter header.
use mime.Base.{
  ℕ, suc, zero, ◌≤◌, ◌+◌, [], ◌∷◌, some, none, true, false, Bool, Option-cases, Option, ◌≡◌, ◌⊎◌,
  subst, sym, ◌∙◌, refl, inl, inr, arith, ◌==◌, ltb, length, drop, length-drop, get_elem?, not,
  ◌||◌, if◌then◌else◌,
}
use mime.Base.Bytes.{Bytes, codes, has_prefix, index}
use mime.Base.Result.{Result, ok, err}
use mime.EncodedWord.Decode.{CharsetReader, decode, convert}
use mime.EncodedWord.Header.{Found, find_text, find_word, header_loop}
use mime.EncodedWord.QEncoding.{WordError}

-- The word that was found is not empty.
abbrev Ends : Option Found → Type 0
Ends none = Unit
Ends (some f) = 1 ≤ f.stop

-- where the text of a word ends
abbrev closing : Bytes → ℕ → ℕ → Option ℕ
closing header cur mark =
    if ltb (length header) (cur + 4) || not (mark == b'?')
    then none
    else index (drop (cur + 2) header) (codes "?=")

find_text-Ends :
    (header : Bytes) (start : ℕ) (charset : Bytes) (cur : ℕ)
    → Ends (find_text header start charset cur)
unfolding find_text
find_text-Ends header start charset cur = elim (Option-cases (get_elem? header cur)) [
  | inl n ↦ rw (n, find_text) tt
  | inr (encoding, e) ↦ elim (Option-cases (get_elem? header (cur + 1))) [
    | inl n ↦ rw (e, find_text, n) tt
    | inr (mark, f) ↦ elim (Option-cases (closing header cur mark)) [
      | inl n ↦ rw (e, find_text, f, n) tt
      | inr (j, g) ↦ rw (e, find_text, f, g) (omega arith)
    ]
  ]
]

find_word-Ends : (header : Bytes) → Ends (find_word header)
unfolding find_word
find_word-Ends header = elim (Option-cases (index header (codes "=?"))) [
  | inl n ↦ rw (n, find_word) tt
  | inr (start, e) ↦ elim (Option-cases (index (drop (start + 2) header) (codes "?"))) [
    | inl n ↦ rw (e, find_word, n) tt
    | inr (i, f) ↦ rw (e, find_word, f) (find_text-Ends header start _ _)
  ]
]

stop_positive : (header : Bytes) (f : Found) → find_word header ≡ some f → 1 ≤ f.stop
stop_positive header f e = subst Ends e (find_word-Ends header)

Result-cases :
    (r : Result WordError Bytes) → ((a : Bytes) × (r ≡ ok a)) ⊎ ((x : WordError) × (r ≡ err x))
Result-cases (ok a) = inl (a, refl)
Result-cases (err x) = inr (x, refl)

module _ (unicode_lower : ℕ → ℕ) (reader : CharsetReader) where
  header_loop-nil :
      (fuel : ℕ) (between : Bool) → header_loop unicode_lower reader fuel between [] ≡ ok []
  unfolding header_loop find_word index has_prefix
  header_loop-nil zero between = refl
  header_loop-nil (suc fuel) between = refl

  -- The loop of `DecodeHeader` ends by itself: with any two amounts of fuel that the length of the
  -- header does not exceed, it gives the same result.
  pub header_loop_enough :
      (fuel more : ℕ) (between : Bool) (header : Bytes)
      → length header ≤ fuel
      → length header ≤ more
      → header_loop unicode_lower reader fuel between header
        ≡ header_loop unicode_lower reader more between header
  unfolding header_loop
  header_loop_enough fuel more between [] l m =
      header_loop-nil fuel between ∙ sym (header_loop-nil more between)
  header_loop_enough zero more between (b ∷ h) l m = absurd (omega arith)
  header_loop_enough (suc fuel) zero between (b ∷ h) l m = absurd (omega arith)
  header_loop_enough (suc fuel) (suc more) between (b ∷ h) l m =
      elim (Option-cases (find_word (b ∷ h))) [
        | inl n ↦ rw (n, header_loop) refl
        | inr (f, e) ↦ elim (Result-cases (decode f.encoding f.text)) [
          | inl (content, d) ↦
              elim (Result-cases (convert unicode_lower reader f.charset content)) [
                | inl (converted, c) ↦
                    rw
                      (
                        e,
                        header_loop,
                        d,
                        c,
                        header_loop_enough fuel more true (drop f.stop (b ∷ h))
                            (omega (arith, length-drop f.stop (b ∷ h), stop_positive (b ∷ h) f e))
                            (omega (arith, length-drop f.stop (b ∷ h), stop_positive (b ∷ h) f e)),
                      )
                      refl
                | inr (x, c) ↦ rw (e, header_loop, d, c) refl
              ]
          | inr (x, d) ↦
              rw
                (
                  e,
                  header_loop,
                  d,
                  header_loop_enough fuel more false (drop (f.start + 2) (b ∷ h))
                      (omega (arith, length-drop (f.start + 2) (b ∷ h)))
                      (omega (arith, length-drop (f.start + 2) (b ∷ h))),
                )
                refl
        ]
      ]
