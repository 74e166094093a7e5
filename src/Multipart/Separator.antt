-- ===== src/Multipart/Separator.antt =====
-- multipart/multipart.go: where `partReader.Read` sees the separator, and how much it copies.
use mime.Base.{
  ℕ, suc, ◌+◌, ◌-◌, ◌<◌, ◌≤◌, [], ◌∷◌, ◌++◌, Bool, true, false, not, ◌&&◌, some, ltb, ◌==◌,
  if◌then◌else◌, take, drop, length, ◌≡◌, ◌≢◌, refl, ap, sym, subst, ◌∙◌, inl, inr, arith,
  Bool-cases, length-append, length-drop, ltb→lt, ltb-false→le,
}
use mime.Base.Bytes.{Bytes, index}
use mime.Multipart.Bufio.{buffer_size}
use mime.Multipart.Lines.{Marks, is_end, peek_buffer_separator_index}
use mime.Multipart.Reader.{copy_count}
use mime.Multipart.Search.{
  seen, not_seen, found_later, length-take_full, drop-take, drop-append_within,
}

-- What is still to come of a part: its content, the separator, and a line that ends it within the
-- window.
pub record Ahead (mr : Marks) (content after : Bytes) : Type 0 where
  pub not_empty : mr.nl_dash_boundary ≢ []
  pub found :
      index (content ++ (mr.nl_dash_boundary ++ after)) mr.nl_dash_boundary ≡ some (length content)
  pub fits : length mr.nl_dash_boundary < buffer_size
  pub ends : is_end (take (buffer_size - length mr.nl_dash_boundary) after) ≡ true

-- How much is copied: nothing exactly at the separator, which is seen then; else something, and no
-- more than the content.
abbrev pub Copies : Bytes → ℕ × Bool → Type 0
Copies [] (n, found) = (n ≡ 0) × (found ≡ true)
Copies (b ∷ content) (n, found) = (1 ≤ n) × (n ≤ length (b ∷ content))

-- What stands behind the separator in the window.
window_after :
    (p s : Bytes)
    → length p ≤ buffer_size
    → drop (0 + length p) (take buffer_size (p ++ s)) ≡ take (buffer_size - length p) s
window_after p s l =
    subst (λ n. drop n (take buffer_size (p ++ s)) ≡ take (buffer_size - length p) s) (omega arith)
      (drop-take buffer_size p s l)

Copies-some :
    (ends : Bool) (n : ℕ)
    → (1 ≤ (if not ends && suc n == 0 then 1 else suc n))
      × ((if not ends && suc n == 0 then 1 else suc n) ≤ suc n)
Copies-some true n = (omega arith, omega arith)
Copies-some false n = (ground arith, ground arith)

module _ (mr : Marks) (after : Bytes) where
  abbrev separator : Bytes
  separator = mr.nl_dash_boundary

  copy_seen :
      (content : Bytes)
      → Ahead mr content after
      → length content + length separator ≤ buffer_size
      → (no_more : Bool)
      → Copies content (copy_count mr (take buffer_size (content ++ (separator ++ after))) no_more)
  unfolding copy_count peek_buffer_separator_index
  copy_seen [] a l no_more =
      let ends = ap is_end (window_after separator after (omega (arith, l))) ∙ a.ends in
      rw (seen buffer_size 0 (separator ++ after) separator a.not_empty a.found l, copy_count)
        (rw ends (refl, refl))
  copy_seen (b ∷ content) a l no_more =
      rw
        (
          seen buffer_size (suc (length content)) (b ∷ content ++ (separator ++ after)) separator
              a.not_empty a.found l,
          copy_count,
        )
        (Copies-some
          (is_end (
            drop (suc (length content) + length separator)
              (take buffer_size (b ∷ content ++ (separator ++ after)))))
          (length content))

  copy_hidden :
      (content : Bytes)
      → Ahead mr content after
      → buffer_size < length content + length separator
      → (no_more : Bool) → no_more ≡ ltb (length (content ++ (separator ++ after))) buffer_size
      → Copies content (copy_count mr (take buffer_size (content ++ (separator ++ after))) no_more)
  unfolding copy_count peek_buffer_separator_index
  copy_hidden [] a l no_more e = absurd (omega (arith, a.fits))
  copy_hidden (b ∷ content) a l true e =
      let short = ltb→lt (length (b ∷ content ++ (separator ++ after))) buffer_size (sym e) in
      absurd (
        omega (
          arith,
          short,
          length-append (b ∷ content) (separator ++ after),
          length-append separator after,
        ))
  copy_hidden (b ∷ content) a l false e =
      rw
        (
          not_seen buffer_size (suc (length content)) (b ∷ content ++ (separator ++ after))
              separator a.not_empty a.found l,
          copy_count,
          length-take_full 4095 (content ++ (separator ++ after)) (
              omega (
                arith,
                l,
                length-append content (separator ++ after),
                length-append separator after,
              )),
        )
        (omega (arith, l, a.fits), omega (arith, l))

  pub copy_count-Copies :
      (content : Bytes)
      → Ahead mr content after
      → (no_more : Bool) → no_more ≡ ltb (length (content ++ (separator ++ after))) buffer_size
      → Copies content (copy_count mr (take buffer_size (content ++ (separator ++ after))) no_more)
  copy_count-Copies content a no_more e =
      elim (Bool-cases (ltb buffer_size (length content + length separator))) [
        | inl h ↦
            copy_hidden content a (ltb→lt buffer_size (length content + length separator) h) no_more
              e
        | inr h ↦
            copy_seen content a (ltb-false→le buffer_size (length content + length separator) h)
              no_more
      ]

  -- What is still to come after a copy.
  pub Ahead-drop :
      (n : ℕ) (content : Bytes)
      → Ahead mr content after
      → n ≤ length content
      → Ahead mr (drop n content) after
  Ahead-drop n content a l = record {
    not_empty = a.not_empty;
    found =
        subst (λ s. index s mr.nl_dash_boundary ≡ some (length (drop n content)))
          (drop-append_within n content (mr.nl_dash_boundary ++ after) l)
          (found_later n (length content) (content ++ (mr.nl_dash_boundary ++ after))
              mr.nl_dash_boundary a.not_empty a.found l
            ∙ ap some (sym (length-drop n content)));
    fits = a.fits;
    ends = a.ends;
  }
