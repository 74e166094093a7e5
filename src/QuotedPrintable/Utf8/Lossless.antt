-- ===== src/QuotedPrintable/Utf8/Lossless.antt =====
-- What the specification of qputf8.go keeps of a text.
use mime.Base.{
  ℕ, [], ◌∷◌, ◌++◌, Bool, true, false, not, ◌&&◌, ◌||◌, ◌==◌, if◌then◌else◌, ◌≡◌, refl, ap, sym,
  ◌∙◌, arith, append_assoc, append-nil, Bool-cases, inl, inr, ◌⊎◌,
}
use mime.Base.Bytes.{Bytes}
use mime.QuotedPrintable.Utf8.Spec.{
  Held, idle, sequence, return, newline, mended, text, next, next_all, is_continuation,
}

-- the text without its line ends
unfoldable pub no_breaks : Bytes → Bytes
no_breaks [] = []
no_breaks (b ∷ s) = if b == 0x0D || b == 0x0A then no_breaks s else b ∷ no_breaks s

no_breaks-append : (s t : Bytes) → no_breaks (s ++ t) ≡ no_breaks s ++ no_breaks t
unfolding no_breaks
no_breaks-append [] t = refl
no_breaks-append (b ∷ s) t = ground (arith, no_breaks-append s t)

-- A line break is held behind a sequence, never anything else.
abbrev pub Breaks : Held → Type 0
Breaks idle = Unit
Breaks (sequence s) = Unit
Breaks (return s) = Unit
Breaks (newline s k) = no_breaks k ≡ []
Breaks (mended s) = Unit

next-Breaks : (h : Held) (b : ℕ) → Breaks h → Breaks (next h b).1
unfolding next no_breaks
next-Breaks idle b k = ground arith
next-Breaks (sequence s) b k = ground arith
next-Breaks (return s) b k = ground arith
next-Breaks (newline s j) b k = ground arith
next-Breaks (mended s) b k = ground arith

-- the step that leaves a line break out
unfoldable pub mends : Held → ℕ → Bool
mends (newline s k) b = is_continuation b
mends _ b = false

-- Every other step keeps all bytes, in their order.
next-exact :
    (h : Held) (b : ℕ) → mends h b ≡ false → (next h b).0 ++ text (next h b).1 ≡ text h ++ b ∷ []
unfolding next mends
next-exact idle b e = ground arith
next-exact (sequence s) b e = ground (arith, append-nil (s ++ b ∷ []))
next-exact (return s) b e =
    ground (arith, append_assoc s (0x0D ∷ []) (b ∷ []), append-nil (s ++ 0x0D ∷ b ∷ []))
next-exact (newline s k) b e = ground (arith, append-nil ((s ++ k) ++ b ∷ []))
next-exact (mended s) b e = ground (arith, append-nil (s ++ b ∷ []))

next_mends :
    (s k : Bytes) (b : ℕ)
    → is_continuation b ≡ true
    → next (newline s k) b ≡ ([], mended (s ++ b ∷ []))
unfolding next
next_mends s k b e = ground arith

next-no_breaks :
    (h : Held) (b : ℕ)
    → Breaks h
    → no_breaks ((next h b).0 ++ text (next h b).1) ≡ no_breaks (text h ++ b ∷ [])
unfolding mends no_breaks
next-no_breaks (newline s k) b h = elim (Bool-cases (is_continuation b)) [
  | inl e ↦ rw (next_mends s k b e) (simp (no_breaks-append, h, append-nil))
  | inr e ↦ ap no_breaks (next-exact (newline s k) b e)
]
next-no_breaks idle b h = ap no_breaks (next-exact idle b refl)
next-no_breaks (sequence s) b h = ap no_breaks (next-exact (sequence s) b refl)
next-no_breaks (return s) b h = ap no_breaks (next-exact (return s) b refl)
next-no_breaks (mended s) b h = ap no_breaks (next-exact (mended s) b refl)

-- Regrouping: what a step and the ones behind it give.
regroup :
    (f : Bytes → Bytes) (p o o' t held b bs : Bytes)
    → ((x y : Bytes) → f (x ++ y) ≡ f x ++ f y)
    → f (o' ++ t) ≡ f (held ++ bs)
    → f (o ++ held) ≡ f (p ++ b)
    → f ((o ++ o') ++ t) ≡ f (p ++ (b ++ bs))
regroup f p o o' t held b bs add later now =
    ap f (append_assoc o o' t)
    ∙ add o (o' ++ t)
    ∙ ap (λ z. f o ++ z) later
    ∙ sym (add o (held ++ bs))
    ∙ ap f (sym (append_assoc o held bs))
    ∙ add (o ++ held) bs
    ∙ ap (λ z. z ++ f bs) now
    ∙ sym (add (p ++ b) bs)
    ∙ ap f (append_assoc p b bs)

-- Whatever is held, and whatever comes: nothing but line ends is left out, and the order stays.
pub next_all-no_breaks :
    (h : Held) (bs : Bytes)
    → Breaks h
    → no_breaks ((next_all h bs).0 ++ text (next_all h bs).1) ≡ no_breaks (text h ++ bs)
unfolding next_all
next_all-no_breaks h [] k = rw (append-nil (text h)) refl
next_all-no_breaks h (b ∷ bs) k =
    let (o, h') = next h b in
    let (o', h'') = next_all h' bs in
    regroup no_breaks (text h) o o' (text h'') (text h') (b ∷ []) bs no_breaks-append
      (next_all-no_breaks h' bs (next-Breaks h b k)) (next-no_breaks h b k)

-- No line feed is followed by a continuation byte; the flag says that one stands in front.
unfoldable pub intact : Bool → Bytes → Bool
intact after [] = true
intact after (b ∷ bs) = not (after && is_continuation b) && intact (b == 0x0A) bs

-- a line feed is the last byte that came in
abbrev pub at_newline : Held → Bool
at_newline (newline s k) = true
at_newline _ = false

mends_lem :
    (h : Held) (b : ℕ) (after : Bool) (bs : Bytes)
    → intact after (b ∷ bs) ≡ true
    → (after ≡ true) ⊎ (at_newline h ≡ false)
    → mends h b ≡ false
unfolding mends intact
mends_lem (newline s k) b after bs e i = ground arith
mends_lem idle b after bs e i = refl
mends_lem (sequence s) b after bs e i = refl
mends_lem (return s) b after bs e i = refl
mends_lem (mended s) b after bs e i = refl

at_newline-next : (h : Held) (b : ℕ) → ((b == 0x0A) ≡ true) ⊎ (at_newline (next h b).1 ≡ false)
unfolding next
at_newline-next idle b = ground arith
at_newline-next (sequence s) b = ground arith
at_newline-next (return s) b = ground arith
at_newline-next (newline s k) b = ground arith
at_newline-next (mended s) b = ground arith

-- A text in which no line feed is followed by a continuation byte is given as it is, up to what is
-- still held.
pub next_all-exact :
    (h : Held) (after : Bool) (bs : Bytes)
    → (after ≡ true) ⊎ (at_newline h ≡ false)
    → intact after bs ≡ true
    → (next_all h bs).0 ++ text (next_all h bs).1 ≡ text h ++ bs
unfolding next_all
next_all-exact h after [] i e = sym (append-nil (text h))
next_all-exact h after (b ∷ bs) i e =
    let (o, h') = next h b in
    let (o', h'') = next_all h' bs in
    regroup (λ x. x) (text h) o o' (text h'') (text h') (b ∷ []) bs (λ x y. refl)
      (next_all-exact h' (b == 0x0A) bs (at_newline-next h b) (unfold intact in ground arith))
      (next-exact h b (mends_lem h b after bs e i))
