-- ===== src/QuotedPrintable/Flushes.antt =====
-- How a call that flushes the line of the quoted-printable writer ends: the sink refuses it or not.
use mime.Base.{
  ℕ, List, [], ◌∷◌, ◌++◌, none, some, Option, ◌≡◌, ◌⊎◌, inl, inr, refl, append_assoc, Option-cases,
  arith,
}
use mime.Base.Bytes.{Bytes}
use mime.QuotedPrintable.Writer.{
  Writer, Sink, split_last, append, flush, insert_crlf, insert_soft_line_break,
}

abbrev pub crlf : Bytes
crlf = b'\r' ∷ b'\n' ∷ []

abbrev pub soft : Bytes
soft = b'=' ∷ b'\r' ∷ b'\n' ∷ []

-- the writer after `bs` has been put into the line, and after the line has been accepted then
abbrev pub held : Writer → Bytes → Writer
held w bs = record w { line = w.line ++ bs }

abbrev pub sent : Writer → Bytes → Writer
sent w bs = record w { line = []; out = w.out ++ (w.line ++ bs) ∷ [] }

-- The sink refuses some call with the error `e`.
abbrev pub Refuses : Sink → ℕ → Type 0
Refuses sink e = (out : List Bytes) × (chunk : Bytes) × (sink out chunk ≡ some e)

abbrev pub Flushes : Sink → Writer × Option ℕ → Writer → Bytes → Type 0
Flushes sink r w bs =
    ((e : ℕ) × (r ≡ (held w bs, some e)) × Refuses sink e) ⊎ (r ≡ (sent w bs, none))

module _ (sink : Sink) where
  flush-held : (w : Writer) (bs : Bytes) → Flushes sink (flush sink (held w bs)) w bs
  unfolding flush
  flush-held w bs = elim (Option-cases (sink w.out (w.line ++ bs))) [
    | inl e ↦ inr (rw (e, flush))
    | inr (x, e) ↦ inl (x, rw (e, flush), (w.out, w.line ++ bs, e))
  ]

  pub flush_cases :
      (w : Writer)
      → ((e : ℕ) × (flush sink w ≡ (w, some e)) × Refuses sink e)
        ⊎ (flush sink w ≡ (record w { line = []; out = w.out ++ w.line ∷ [] }, none))
  unfolding flush
  flush_cases w = elim (Option-cases (sink w.out w.line)) [
    | inl e ↦ inr (rw (e, flush))
    | inr (x, e) ↦ inl (x, rw (e, flush), (w.out, w.line, e))
  ]

  pub insert_crlf_cases : (w : Writer) → Flushes sink (insert_crlf sink w) w crlf
  unfolding insert_crlf append
  insert_crlf_cases w = flush-held w crlf

  pub insert_soft_cases : (w : Writer) → Flushes sink (insert_soft_line_break sink w) w soft
  unfolding insert_soft_line_break insert_crlf append
  insert_soft_cases w =
      rw (← append_assoc w.line (b'=' ∷ []) crlf) (flush-held (held w (b'=' ∷ [])) crlf)

pub split_last-none : (l : Bytes) → split_last l ≡ none → l ≡ []
split_last-none [] h = refl
split_last-none (b ∷ l) h = ground arith

pub split_last-some :
    (l : Bytes) {front : Bytes} {b : ℕ} → split_last l ≡ some (front, b) → l ≡ front ++ b ∷ []
split_last-some [] h = cc
split_last-some (c ∷ l) {front} {b} h = elim (Option-cases (split_last l)) [
  | inl e ↦ cc (split_last-none l e, rw e at h)
  | inr ((f, d), e) ↦
      let same : ◌≡◌ {A = Option (Bytes × ℕ)} (some (c ∷ f, d)) (some (front, b)) = rw e at h in
      let rest = split_last-some l e in cc
]
