-- ===== src/QuotedPrintable/Utf8/Rounds.antt =====
-- Each round of `cycle` implements a step of the specification.
use mime.Base.Array.{store-Stored}
use mime.Base.{
  ℕ, zero, suc, ◌+◌, ◌<◌, ◌≤◌, [], ◌∷◌, ◌++◌, Bool, true, not, ◌||◌, some, leb, ◌==◌, take, length,
  ◌≡◌, refl, ap, sym, ◌∙◌, subst, arith, append_assoc, length-append, Bool-cases, lt→ltb, ==_iff,
  inl, inr,
}
use mime.Base.Bytes.{Bytes}
use mime.QuotedPrintable.Utf8.Refines.{
  Holds, Rel, Gives, put_room, keep-Gives, hold-Gives, flush-Gives, lead-Gives,
}
use mime.QuotedPrintable.Utf8.Spec.{
  Held, idle, sequence, return, newline, mended, text, next, next_all,
}
use mime.QuotedPrintable.Utf8.{
  start, cr, lf, continued, QpUtf8, on_start, on_normal, on_cr, on_lf, on_continued, settled, round,
  cycle, c0mask,
}

take_front : (m : ℕ) (own s k : Bytes) → take m own ≡ s ++ k → take (length s) own ≡ s
take_front m own [] k h = refl
take_front zero own (b ∷ s) k h = cc
take_front (suc m) [] (b ∷ s) k h = cc
take_front (suc m) (x ∷ own) (b ∷ s) k h = ground (arith, take_front m own s k)

module _ (max : ℕ) (out : Bytes) where
  normal-Gives :
      (q : QpUtf8) (b : ℕ)
      → Rel q idle
      → length out + 1 < max
      → Gives out (next idle b) (on_normal max q out b)
  unfolding on_normal next
  normal-Gives q b (e, h) l = elim (Bool-cases (c0mask b == 0xC0)) [
    | inl k ↦
        let w = store-Stored q.own 0 b (omega (arith, h.six)) in
        rw (k, w.stores)
          (keep-Gives max out (record q { state = start; own = w.after; pco = 1 })
            (sequence (b ∷ []))
            (
              refl,
              record { six = w.keeps ∙ h.six; fresh = h.fresh; counted = refl; front = w.front },
              omega arith,
            ))
    | inr k ↦
        rw (k, put_room max out b (omega arith))
          (
            q,
            rw (lt→ltb (length (out ++ b ∷ [])) max (omega (arith, length-append out (b ∷ []))))
                refl,
            (e, h),
          )
  ]

  start-Gives :
      (q : QpUtf8) (s : Bytes) (b : ℕ)
      → Rel q (sequence s)
      → length out + length s + 1 < max
      → Gives out (next (sequence s) b) (settled max (on_start q b) out)
  unfolding on_start next
  start-Gives q s b (e, h, short) l = elim (Bool-cases (c0mask b == 0xC0)) [
    | inl lead ↦ rw lead (lead-Gives max out q s b h l)
    | inr k ↦ elim (Bool-cases (b == 0x0D)) [
      | inl c ↦
          rw (k, c)
            (hold-Gives max out here s b cr (return s) at_here (omega arith) (λ q'. refl)
              (λ own now. (
                refl,
                subst
                    (λ x.
                      Holds (record here { own = own; pco = q.pco + 1; state = cr }) (s ++ x ∷ []))
                    ((==_iff b 0x0D).0 c) now,
                h.counted,
                short,
              )))
      | inr c ↦ elim (Bool-cases (b == 0x0A)) [
        | inl n ↦
            rw (k, c, n)
              (hold-Gives max out here s b lf (newline s (b ∷ [])) at_here (omega arith)
                (λ q'. refl) (λ own now. (refl, now, h.counted, short, omega arith)))
        | inr n ↦ elim (Bool-cases (not (c0mask b == 0x80) || leb 4 (length s + 1))) [
          | inl t ↦ rw (k, c, n, same t, t) (flush-Gives max out q s b h (omega arith) l)
          | inr t ↦
              rw (k, c, n, same t, t)
                (hold-Gives max out q s b start (sequence (s ++ b ∷ [])) h (omega arith)
                  (λ q'. refl) (λ own now. (refl, now, ground (arith, length-append s (b ∷ [])))))
        ]
      ]
    ]
  ]
    where
      here : QpUtf8
      here = record q { pos = q.pco }

      at_here : Holds here s
      at_here = record { six = h.six; fresh = h.fresh; counted = h.counted; front = h.front }

      same :
          {v : Bool}
          → (not (c0mask b == 0x80) || leb 4 (length s + 1)) ≡ v
          → (not (c0mask b == 0x80) || leb 4 (q.pco + 1)) ≡ v
      same t = ap (λ n. not (c0mask b == 0x80) || leb 4 (n + 1)) h.counted ∙ t

  cr-Gives :
      (q : QpUtf8) (s : Bytes) (b : ℕ)
      → Rel q (return s)
      → length out + length (s ++ 0x0D ∷ []) + 1 < max
      → Gives out (next (return s) b) (settled max (on_cr q b) out)
  unfolding on_cr next
  cr-Gives q s b (e, h, p, short) l = elim (Bool-cases (c0mask b == 0xC0)) [
    | inl lead ↦ rw lead (lead-Gives max out q (s ++ 0x0D ∷ []) b h l)
    | inr k ↦ elim (Bool-cases (b == 0x0A)) [
      | inl n ↦
          rw (k, n)
            (hold-Gives max out q (s ++ 0x0D ∷ []) b lf (newline s (0x0D ∷ 0x0A ∷ [])) h five
              (λ q'. refl)
              (λ own now. (
                refl,
                subst (λ z. Holds (record q { own = own; pco = q.pco + 1; state = lf }) z)
                    (append_assoc s (0x0D ∷ []) (b ∷ [])
                      ∙ ap (λ x. s ++ 0x0D ∷ x ∷ []) ((==_iff b 0x0A).0 n))
                    now,
                p,
                short,
                omega arith,
              )))
      | inr n ↦
          rw (k, n, sym (append_assoc s (0x0D ∷ []) (b ∷ [])))
            (flush-Gives max out q (s ++ 0x0D ∷ []) b h five l)
    ]
  ]
    where
      five : length (s ++ 0x0D ∷ []) < 6
      five = omega (arith, length-append s (0x0D ∷ []))

  lf-Gives :
      (q : QpUtf8) (s k : Bytes) (b : ℕ)
      → Rel q (newline s k)
      → length out + length (s ++ k) + 1 < max
      → Gives out (next (newline s k) b) (settled max (on_lf q b) out)
  unfolding on_lf next
  lf-Gives q s k b (e, h, p, short, two) l = elim (Bool-cases (c0mask b == 0xC0)) [
    | inl lead ↦ rw lead (lead-Gives max out q (s ++ k) b h l)
    | inr n ↦ elim (Bool-cases (c0mask b == 0x80)) [
      | inl c ↦
          rw (n, c)
            (hold-Gives max out (record q { pco = q.pos }) s b continued (mended (s ++ b ∷ []))
              before (omega arith) (λ q'. refl)
              (λ own now. (refl, now, omega (arith, length-append s (b ∷ [])))))
      | inr c ↦ rw (n, c) (flush-Gives max out q (s ++ k) b h (omega (arith, length-append s k)) l)
    ]
  ]
    where
      before : Holds (record q { pco = q.pos }) s
      before = record {
        six = h.six;
        fresh = h.fresh;
        counted = p;
        front = ap (λ n. take n q.own) p ∙ take_front q.pco q.own s k h.front;
      }

  continued-Gives :
      (q : QpUtf8) (s : Bytes) (b : ℕ)
      → Rel q (mended s)
      → length out + length s + 1 < max
      → Gives out (next (mended s) b) (settled max (on_continued q b) out)
  unfolding on_continued next
  continued-Gives q s b (e, h, short) l = elim (Bool-cases (c0mask b == 0xC0)) [
    | inl lead ↦ rw lead (lead-Gives max out q s b h l)
    | inr n ↦ elim (Bool-cases (not (c0mask b == 0x80) || length s + 1 == 6)) [
      | inl t ↦ rw (n, same t, t) (flush-Gives max out q s b h (omega arith) l)
      | inr t ↦
          rw (n, same t, t)
            (hold-Gives max out q s b continued (mended (s ++ b ∷ [])) h (omega arith) (λ q'. refl)
              (λ own now. (refl, now, ground (arith, length-append s (b ∷ [])))))
    ]
  ]
    where
      same :
          {v : Bool}
          → (not (c0mask b == 0x80) || length s + 1 == 6) ≡ v
          → (not (c0mask b == 0x80) || q.pco + 1 == 6) ≡ v
      same t = ap (λ n. not (c0mask b == 0x80) || n + 1 == 6) h.counted ∙ t

  round-Gives :
      (q : QpUtf8) (h : Held) (b : ℕ)
      → Rel q h
      → length out + length (text h) + 1 < max
      → Gives out (next h b) (round max q.state q out b)
  unfolding round
  round-Gives q idle b r l =
      subst (λ st. Gives out (next idle b) (round max st q out b)) (sym r.0)
        (normal-Gives q b r (omega arith))
  round-Gives q (sequence s) b r l =
      subst (λ st. Gives out (next (sequence s) b) (round max st q out b)) (sym r.0)
        (start-Gives q s b r l)
  round-Gives q (return s) b r l =
      subst (λ st. Gives out (next (return s) b) (round max st q out b)) (sym r.0)
        (cr-Gives q s b r l)
  round-Gives q (newline s k) b r l =
      subst (λ st. Gives out (next (newline s k) b) (round max st q out b)) (sym r.0)
        (lf-Gives q s k b r l)
  round-Gives q (mended s) b r l =
      subst (λ st. Gives out (next (mended s) b) (round max st q out b)) (sym r.0)
        (continued-Gives q s b r l)

-- A step gives and holds no more than was held, and the byte.
next-length :
    (h : Held) (b : ℕ) → length (next h b).0 + length (text (next h b).1) ≤ length (text h) + 1
unfolding next
next-length idle b = ground arith
next-length (sequence s) b = ground (arith, length-append s (b ∷ []), length-append s (0x0D ∷ []))
next-length (return s) b = ground (
  arith,
  length-append s (0x0D ∷ []),
  length-append s (0x0D ∷ 0x0A ∷ []),
  length-append s (0x0D ∷ b ∷ []),
)
next-length (newline s k) b =
    ground (arith, length-append s k, length-append s (b ∷ []), length-append (s ++ k) (b ∷ []))
next-length (mended s) b = ground (arith, length-append s (b ∷ []))

-- `cycle` implements the specification: where `p` has room for the bytes that are held, the bytes
-- read and one more, it gives what the specification gives, and gets to the end.
pub cycle-Gives :
    (max n i : ℕ) (bs out : Bytes) (q : QpUtf8) (h : Held)
    → Rel q h
    → length out + length (text h) + length bs < max
    → Gives out (next_all h bs) (cycle max n i bs q out)
unfolding cycle next_all
cycle-Gives max n i [] out q h r l = keep-Gives max out q h r
cycle-Gives max n i (b ∷ bs) out q h r l =
    let (q', e, r') = round-Gives max out q h b r (omega arith) in
    let (o, h') = next h b in
    let (q'', e', r'') =
      cycle-Gives max n (i + 1) bs (out ++ o) q' h' r'
        (omega (arith, length-append out o, next-length h b)) in
    (
      q'',
      rw (e, cycle) (e' ∙ ap (λ z. some (q'', z, true)) (append_assoc out o (next_all h' bs).0)),
      r'',
    )
