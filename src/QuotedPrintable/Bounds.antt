-- ===== src/QuotedPrintable/Bounds.antt =====
-- The line buffer of the quoted-printable writer does not overflow, and no line is too long.
use mime.Base.{
  Bool, false, ◌∙◌, subst, ℕ, ◌≤◌, ◌+◌, ◌-◌, ◌/◌, ◌%◌, List, [], ◌∷◌, ◌++◌, true, none, some,
  Option, All, All-append, length, ◌≡◌, inl, inr, refl, ap, sym, arith, ◌==◌, ltb, length-append,
  append_assoc, Option-cases, Bool-cases, ◌&&◌, ◌||◌,
}
use mime.Base.Bytes.{Bytes}
use mime.EncodedWord.QEncoding.{upper_hex}
use mime.QuotedPrintable.Flushes.{
  crlf, soft, sent, Flushes, flush_cases, insert_crlf_cases, insert_soft_cases, split_last-none,
  split_last-some,
}
use mime.QuotedPrintable.Writer.{
  Writer, Sink, Step, continue_with, ◌>>◌, append, set_cr, is_whitespace, split_last, flush,
  insert_crlf, encode, check_last_byte, write_byte, write, is_simple, continue_at, write_loop,
  write_all, close, line_max_len,
}

abbrev pub is_blank : ℕ → Bool
is_blank b = b == b' ' || b == b'\t'

-- the last byte is a blank
abbrev pub ends_blank : Bytes → Bool
ends_blank [] = false
ends_blank (b ∷ []) = is_blank b
ends_blank (b ∷ c ∷ s) = ends_blank (c ∷ s)

-- no byte of a line end
abbrev pub IsTextByte : ℕ → Type 0
IsTextByte b = (b == b'\n' || b == b'\r') ≡ false

-- The text of a line: at most 76 characters, with no line end among them and no blank last.
pub record IsBody (body : Bytes) : Type 0 where
  pub short : length body ≤ line_max_len
  pub text : All IsTextByte body
  pub no_blank : ends_blank body ≡ false

-- A whole line, with its CRLF.
pub record IsLine (chunk : Bytes) : Type 0 where
  pub body : Bytes
  pub shape : chunk ≡ body ++ crlf
  pub is_body : IsBody body

-- Between two calls: room for a soft line break, no line end in the line that waits, and all that has
-- gone out is whole lines.
pub record IsValid (w : Writer) : Type 0 where
  pub room : length w.line ≤ 75
  pub text : All IsTextByte w.line
  pub lines : All IsLine w.out

-- What holds after a call too that has failed: the buffer of 78 bytes has not overflowed.
pub record IsBounded (w : Writer) : Type 0 where
  pub fits : length w.line ≤ 78
  pub lines : All IsLine w.out

ends_blank-last : (s : Bytes) (b : ℕ) → ends_blank (s ++ b ∷ []) ≡ is_blank b
ends_blank-last [] b = refl
ends_blank-last (c ∷ []) b = refl
ends_blank-last (c ∷ d ∷ s) b = ends_blank-last (d ∷ s) b

abbrev pub Post : Writer × Option ℕ → Type 0
Post (w, none) = IsValid w
Post (w, some e) = IsBounded w

continue_with-Post :
    (r : Writer × Option ℕ) (k : Step)
    → Post r
    → ((w : Writer) → IsValid w → Post (k w))
    → Post (continue_with r k)
continue_with-Post (w, some e) k p h = p
continue_with-Post (w, none) k p h = h w p

flushed :
    (out : List Bytes) (chunk : Bytes)
    → All IsLine out
    → IsLine chunk
    → All IsLine (out ++ chunk ∷ [])
flushed out chunk h s = All-append IsLine out (chunk ∷ []) h (s, tt)

soft-IsLine : (w : Writer) → length w.line ≤ 75 → All IsTextByte w.line → IsLine (w.line ++ soft)
soft-IsLine w n t = record {
  body = w.line ++ b'=' ∷ [];
  shape = sym (append_assoc w.line (b'=' ∷ []) crlf);
  is_body = record {
    short = omega (arith, length-append w.line (b'=' ∷ []));
    text = All-append IsTextByte w.line (b'=' ∷ []) t (refl, tt);
    no_blank = ends_blank-last w.line b'=';
  };
}

-- `r` has flushed `w` with `bs`, and the call goes on with `k`.
Flushes-Post :
    {sink : Sink} {r : Writer × Option ℕ} (P : Writer × Option ℕ → Type 0) (w : Writer) (bs : Bytes)
    (k : Step)
    → ((w' : Writer) (e : ℕ) → IsBounded w' → P (w', some e))
    → Flushes sink r w bs
    → length bs ≤ 3
    → length w.line ≤ 75
    → All IsLine w.out
    → IsLine (w.line ++ bs)
    → ((w' : Writer) → w'.line ≡ [] → All IsLine w'.out → P (k w'))
    → P (continue_with r k)
Flushes-Post P w bs k fails (inl (e, p, _)) n m h s f =
    subst (λ q. P (continue_with q k)) (sym p)
      (fails _ e (record { fits = omega (arith, length-append w.line bs); lines = h }))
Flushes-Post P w bs k fails (inr p) n m h s f =
    subst (λ q. P (continue_with q k)) (sym p)
      (f (sent w bs) refl (flushed w.out (w.line ++ bs) h s))

All-front : (s t : Bytes) → All IsTextByte (s ++ t) → All IsTextByte s
All-front [] t h = tt
All-front (c ∷ s) t (p, h) = (p, All-front s t h)

-- the bytes of an escape
escape_of : ℕ → Bytes
escape_of b = b'=' ∷ upper_hex (b / 16) ∷ upper_hex (b % 16) ∷ []

upper_hex-text : (n : ℕ) → IsTextByte (upper_hex n)
unfolding upper_hex
upper_hex-text n = ground arith

upper_hex-no_blank : (n : ℕ) → is_blank (upper_hex n) ≡ false
unfolding upper_hex
upper_hex-no_blank n = ground arith

-- A valid writer whose line does not end in a blank.
abbrev PostTrim : Writer × Option ℕ → Type 0
PostTrim (w, none) = IsValid w × (ends_blank w.line ≡ false)
PostTrim (w, some e) = IsBounded w

PostTrim-Post : (r : Writer × Option ℕ) → PostTrim r → Post r
PostTrim-Post (w, none) h = h.0
PostTrim-Post (w, some e) h = h

-- an escape behind a line with room
put_escape :
    (b : ℕ) (w : Writer)
    → length w.line ≤ 72
    → All IsTextByte w.line
    → All IsLine w.out
    → PostTrim (append (escape_of b) w)
unfolding append escape_of
put_escape b w n t h =
    let one = upper_hex (b / 16) in
    let two = upper_hex (b % 16) in
    (
      record {
        room = omega (arith, length-append w.line (b'=' ∷ one ∷ two ∷ []));
        text =
            All-append IsTextByte w.line (b'=' ∷ one ∷ two ∷ []) t
              (refl, (upper_hex-text (b / 16), (upper_hex-text (b % 16), tt)));
        lines = h;
      },
      ap (λ l. ends_blank l) (sym (append_assoc w.line (b'=' ∷ one ∷ []) (two ∷ [])))
          ∙ ends_blank-last (w.line ++ (b'=' ∷ one ∷ [])) two
          ∙ upper_hex-no_blank (b % 16),
    )

module _ (sink : Sink) where
  -- three more bytes, in a line of their own if there is no room
  encode-Trim : (b : ℕ) (w : Writer) → IsValid w → PostTrim (encode sink b w)
  unfolding encode escape_of
  encode-Trim b w v = elim (Bool-cases (ltb (line_max_len - 1 - length w.line) 3)) [
    | inl e ↦ rw e (
        Flushes-Post PostTrim w soft _ (λ w' x h. h) (insert_soft_cases sink w) (omega arith) v.room
          v.lines (soft-IsLine w v.room v.text)
          λ w' n h.
            put_escape b w' (omega (arith, ap (λ l. length l) n))
              (subst (λ l. All IsTextByte l) (sym n) tt) h)
    | inr e ↦ rw e (put_escape b w (ground (arith, v.room)) v.text v.lines)
  ]

  encode-Post : (b : ℕ) (w : Writer) → IsValid w → Post (encode sink b w)
  encode-Post b w v = PostTrim-Post (encode sink b w) (encode-Trim b w v)

  check_last_byte-Trim : (w : Writer) → IsValid w → PostTrim (check_last_byte sink w)
  unfolding check_last_byte is_whitespace
  check_last_byte-Trim w v = elim (Option-cases (split_last w.line)) [
    | inl e ↦ rw (e, check_last_byte) (v, ap (λ l. ends_blank l) (split_last-none w.line e))
    | inr ((front, b), e) ↦
        let whole = split_last-some w.line e in
        elim (Bool-cases (b == b' ' || b == b'\t')) [
          | inl s ↦
              rw (e, check_last_byte, s)
                (encode-Trim b (record w { line = front })
                  (record {
                    room = omega (arith, v.room, ap length whole, length-append front (b ∷ []));
                    text = All-front front (b ∷ []) (subst (λ l. All IsTextByte l) whole v.text);
                    lines = v.lines;
                  }))
          | inr s ↦
              rw (e, check_last_byte, s)
                (v, ap (λ l. ends_blank l) whole ∙ ends_blank-last front b ∙ s)
        ]
  ]

  insert_crlf-Post :
      (w : Writer) → IsValid w → ends_blank w.line ≡ false → Post (insert_crlf sink w)
  insert_crlf-Post w v n = elim (insert_crlf_cases sink w) [
    | inl (x, e, _) ↦
        rw e (record { fits = omega (arith, v.room, length-append w.line crlf); lines = v.lines })
    | inr e ↦ rw e (record {
      room = omega arith;
      text = tt;
      lines = flushed w.out (w.line ++ crlf) v.lines (record {
        body = w.line;
        shape = refl;
        is_body = record { short = omega (arith, v.room); text = v.text; no_blank = n };
      });
    })
  ]

  trimmed-Post : (r : Writer × Option ℕ) → PostTrim r → Post (continue_with r (insert_crlf sink))
  trimmed-Post (w, none) (v, n) = insert_crlf-Post w v n
  trimmed-Post (w, some e) h = h

  end_line-Post : (w : Writer) → IsValid w → Post ((check_last_byte sink >> insert_crlf sink) w)
  end_line-Post w v = trimmed-Post (check_last_byte sink w) (check_last_byte-Trim w v)

  put_byte-Post :
      (b : ℕ) (w : Writer)
      → IsTextByte b
      → length w.line ≤ 74
      → All IsTextByte w.line
      → All IsLine w.out
      → Post ((append (b ∷ []) >> set_cr false) w)
  unfolding append set_cr
  put_byte-Post b w p n t h = record {
    room = omega (arith, length-append w.line (b ∷ []));
    text = All-append IsTextByte w.line (b ∷ []) t (p, tt);
    lines = h;
  }

  write_byte-Post : (b : ℕ) (w : Writer) → IsValid w → Post (write_byte sink b w)
  unfolding write_byte set_cr
  write_byte-Post b w v = elim (Bool-cases (b == b'\n' || b == b'\r')) [
    | inl nl ↦ elim (Bool-cases (w.cr && b == b'\n')) [
      | inl second ↦ rw (nl, second) (record { room = v.room; text = v.text; lines = v.lines })
      | inr first ↦ elim (Bool-cases (b == b'\r')) [
        | inl e ↦
            rw (nl, first, e)
              (end_line-Post (record w { cr = true })
                (record { room = v.room; text = v.text; lines = v.lines }))
        | inr e ↦ rw (nl, first, e) (end_line-Post w v)
      ]
    ]
    | inr plain ↦ elim (Bool-cases (length w.line == line_max_len - 1)) [
      | inl full ↦
          rw (plain, full)
            (Flushes-Post Post w soft (append (b ∷ []) >> set_cr false) (λ w' x h. h)
              (insert_soft_cases sink w) (omega arith) v.room v.lines (soft-IsLine w v.room v.text)
              (λ w' n h.
                put_byte-Post b w' plain (omega (arith, ap (λ l. length l) n))
                  (subst (λ l. All IsTextByte l) (sym n) tt) h))
      | inr space ↦
          rw (plain, space) (put_byte-Post b w plain (ground (arith, v.room)) v.text v.lines)
    ]
  ]

  write-Post : (p : Bytes) (w : Writer) → IsValid w → Post (write sink p w)
  unfolding write
  write-Post [] w v = v
  write-Post (b ∷ p) w v =
      continue_with-Post (write_byte sink b w) (write sink p) (write_byte-Post b w v) (write-Post p)

-- What `Write` leaves of an input of `total` bytes, and the count that it returns.
abbrev pub Written : ℕ → Writer × ℕ × Option ℕ → Type 0
Written total (w, n, none) = IsValid w × (n ≡ total)
Written total (w, n, some e) = IsBounded w × (n ≤ total)

continue_at-Written :
    (total n : ℕ) (r : Writer × Option ℕ) (k : Writer → Writer × ℕ × Option ℕ)
    → n ≤ total
    → Post r
    → ((w : Writer) → IsValid w → Written total (k w))
    → Written total (continue_at n r k)
continue_at-Written total n (w, some e) k h p f = (p, h)
continue_at-Written total n (w, none) k h p f = f w p

module _ (sink : Sink) where
  write_loop-Written :
      (total n : ℕ) (pending p : Bytes) (w : Writer)
      → n + length pending + length p ≡ total
      → IsValid w
      → Written total (write_loop sink n pending p w)
  unfolding write_loop
  write_loop-Written total n [] [] w h v = (v, omega arith)
  write_loop-Written total n (b ∷ pending) [] w h v =
      continue_at-Written total n (write sink (b ∷ pending) w) _ (omega arith)
        (write-Post sink (b ∷ pending) w v) (λ w' v'. (v', omega arith))
  write_loop-Written total n pending (b ∷ p) w h v = elim (Bool-cases (is_simple w.binary b)) [
    | inl e ↦
        rw (e, write_loop)
          (write_loop-Written total n (pending ++ b ∷ []) p w
            (omega (arith, h, length-append pending (b ∷ []))) v)
    | inr e ↦
        rw (e, write_loop)
          (continue_at-Written total n (write sink pending w) _ (omega arith)
            (write-Post sink pending w v)
            λ w' v'.
              continue_at-Written total (n + length pending) (encode sink b w') _ (omega arith)
                (encode-Post sink b w' v')
                λ w'' v''.
                  write_loop-Written total (n + length pending + 1) [] p w'' (omega (arith, h)) v'')
  ]

-- `Write` on a valid writer, whatever the sink does: each call of the underlying writer gets one whole
-- line, which has at most 76 characters with no line end among them and no blank last, and its CRLF.
-- If `Write` returns no error then the writer is valid and the count is the length of the input; and
-- after an error the line buffer of 78 bytes has not overflowed, and the count is at most the length
-- of the input.
pub write_all-Written :
    (sink : Sink) (p : Bytes) (w : Writer) → IsValid w → Written (length p) (write_all sink p w)
unfolding write_all
write_all-Written sink p w v = write_loop-Written sink (length p) 0 [] p w (omega arith) v

-- What `Close` leaves: whole lines, and the text of a last line without a CRLF, which may be empty.
pub record IsEnded (w : Writer) : Type 0 where
  pub waits : w.line ≡ []
  pub before : List Bytes
  pub last : Bytes
  pub all : w.out ≡ before ++ last ∷ []
  pub lines : All IsLine before
  pub last_body : IsBody last

abbrev pub Ended : Writer × Option ℕ → Type 0
Ended (w, none) = IsEnded w
Ended (w, some e) = IsBounded w

flush-Ended :
    (sink : Sink) (r : Writer × Option ℕ) → PostTrim r → Ended (continue_with r (flush sink))
flush-Ended sink (w, some e) h = h
flush-Ended sink (w, none) (v, n) = elim (flush_cases sink w) [
  | inl (x, e, _) ↦ rw e (record { fits = omega (arith, v.room); lines = v.lines })
  | inr e ↦ rw e (record {
    waits = refl;
    before = w.out;
    last = w.line;
    all = refl;
    lines = v.lines;
    last_body = record { short = omega (arith, v.room); text = v.text; no_blank = n };
  })
]

-- `Close` on a valid writer, whatever the sink does: if it returns no error then nothing waits, and
-- what has gone out is whole lines, each of at most 76 characters with no line end among them and no
-- blank last and its CRLF, and then a last line of that kind without its CRLF; and after an error the
-- line buffer has not overflowed, and whole lines only have gone out.
pub close-Ended : (sink : Sink) (w : Writer) → IsValid w → Ended (close sink w)
unfolding close
close-Ended sink w v = flush-Ended sink (check_last_byte sink w) (check_last_byte-Trim sink w v)
