-- ===== src/QuotedPrintable/Writer.antt =====
-- quotedprintable/writer.go
use mime.Base.Bytes
use mime.EncodedWord.QEncoding
use mime.Base.{
  ℕ, ◌+◌, ◌-◌, ◌/◌, ◌%◌, List, [], ◌∷◌, ◌++◌, Bool, true, false, not, ◌&&◌, ◌||◌, Option, none,
  some, ltb, ◌==◌, if◌then◌else◌, within, length, ◌≡◌, refl,
}
use mime.Base.Bytes.{Bytes, codes}
use mime.EncodedWord.QEncoding.{upper_hex}

abbrev pub line_max_len : ℕ
line_max_len = 76

-- `Writer`. `line` is `w.line[:w.i]`, so that `w.i` is its length; `out` holds what the underlying
-- writer has accepted, one entry for each of its calls.
pub record Writer : Type 0 where
  pub binary : Bool
  pub line : Bytes
  pub cr : Bool
  pub out : List Bytes

-- `NewWriter`, with `Binary` set to `binary` by its caller
abbrev pub new_writer : Bool → Writer
new_writer binary = record { binary = binary; line = []; cr = false; out = [] }

-- The underlying `io.Writer`: whether it refuses a call, and with which error, by what it was given
-- before and what it is given now.
abbrev pub Sink : Type 0
Sink = List Bytes → Bytes → Option ℕ

-- a method that may return an error
abbrev pub Step : Type 0
Step = Writer → Writer × Option ℕ

-- `if err := m(); err != nil { return err }`, and on
abbrev pub continue_with : Writer × Option ℕ → Step → Writer × Option ℕ
continue_with (w, some e) k = (w, some e)
continue_with (w, none) k = k w

infixr 5 ◌>>◌
abbrev pub ◌>>◌ : Step → Step → Step
◌>>◌ m k w = continue_with (m w) k

abbrev pub skip : Step
skip w = (w, none)

-- bytes put into the line at `w.i`
unfoldable pub append : Bytes → Step
append bs w = (record w { line = w.line ++ bs }, none)

unfoldable pub set_cr : Bool → Step
set_cr b w = (record w { cr = b }, none)

unfoldable pub is_whitespace : ℕ → Bool
is_whitespace b = b == b' ' || b == b'\t'

-- the last byte of the line, and the line without it
abbrev pub split_last : Bytes → Option (Bytes × ℕ)
split_last [] = none
split_last (b ∷ s) = elim (split_last s) [
  | none ↦ some ([], b)
  | some (front, last) ↦ some (b ∷ front, last)
]

-- what `Write` leaves for a batch
unfoldable pub is_simple : Bool → ℕ → Bool
is_simple binary b =
    within b'!' b'~' b && not (b == b'=')
    || is_whitespace b
    || not binary && (b == b'\n' || b == b'\r')

abbrev pub continue_at :
    ℕ → Writer × Option ℕ → (Writer → Writer × ℕ × Option ℕ) → Writer × ℕ × Option ℕ
continue_at n (w, some e) k = (w, n, some e)
continue_at n (w, none) k = k w

module _ (sink : Sink) where
  unfoldable pub flush : Step
  flush w = elim (sink w.out w.line) [
    | some e ↦ (w, some e)
    | none ↦ (record w { line = []; out = w.out ++ w.line ∷ [] }, none)
  ]

  unfoldable pub insert_crlf : Step
  insert_crlf = append (b'\r' ∷ b'\n' ∷ []) >> flush

  unfoldable pub insert_soft_line_break : Step
  insert_soft_line_break = append (b'=' ∷ []) >> insert_crlf

  unfoldable pub encode : ℕ → Step
  encode b w =
      let room =
        if ltb (line_max_len - 1 - length w.line) 3 then insert_soft_line_break else skip in
      (room >> append (b'=' ∷ upper_hex (b / 16) ∷ upper_hex (b % 16) ∷ [])) w

  unfoldable pub check_last_byte : Step
  check_last_byte w = elim (split_last w.line) [
    | none ↦ (w, none)
    | some (front, b) ↦ if is_whitespace b then encode b (record w { line = front }) else (w, none)
  ]

  -- one round of `write`
  unfoldable pub write_byte : ℕ → Step
  write_byte b w =
      let mark = if b == b'\r' then set_cr true else skip in
      let room = if length w.line == line_max_len - 1 then insert_soft_line_break else skip in
      if b == b'\n' || b == b'\r'
      then if w.cr && b == b'\n' then set_cr false w else (mark >> check_last_byte >> insert_crlf) w
      else (room >> append (b ∷ []) >> set_cr false) w

  unfoldable pub write : Bytes → Step
  write [] w = (w, none)
  write (b ∷ p) w = continue_with (write_byte b w) (write p)

  -- The loop of `Write`; `pending` is `p[n:i]`. It returns the number of bytes written too.
  unfoldable pub write_loop : ℕ → Bytes → Bytes → Writer → Writer × ℕ × Option ℕ
  write_loop n [] [] w = (w, n, none)
  write_loop n (b ∷ pending) [] w =
      continue_at n (write (b ∷ pending) w) (λ w'. (w', n + length (b ∷ pending), none))
  write_loop n pending (b ∷ p) w =
      let batch = write_loop n (pending ++ b ∷ []) p w in
      let n' = n + length pending in
      let single =
        continue_at n (write pending w)
          (λ w'. continue_at n' (encode b w') (write_loop (n' + 1) [] p)) in
      if is_simple w.binary b then batch else single

  -- `Write`
  unfoldable pub write_all : Bytes → Writer → Writer × ℕ × Option ℕ
  write_all p = write_loop 0 [] p

  -- `Close`
  unfoldable pub close : Step
  close = check_last_byte >> flush

abbrev accepting : Sink
accepting out chunk = none

-- unfolds what a test of this file computes with
unfoldable pub computes : Unit {0}
unfolding append set_cr is_whitespace is_simple flush insert_crlf insert_soft_line_break encode
    check_last_byte write_byte write write_loop write_all close Bytes.computes QEncoding.computes
computes = tt

write_text :
    (((write_all accepting (codes "a=b \nc") (new_writer false)).0).out ≡ codes "a=3Db=20\r\n" ∷ [])
    × ((close accepting (write_all accepting (codes "a=b \nc ") (new_writer false)).0).0.out
        ≡ codes "a=3Db=20\r\n" ∷ codes "c=20" ∷ [])
    × ((write_all accepting (codes "a\r\n") (new_writer true)).0.line ≡ codes "a=0D=0A")
unfolding computes
write_text = (refl, refl, refl)
