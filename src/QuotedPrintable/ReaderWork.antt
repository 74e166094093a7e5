-- ===== src/QuotedPrintable/ReaderWork.antt =====
-- quotedprintable/reader.go: the invariant of the reader, and a bound on its rounds.
use mime.Base.{
  ℕ, zero, suc, ◌+◌, ◌-◌, ◌*◌, ◌<◌, ◌≤◌, List, [], ◌∷◌, Bool, true, false, Option, none, some,
  within, ◌==◌, if◌then◌else◌, take, length, ◌≡◌, refl, subst, ◌∙◌, inl, inr, arith, Bool-cases,
}
use mime.Base.Array.{store-Stored}
use mime.Base.Bytes.{Bytes}
use mime.Base.Result.{Result, ok, err}
use mime.Multipart.Bufio.{}
use mime.QuotedPrintable.Reader.{
  QpError, RErr, Reader, Round, add, from_hex, read_hex_byte, store_all, is_cut, low_half,
  both_halves, invalid_hex, returns, gives, goes_on,
}

-- What `Read` keeps: the array has its four bytes, and at most three are held back.
pub record IsValid (r : Reader) : Type 0 where
  pub array : length r.prev ≡ 4
  pub held_back : length r.last ≤ 3

-- what is left for the reading of errors
abbrev pub pending : Option QpError → ℕ
pending none = 5
pending (some _) = 0

-- A bound on the rounds that a reader still makes.
abbrev pub work : Reader → ℕ
work r = 7 * length r.br.rest + 2 * length r.line + length r.last + pending r.gerr.err

-- A round with room for `n` bytes does not panic; it returns no more bytes than there is room for, or
-- it leaves less work.
unfoldable pub Works : ℕ → ℕ → Option Round → Type 0
Works n w none = ⊥
Works n w (some (returns r d e)) = IsValid r × (length d ≤ n)
Works n w (some (gives r b)) = IsValid r × (work r < w)
Works n w (some (goes_on r)) = IsValid r × (work r < w)

pub add-pending : (e : QpError) (q : RErr) → pending (add e q).err ≡ pending q.err
unfolding add
add-pending e q = elim (Bool-cases (length q.errs == 4)) [
  | inl h ↦ rw (h, add) refl
  | inr h ↦ rw (h, add) refl
]

pub record StoredAll (s : Bytes) (i : ℕ) (prev : List ℕ) : Type 0 where
  pub after : List ℕ
  pub stores : store_all s i prev ≡ some after
  pub keeps : length after ≡ length prev

pub store_all-StoredAll :
    (s : Bytes) (i : ℕ) (prev : List ℕ) → i + length s ≤ length prev → StoredAll s i prev
unfolding store_all
store_all-StoredAll [] i prev h = record { after = prev; stores = refl; keeps = refl }
store_all-StoredAll (b ∷ s) i prev h =
    let a = store-Stored prev i b (omega arith) in
    let q = store_all-StoredAll s (suc i) a.after (omega (arith, a.keeps)) in
    record { after = q.after; stores = rw a.stores q.stores; keeps = q.keeps ∙ a.keeps }

pub length-take : (m : ℕ) (s : Bytes) → length (take m s) ≤ m
length-take zero s = omega arith
length-take (suc m) [] = omega arith
length-take (suc m) (b ∷ s) = omega (arith, length-take m s)

-- no error of a text that was cut
NotCut : Result QpError ℕ → Type 0
NotCut (ok b) = Unit
NotCut (err e) = (o : Option QpError) → is_cut e o ≡ false

if-NotCut : (b : Bool) (x y : Result QpError ℕ) → NotCut x → NotCut y → NotCut (if b then x else y)
if-NotCut true x y h k = h
if-NotCut false x y h k = k

from_hex-NotCut : (b : ℕ) → NotCut (from_hex b)
unfolding from_hex NotCut
from_hex-NotCut b =
    let invalid : NotCut (err (invalid_hex b)) = λ o. refl in
    if-NotCut (within b'0' b'9' b) _ _ tt (
      if-NotCut (within b'A' b'F' b) _ _ tt
        (if-NotCut (within b'a' b'f' b) (ok (b - b'a' + 10)) (err (invalid_hex b)) tt invalid))

low_half-NotCut : (hb : ℕ) (r : Result QpError ℕ) → NotCut r → NotCut (low_half hb r)
unfolding NotCut
low_half-NotCut hb (ok b) h = tt
low_half-NotCut hb (err e) h = h

both_halves-NotCut : (r : Result QpError ℕ) (b : ℕ) → NotCut r → NotCut (both_halves r b)
both_halves-NotCut (ok hb) b h = low_half-NotCut hb (from_hex b) (from_hex-NotCut b)
both_halves-NotCut (err e) b h = unfold NotCut in h

read_hex_byte-NotCut : (a b : ℕ) (s : Bytes) → NotCut (read_hex_byte (a ∷ b ∷ s))
unfolding read_hex_byte
read_hex_byte-NotCut a b s = both_halves-NotCut (from_hex a) b (from_hex-NotCut a)

-- `=` at the end of what was read is the only one that is cut.
pub cut_short :
    (s : Bytes) (e : QpError) (o : Option QpError)
    → read_hex_byte s ≡ err e
    → is_cut e o ≡ true
    → length s ≤ 1
unfolding NotCut
cut_short [] e o h c = omega arith
cut_short (a ∷ []) e o h c = omega arith
cut_short (a ∷ b ∷ s) e o h c = let no = subst NotCut h (read_hex_byte-NotCut a b s) in cc (no o)
