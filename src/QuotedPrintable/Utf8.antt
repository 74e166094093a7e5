-- ===== src/QuotedPrintable/Utf8.antt =====
-- quotedprintable/qputf8.go
pub mod Spec
pub mod Refines
pub mod Rounds
pub mod Lossless
pub mod Correct
use mime.Base.Array
use mime.Base.Array.{◌>>=◌, store}
use mime.Base.Bytes
use mime.Base.{
  ℕ, zero, suc, ◌+◌, ◌-◌, ◌*◌, ◌/◌, ◌%◌, List, [], ◌∷◌, ◌++◌, Bool, true, false, not, ◌&&◌, ◌||◌,
  Option, none, some, ltb, leb, ◌==◌, if◌then◌else◌, take, drop, length, get_elem?, ◌≡◌, refl,
}
use mime.Base.Bytes.{Bytes, codes}

-- the constants `stNormal` to `stReleaseRestart`
pub data State : Type 0 where
  normal start cr lf continued release release_restart : State

-- `qpUTF8` without its `r`. `buf` holds the bytes of the last read, which are `q.buf[:q.pcb]`
-- while `q.pcb > q.ccb`; an error is named by a number.
pub record QpUtf8 : Type 0 where
  pub state : State
  pub pos : ℕ
  pub pco : ℕ
  pub cco : ℕ
  pub own : Bytes
  pub pcb : ℕ
  pub ccb : ℕ
  pub buf : Bytes
  pub last : ℕ
  pub err : Option ℕ

-- `newQPUTF8`
abbrev pub new_qp_utf8 : QpUtf8
new_qp_utf8 = record {
  state = normal;
  pos = 0;
  pco = 0;
  cco = 0;
  own = 0 ∷ 0 ∷ 0 ∷ 0 ∷ 0 ∷ 0 ∷ [];
  pcb = 0;
  ccb = 0;
  buf = [];
  last = 0;
  err = none;
}

-- `b & 0xc0`
abbrev pub c0mask : ℕ → ℕ
c0mask b = b / 64 % 4 * 64

-- `p[*count] = b; *count++`: `out` is what `p` has got, `max` its length. `none` is a panic.
unfoldable pub put : ℕ → Bytes → ℕ → Option Bytes
put max out b = if ltb (length out) max then some (out ++ b ∷ []) else none

-- `q.own[q.pco] = b; q.pco++`, and a new state
unfoldable pub hold : QpUtf8 → ℕ → State → Option QpUtf8
hold q b st = do
  own ← store q.own q.pco b
  some (record q { own = own; pco = q.pco + 1; state = st })

-- `q.last = b; q.state = stReleaseRestart`
abbrev pub restart_with : QpUtf8 → ℕ → Option QpUtf8
restart_with q b = some (record q { last = b; state = release_restart })

-- the case `stStart`
unfoldable pub on_start : QpUtf8 → ℕ → Option QpUtf8
on_start q b =
    let here = record q { pos = q.pco } in
    if c0mask b == 0xC0
    then restart_with q b
    else if b == 0x0D
    then hold here b cr
    else if b == 0x0A
    then hold here b lf
    else if not (c0mask b == 0x80) || leb 4 (q.pco + 1)
    then hold q b release
    else hold q b start

-- the case `st0x0D`
unfoldable pub on_cr : QpUtf8 → ℕ → Option QpUtf8
on_cr q b =
    if c0mask b == 0xC0
    then restart_with q b
    else if b == 0x0A
    then hold q b lf
    else hold q b release

-- the case `st0x0A`
unfoldable pub on_lf : QpUtf8 → ℕ → Option QpUtf8
on_lf q b =
    if c0mask b == 0xC0
    then restart_with q b
    else if c0mask b == 0x80
    then hold (record q { pco = q.pos }) b continued
    else hold q b release

-- the case `st0x10XXXXXX`
unfoldable pub on_continued : QpUtf8 → ℕ → Option QpUtf8
on_continued q b =
    if c0mask b == 0xC0
    then restart_with q b
    else if not (c0mask b == 0x80) || q.pco + 1 == 6
    then hold q b release
    else hold q b continued

-- what `release` does when all is consumed
abbrev pub reset : QpUtf8 → Bool → Option QpUtf8
reset q true = do
  own ← store q.own 0 q.last
  some (record q { cco = 0; own = own; pco = 1; state = start })
reset q false = some (record q { cco = 0; pco = 0; state = normal })

-- the loop of `release`; the first argument is `q.pco - q.cco`
unfoldable pub release_loop : ℕ → ℕ → Bool → QpUtf8 → Bytes → Option (QpUtf8 × Bytes × Bool)
release_loop zero max restart q out = do q' ← reset q restart; some (q', out, true)
release_loop (suc pending) max restart q out = do
  b ← get_elem? q.own q.cco
  out' ← put max out b
  let rest = release_loop pending max restart (record q { cco = q.cco + 1 }) out'
  if leb max (length out') then some (record q { cco = q.cco + 1 }, out', false) else rest

-- `release`: what it leaves, the bytes in `p`, and whether it got to the end
unfoldable pub release_own : ℕ → Bool → QpUtf8 → Bytes → Option (QpUtf8 × Bytes × Bool)
release_own max restart q out = release_loop (q.pco - q.cco) max restart q out

-- what follows the switch in a round of `cycle`
abbrev pub settle : ℕ → State → QpUtf8 → Bytes → Option (QpUtf8 × Bytes × Bool)
settle max release q out = release_own max false q out
settle max release_restart q out = release_own max true q out
settle max _ q out = some (q, out, true)

abbrev pub settled : ℕ → Option QpUtf8 → Bytes → Option (QpUtf8 × Bytes × Bool)
settled max none out = none
settled max (some q) out = settle max q.state q out

-- the case `stNormal`
unfoldable pub on_normal : ℕ → QpUtf8 → Bytes → ℕ → Option (QpUtf8 × Bytes × Bool)
on_normal max q out b =
    let started =
      store q.own 0 b >>= λ own. some (record q { state = start; own = own; pco = 1 }) in
    let written = put max out b >>= λ out'. some (q, out', ltb (length out') max) in
    if c0mask b == 0xC0 then settled max started out else written

-- one round of `cycle`; the flag is false where the round returns
unfoldable pub round : ℕ → State → QpUtf8 → Bytes → ℕ → Option (QpUtf8 × Bytes × Bool)
round max normal q out b = on_normal max q out b
round max start q out b = settled max (on_start q b) out
round max cr q out b = settled max (on_cr q b) out
round max lf q out b = settled max (on_lf q b) out
round max continued q out b = settled max (on_continued q b) out
round max release q out b = settled max (some q) out
round max release_restart q out b = settled max (some q) out

-- `cycle` from index `i` on; the list is `q.buf[i:n]`
unfoldable pub cycle : ℕ → ℕ → ℕ → Bytes → QpUtf8 → Bytes → Option (QpUtf8 × Bytes × Bool)
cycle max n i [] q out = some (q, out, true)
cycle max n i (b ∷ bs) q out = do
  (q', out', goes_on) ← round max q.state q out b
  let rest = cycle max n (i + 1) bs q' out'
  if goes_on then rest else some (record q' { pcb = n; ccb = i + 1 }, out', false)

-- `q.state == st0x10XXXXXX || (q.state == stStart && q.pco-q.cco > 1)`
abbrev pub ejects : State → ℕ → Bool
ejects continued held = true
ejects start held = ltb 1 held
ejects _ held = false

-- The underlying reader: what a read of at most some number of bytes makes of its state, the bytes
-- it gives, and its error.
abbrev pub Source : Type 0 → Type 0
Source S = S → ℕ → S × Bytes × Option ℕ

-- what `Read` leaves and returns: the states, the bytes put into `p` and the error
abbrev pub Result : Type 0 → Type 0
Result S = QpUtf8 × S × Bytes × Option ℕ

-- the end of `Read`; the flag is what `cycle` has returned
abbrev pub finish_read : {S : Type 0} → S → QpUtf8 × Bytes × Bool → Result S
finish_read s (q, out, false) = (q, s, out, none)
finish_read s (q, out, true) =
    let q' = record q { pcb = 0; ccb = 0 } in (q', s, out, if leb q.pco q.cco then q.err else none)

-- where an error is known already: the bytes that are held are given, in some of the states
abbrev pub eject : {S : Type 0} → ℕ → QpUtf8 → S → Bytes → Option (Result S)
eject max q s out =
    let ejected = release_own max false q out >>= λ r. some (r.0, s, r.1, r.0.err) in
    if ejects q.state (q.pco - q.cco) then ejected else some (q, s, out, q.err)

module _ {S : Type 0} (read : Source S) where
  -- from the underlying read on
  unfoldable pub read_under : ℕ → QpUtf8 → S → Bytes → Option (Result S)
  read_under max q s out =
      let allowed = max - length out - (q.pco - q.cco) in
      let (s', bytes, err) = read s (if ltb 512 allowed then 512 else allowed) in
      let read_some =
        cycle max (length bytes) 0 bytes (record q { buf = bytes; err = err }) out >>= λ r.
        some (finish_read s' r) in
      let read_none = cycle max 0 0 [] q out >>= λ r. some (finish_read s r) in
      if ltb 0 allowed then read_some else read_none

  -- behind the pending bytes
  unfoldable pub read_on : ℕ → Option ℕ → QpUtf8 → S → Bytes → Option (Result S)
  read_on max none q s out = read_under max q s out
  read_on max (some _) q s out = eject max q s out

  -- `Read` into a slice of length `max`
  unfoldable pub read_utf8 : ℕ → QpUtf8 → S → Option (Result S)
  read_utf8 max q s =
      let pending = cycle max q.pcb q.ccb (drop q.ccb (take q.pcb q.buf)) q [] >>= λ r.
      if r.2 then read_on max r.0.err r.0 s r.1 else some (r.0, s, r.1, none) in
      if ltb q.ccb q.pcb then pending else read_on max q.err q s []

-- unfolds what a test of this file computes with
unfoldable pub computes : Unit {0}
unfolding put hold on_start on_cr on_lf on_continued release_loop release_own on_normal round cycle
    read_under read_on read_utf8 Array.computes Bytes.computes
computes = tt

cycle_text :
    (cycle 20 4 0 (0xC3 ∷ 0x0D ∷ 0x0A ∷ 0xA9 ∷ b'x' ∷ []) new_qp_utf8 [] >>= λ r. some r.1)
    ≡ some (0xC3 ∷ 0xA9 ∷ b'x' ∷ [])
unfolding computes
cycle_text = refl

-- a reader over a list, which gives no error
abbrev list_source : Source Bytes
list_source s n = (drop n s, take n s, none)

abbrev two_reads : Option (Bytes × Bytes)
two_reads = do
  a ← read_utf8 list_source 2 new_qp_utf8 (0xC3 ∷ b'A' ∷ b'B' ∷ b'C' ∷ [])
  b ← read_utf8 list_source 2 a.0 a.1
  some (a.2, b.2)

-- Where a read ends with a release, the next byte is lost: here a `B`.
read_utf8_text : two_reads ≡ some (0xC3 ∷ b'A' ∷ [], b'C' ∷ [])
unfolding computes
read_utf8_text = refl
