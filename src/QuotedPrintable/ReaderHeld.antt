-- ===== src/QuotedPrintable/ReaderHeld.antt =====
-- quotedprintable/reader.go: the rounds of `Read` where bytes are on the line or held back.
use mime.Base.{
  ℕ, suc, ◌+◌, ◌-◌, ◌*◌, ◌<◌, ◌≤◌, List, [], ◌∷◌, Bool, true, false, ◌||◌, Option, none, some, ltb,
  ◌==◌, if◌then◌else◌, take, drop, length, ◌≡◌, refl, ap, sym, ◌∙◌, inl, inr, arith, Bool-cases,
  length-drop, ltb-false→le, le→ltb, ltb→lt, ==_iff,
}
use mime.Base.Bytes.{Bytes, has_prefix}
use mime.Base.Result.{Result, ok, err}
use mime.Multipart.Bufio.{}
use mime.QuotedPrintable.Reader.{
  QpError, RErr, Reader, Round, add, read_hex_byte, store_all, is_cut, hold, escape, literal, plain,
  completed, complete, max_qp_buf, soft_break, held, unescaped_byte, returns, gives, goes_on,
}
use mime.QuotedPrintable.ReaderWork.{
  IsValid, Works, add-pending, cut_short, length-take, pending, store_all-StoredAll, work,
}

hold-Works :
    (n k : ℕ) (r : Reader) (s : Bytes) (i : ℕ)
    → IsValid r
    → length r.line ≡ suc k
    → i + length s ≤ 4
    → n ≤ 3
    → n < suc k * 2 + length r.last
    → (m : ℕ) → Works m (work r) (hold n r (store_all s i r.prev))
unfolding Works
hold-Works n k r s i v e h l w m =
    let q = store_all-StoredAll s i r.prev (omega (arith, v.array)) in
    rw q.stores (
      record { array = q.keeps ∙ v.array; held_back = omega (arith, length-take n q.after) },
      omega (arith, length-take n q.after),
    )

-- A byte of the line at least is used.
used :
    (r : Reader) (s : Bytes) (q : RErr)
    → IsValid r
    → length s < length r.line
    → pending q.err ≡ pending r.gerr.err
    → IsValid (record r { line = s; gerr = q }) × (work (record r { line = s; gerr = q }) < work r)
used r s q v l e = (record { array = v.array; held_back = v.held_back }, omega (arith, e, l))

if-Works :
    (m w : ℕ) (b : Bool) (x y : Round)
    → Works m w (some x)
    → Works m w (some y)
    → Works m w (some (if b then x else y))
if-Works m w true x y h k = h
if-Works m w false x y h k = k

literal-Works :
    (m b : ℕ) (s : Bytes) (r : Reader)
    → IsValid r
    → length r.line ≡ suc (length s)
    → Works m (work r) (some (literal b s r))
unfolding Works
literal-Works m b s r v e =
    let same = used r s r.gerr v (omega (arith, e)) refl in
    if-Works m (work r) (b == b'\t' || b == b'\r' || b == b'\n') (gives (record r { line = s }) b) _
      same
      (if-Works m (work r) (ltb b b' ' || ltb b'~' b)
        (gives (record r { line = s; gerr = add (unescaped_byte b) r.gerr }) b)
        (gives (record r { line = s }) b)
        (used r s (add (unescaped_byte b) r.gerr) v (omega (arith, e))
          (add-pending (unescaped_byte b) r.gerr))
        same)

escape-Works :
    (m : ℕ) (s : Bytes) (r : Reader) (x : Result QpError ℕ)
    → read_hex_byte s ≡ x
    → IsValid r
    → length r.line ≡ suc (length s)
    → Works m (work r) (escape s x r)
unfolding Works
escape-Works m s r (ok b) f v e =
    used r (drop 2 s) r.gerr v (omega (arith, e, length-drop 2 s)) refl
escape-Works m s r (err x) f v e = elim (Bool-cases (is_cut x r.rerr)) [
  | inl h ↦ rw h (
      hold-Works (suc (length s)) (length s) r (b'=' ∷ s) 0 v e
        (omega (arith, cut_short s x r.rerr f h)) (omega (arith, cut_short s x r.rerr f h))
        (omega arith) m)
  | inr h ↦ rw h (used r s (add x r.gerr) v (omega (arith, e)) (add-pending x r.gerr))
]

pub plain-Works :
    (m : ℕ) (s : Bytes) (r : Reader)
    → IsValid r
    → r.line ≡ s
    → 0 < length s
    → Works m (work r) (plain s r)
unfolding plain
plain-Works m [] r v e h = absurd (omega arith)
plain-Works m (b ∷ s) r v e h = elim (Bool-cases (b == b'=')) [
  | inl c ↦ rw (c, plain) (escape-Works m s r (read_hex_byte s) refl v (ap (λ t. length t) e))
  | inr c ↦ rw (c, plain) (literal-Works m b s r v (ap (λ t. length t) e))
]

rest_held : (k : ℕ) (prev : List ℕ) → length (drop (suc k) (take max_qp_buf prev)) ≤ 2
rest_held k prev =
    omega (arith, length-drop (suc k) (take max_qp_buf prev), length-take max_qp_buf prev)

completed-Works :
    (m : ℕ) (prev : List ℕ) (s : Bytes) (x : Result QpError ℕ) (r : Reader)
    → length prev ≡ 4
    → 2 * length s + 3 ≤ 2 * length r.line + length r.last
    → Works m (work r) (some (completed prev s x r))
unfolding Works
completed-Works m prev s (ok b) r e l = (
  record { array = e; held_back = omega (arith, rest_held 2 prev) },
  omega (arith, l, rest_held 2 prev),
)
completed-Works m prev s (err x) r e l = (
  record { array = e; held_back = omega (arith, rest_held 0 prev) },
  omega (arith, l, rest_held 0 prev, add-pending x r.gerr),
)

complete-Works :
    (m n : ℕ) (r : Reader)
    → IsValid r
    → n ≡ length r.last
    → 3 ≤ length r.line + n
    → Works m (work r) (complete n r)
unfolding complete
complete-Works m n r v h l =
    let diff = 3 - n in
    let q =
      store_all-StoredAll (take diff r.line) n r.prev
        (omega (arith, h, v.held_back, v.array, length-take diff r.line)) in
    let room : ltb (length r.line) diff ≡ false = le→ltb (length r.line) diff (omega arith) in
    rw (room, complete, q.stores)
      (completed-Works m q.after (drop diff r.line) (read_hex_byte (drop 1 (take 3 q.after))) r
        (q.keeps ∙ v.array) (omega (arith, h, l, v.held_back, length-drop diff r.line)))

less-Works : (m w w' : ℕ) (o : Option Round) → w ≤ w' → Works m w o → Works m w' o
unfolding Works
less-Works m w w' none h x = x
less-Works m w w' (some (returns r d e)) h x = x
less-Works m w w' (some (gives r b)) h (v, l) = (v, omega arith)
less-Works m w w' (some (goes_on r)) h (v, l) = (v, omega arith)

soft_break-Works :
    (m : ℕ) (s : Bytes) (r : Reader)
    → IsValid r
    → length s < length r.line
    → Works m (work r) (soft_break s r)
unfolding Works
soft_break-Works m [] r v l =
    (record { array = v.array; held_back = omega arith }, omega (arith, l))
soft_break-Works m (b ∷ s) r v l =
    let r' = record r { line = b ∷ s; last = [] } in
    less-Works m (work r') (work r) (plain (b ∷ s) r') (omega (arith, l)) (
      plain-Works m (b ∷ s) r' (record { array = v.array; held_back = omega arith }) refl
        (omega arith))

pub either-Works :
    (m w : ℕ) (b : Bool) (x y : Option Round)
    → (b ≡ true → Works m w x)
    → (b ≡ false → Works m w y)
    → Works m w (if b then x else y)
either-Works m w true x y h k = h refl
either-Works m w false x y h k = k refl

pub not_zero : (n : ℕ) → (n == 0) ≡ false → 1 ≤ n
not_zero n h = ground arith

-- The line is not empty where bytes are held back and given.
pub held-Works :
    (m b : ℕ) (s : Bytes) (r : Reader)
    → IsValid r
    → r.last ≡ b ∷ s
    → 0 < length r.line
    → Works m (work r) (held b s r)
unfolding held
held-Works m b s r v e l =
    let held_length : length r.last ≡ suc (length s) = ap (λ t. length t) e in
    either-Works m (work r) (b == b'=') _ _
      (λ q.
        either-Works m (work r) (length s == 0) _ _
          (λ z.
            let alone : length s ≡ 0 = (==_iff (length s) 0).0 z in
            either-Works m (work r) (has_prefix r.line (b'\n' ∷ [])) _ _
              (λ p. soft_break-Works m (drop 1 r.line) r v (omega (arith, l, length-drop 1 r.line)))
              (λ p.
                either-Works m (work r) (has_prefix r.line (b'\r' ∷ b'\n' ∷ [])) _ _
                  (λ p.
                    soft_break-Works m (drop 2 r.line) r v (omega (arith, l, length-drop 2 r.line)))
                  (λ p.
                    either-Works m (work r) (ltb (length r.line) 2) _ _
                      (λ t.
                        let one : length r.line ≡ 1 =
                          omega (arith, l, ltb→lt (length r.line) 2 t) in
                        hold-Works 2 0 r r.line 1 v one (omega (arith, one)) (omega arith)
                          (omega (arith, held_length)) m)
                      (λ t.
                        let two = ltb-false→le (length r.line) 2 t in
                        complete-Works m 1 r v (omega (arith, held_length, alone))
                          (omega (arith, two))))))
          (λ z.
            complete-Works m (suc (length s)) r v (sym held_length)
              (omega (arith, l, not_zero (length s) z))))
      (λ q.
        unfold Works in
        (
          record { array = v.array; held_back = omega (arith, v.held_back, held_length) },
          omega (arith, held_length),
        ))
