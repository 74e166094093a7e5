-- ===== src/QuotedPrintable/Utf8/Refines.antt =====
-- The buffers and counters of qputf8.go implement the specification, as long as `p` has room.
use mime.Base.Array.{◌>>=◌, store-Stored}
use mime.Base.{
  ℕ, zero, suc, ◌+◌, ◌-◌, ◌<◌, ◌≤◌, [], ◌∷◌, ◌++◌, Bool, true, false, Option, some, leb, take, drop,
  length, get_elem?, ◌≡◌, refl, ap, sym, ◌∙◌, arith, append_assoc, append-nil, length-append,
}
use mime.Base.Bytes.{Bytes}
use mime.QuotedPrintable.Utf8.Spec.{Held, idle, sequence, return, newline, mended}
use mime.QuotedPrintable.Utf8.{
  State, normal, start, cr, lf, continued, release, release_restart, QpUtf8, put, hold,
  release_loop, release_own, reset, settled, settle, restart_with,
}

-- Taking what is held: the next `n` bytes of the array, from `i` on.
get-drop :
    (own : Bytes) (i n : ℕ) (b : ℕ) (t : Bytes)
    → take (suc n) (drop i own) ≡ b ∷ t
    → (get_elem? own i ≡ some b) × (take n (drop (suc i) own) ≡ t)
get-drop [] zero n b t h = ground arith
get-drop [] (suc i) n b t h = ground arith
get-drop (x ∷ own) zero n b t h = ground arith
get-drop (x ∷ own) (suc i) n b t h = get-drop own i n b t h

add-one : (n : ℕ) → n + 1 ≡ suc n
add-one n = omega arith

lt→leb : (a b : ℕ) → b < a → leb a b ≡ false
lt→leb a b h = ground arith

pub put_room :
    (max : ℕ) (out : Bytes) (b : ℕ) → length out < max → put max out b ≡ some (out ++ b ∷ [])
unfolding put
put_room max out b h = ground arith

reset_cco :
    (q : QpUtf8) (n : ℕ) (restart : Bool) → reset (record q { cco = n }) restart ≡ reset q restart
reset_cco q n true = refl
reset_cco q n false = refl

-- The loop of `release`, where `p` has room for all that is held.
release_loop-room :
    (max : ℕ) (restart : Bool) (q : QpUtf8) (s out : Bytes)
    → take (length s) (drop q.cco q.own) ≡ s
    → length out + length s < max
    → release_loop (length s) max restart q out
      ≡ (reset q restart >>= λ q'. some (q', out ++ s, true))
unfolding release_loop
release_loop-room max restart q [] out h l = rw (append-nil out) refl
release_loop-room max restart q (b ∷ s) out h l =
    let (got, rest) = get-drop q.own q.cco (length s) b s h in
    let moved = ap (λ n. take (length s) (drop n q.own)) (add-one q.cco) ∙ rest in
    let q' = record q { cco = q.cco + 1 } in
    rw
      (
        got,
        put_room max out b (omega arith),
        lt→leb max (length (out ++ b ∷ [])) (omega (arith, length-append out (b ∷ []))),
        release_loop-room max restart q' s (out ++ b ∷ []) moved
            (omega (arith, length-append out (b ∷ []))),
        reset_cco q (q.cco + 1) restart,
        append_assoc out (b ∷ []) s,
      )
      refl

-- The buffer holds these bytes, and none has been given yet.
pub record Holds (q : QpUtf8) (s : Bytes) : Type 0 where
  pub six : length q.own ≡ 6
  pub fresh : q.cco ≡ 0
  pub counted : q.pco ≡ length s
  pub front : take q.pco q.own ≡ s

-- The state of the code stands for a state of the specification.
abbrev pub Rel : QpUtf8 → Held → Type 0
Rel q idle = (q.state ≡ normal) × Holds q []
Rel q (sequence s) = (q.state ≡ start) × Holds q s × (length s ≤ 3)
Rel q (return s) = (q.state ≡ cr) × Holds q (s ++ 0x0D ∷ []) × (q.pos ≡ length s) × (length s ≤ 3)
Rel q (newline s k) =
    (q.state ≡ lf) × Holds q (s ++ k) × (q.pos ≡ length s) × (length s ≤ 3) × (length k ≤ 2)
Rel q (mended s) = (q.state ≡ continued) × Holds q s × (length s ≤ 5)

-- A round that does not fill `p` gives `o`, and leaves a state that stands for `h`.
abbrev pub Gives : Bytes → Bytes × Held → Option (QpUtf8 × Bytes × Bool) → Type 0
Gives out (o, h) r = (q : QpUtf8) × (r ≡ some (q, out ++ o, true)) × Rel q h

module _ (max : ℕ) (out : Bytes) where
  release_own-room :
      (q : QpUtf8) (s : Bytes) (restart : Bool)
      → Holds q s
      → length out + length s < max
      → release_own max restart q out ≡ (reset q restart >>= λ q'. some (q', out ++ s, true))
  unfolding release_own
  release_own-room q s restart h l =
      let all : q.pco - q.cco ≡ length s = omega (arith, h.fresh, h.counted) in
      let held =
        ap (λ n. take (length s) (drop n q.own)) h.fresh
        ∙ ap (λ n. take n q.own) (sym h.counted)
        ∙ h.front in
      ap (λ n. release_loop n max restart q out) all ∙ release_loop-room max restart q s out held l

  -- All that is held is given.
  release-Gives :
      (q : QpUtf8) (s : Bytes)
      → Holds q s
      → length out + length s < max
      → Gives out (s, idle) (release_own max false q out)
  release-Gives q s h l = (
    record q { cco = 0; pco = 0; state = normal },
    release_own-room q s false h l,
    (refl, record { six = h.six; fresh = refl; counted = refl; front = refl }),
  )

  -- And a new sequence begins.
  restart-Gives :
      (q : QpUtf8) (s : Bytes)
      → Holds q s
      → length out + length s < max
      → Gives out (s, sequence (q.last ∷ [])) (release_own max true q out)
  restart-Gives q s h l =
      let w = store-Stored q.own 0 q.last (omega (arith, h.six)) in
      (
        record q { cco = 0; own = w.after; pco = 1; state = start },
        release_own-room q s true h l ∙ rw w.stores refl,
        (
          refl,
          record { six = w.keeps ∙ h.six; fresh = refl; counted = refl; front = w.front },
          omega arith,
        ),
      )

  -- A byte is put behind those that are held.
  hold-Holds :
      (q : QpUtf8) (s : Bytes) (b : ℕ) (st : State)
      → Holds q s
      → length s < 6
      → (own : Bytes) × (hold q b st ≡ some (record q { own = own; pco = q.pco + 1; state = st }))
        × Holds (record q { own = own; pco = q.pco + 1; state = st }) (s ++ b ∷ [])
  unfolding hold
  hold-Holds q s b st h l =
      let w = store-Stored q.own q.pco b (omega (arith, h.six, h.counted)) in
      (
        w.after,
        rw w.stores refl,
        record {
          six = w.keeps ∙ h.six;
          fresh = h.fresh;
          counted = omega (arith, h.counted, length-append s (b ∷ []));
          front =
              ap (λ n. take n w.after) (add-one q.pco) ∙ w.front ∙ ap (λ z. z ++ b ∷ []) h.front;
        },
      )

  pub keep-Gives : (q : QpUtf8) (h : Held) → Rel q h → Gives out ([], h) (some (q, out, true))
  keep-Gives q h r = (q, ap (λ z. some (q, z, true)) (sym (append-nil out)), r)

  -- A byte is held, and no more.
  pub hold-Gives :
      (q : QpUtf8) (s : Bytes) (b : ℕ) (st : State) (h : Held)
      → Holds q s
      → length s < 6
      → ((q' : QpUtf8) → settle max st q' out ≡ some (q', out, true))
      → ((own : Bytes)
          → Holds (record q { own = own; pco = q.pco + 1; state = st }) (s ++ b ∷ [])
          → Rel (record q { own = own; pco = q.pco + 1; state = st }) h)
      → Gives out ([], h) (settled max (hold q b st) out)
  hold-Gives q s b st h held l quiet rel =
      let (own, eq, now) = hold-Holds q s b st held l in
      rw (eq, quiet (record q { own = own; pco = q.pco + 1; state = st }))
        (keep-Gives (record q { own = own; pco = q.pco + 1; state = st }) h (rel own now))

  -- A byte is held, and all is given.
  pub flush-Gives :
      (q : QpUtf8) (s : Bytes) (b : ℕ)
      → Holds q s
      → length s < 6
      → length out + length s + 1 < max
      → Gives out (s ++ b ∷ [], idle) (settled max (hold q b release) out)
  flush-Gives q s b held l room =
      let (own, eq, now) = hold-Holds q s b release held l in
      rw eq (
        release-Gives (record q { own = own; pco = q.pco + 1; state = release }) (s ++ b ∷ []) now
          (omega (arith, length-append s (b ∷ []))))

  -- A new sequence begins, and all is given.
  pub lead-Gives :
      (q : QpUtf8) (s : Bytes) (b : ℕ)
      → Holds q s
      → length out + length s + 1 < max
      → Gives out (s, sequence (b ∷ [])) (settled max (restart_with q b) out)
  lead-Gives q s b h l =
      restart-Gives (record q { last = b; state = release_restart }) s
        (record { six = h.six; fresh = h.fresh; counted = h.counted; front = h.front })
        (omega arith)
