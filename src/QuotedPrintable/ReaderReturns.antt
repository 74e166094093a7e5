-- ===== src/QuotedPrintable/ReaderReturns.antt =====
-- quotedprintable/reader.go: `Read` returns, and does not panic.
use mime.Base.{
  ℕ, zero, suc, ◌<◌, ◌≤◌, [], ◌∷◌, true, Option, none, some, ◌==◌, length, ◌≡◌, refl, ap, arith,
}
use mime.Base.Array.{◌>>=◌}
use mime.Base.Bytes.{Bytes}
use mime.Multipart.Bufio.{}
use mime.QuotedPrintable.Reader.{
  QpError, Reader, Round, ReadResult, with_last, round, read, put, returns, gives, goes_on,
}
use mime.QuotedPrintable.ReaderWork.{IsValid, Works, work}
use mime.QuotedPrintable.ReaderHeld.{either-Works, held-Works, not_zero, plain-Works}
use mime.QuotedPrintable.ReaderFill.{fill-Works}

with_last-Works :
    (m : ℕ) (s : Bytes) (r : Reader)
    → IsValid r
    → r.last ≡ s
    → 0 < length r.line
    → Works m (work r) (with_last s r)
with_last-Works m [] r v e h = plain-Works m r.line r v refl h
with_last-Works m (b ∷ s) r v e h = held-Works m b s r v e h

round-Works : (m : ℕ) (r : Reader) → IsValid r → Works m (work r) (round m r)
unfolding round
round-Works m r v =
    either-Works m (work r) (length r.line == 0) _ _ (λ z. fill-Works m r v (empty r.line z))
      (λ z. with_last-Works m r.last r v refl (omega (arith, not_zero (length r.line) z)))
  where
    empty : (s : Bytes) → (length s == 0) ≡ true → s ≡ []
    empty [] h = refl
    empty (b ∷ s) h = ground arith

-- What a call of `Read` gives: no more bytes than there is room for, and a reader that can be called
-- again.
pub record Gives (n : ℕ) (o : Option ReadResult) : Type 0 where
  pub reader : Reader
  pub bytes : Bytes
  pub error : Option QpError
  pub result : o ≡ some (reader, bytes, error)
  pub fits : length bytes ≤ n
  pub valid : IsValid reader

-- what `Read` makes of a round
abbrev after_round : ℕ → ℕ → Option Round → Option ReadResult
after_round fuel n o = elim o [
  | none ↦ none
  | some (returns r' d e) ↦ some (r', d, some e)
  | some (goes_on r') ↦ read fuel (suc n) r'
  | some (gives r' b) ↦ read fuel n r' >>= λ q. some (put b q)
]

after_round-Gives :
    (fuel n w : ℕ) (o : Option Round)
    → Works (suc n) w o
    → w ≤ fuel
    → ((m : ℕ) (r : Reader) → IsValid r → work r < fuel → Gives m (read fuel m r))
    → Gives (suc n) (after_round fuel n o)
unfolding Works
after_round-Gives fuel n w none x l ih = absurd x
after_round-Gives fuel n w (some (returns r d e)) (v, k) l ih = record {
  reader = r;
  bytes = d;
  error = some e;
  result = refl;
  fits = k;
  valid = v;
}
after_round-Gives fuel n w (some (goes_on r)) (v, k) l ih = ih (suc n) r v (omega arith)
after_round-Gives fuel n w (some (gives r b)) (v, k) l ih =
    let g = ih n r v (omega arith) in
    record {
      reader = g.reader;
      bytes = b ∷ g.bytes;
      error = g.error;
      result = ap (λ (o : Option ReadResult). o >>= λ q. some (put b q)) g.result;
      fits = omega (arith, g.fits);
      valid = g.valid;
    }

-- `Read` returns and does not panic: with more fuel than the bound on the work of the reader, it gives
-- a result with at most as many bytes as there is room for, and keeps the invariant of the reader.
pub read-Gives : (fuel n : ℕ) (r : Reader) → IsValid r → work r < fuel → Gives n (read fuel n r)
unfolding read
read-Gives fuel zero r v h = record {
  reader = r;
  bytes = [];
  error = none;
  result = refl;
  fits = omega arith;
  valid = v;
}
read-Gives zero (suc n) r v h = absurd (omega arith)
read-Gives (suc fuel) (suc n) r v h =
    after_round-Gives fuel n (work r) (round (suc n) r) (round-Works (suc n) r v) (omega arith)
      (λ m r' v' l. read-Gives fuel m r' v' l)
