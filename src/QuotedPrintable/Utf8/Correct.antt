-- ===== src/QuotedPrintable/Utf8/Correct.antt =====
-- What `cycle` makes of a text, in terms of the bytes alone.
use mime.Base.{ℕ, ◌+◌, ◌<◌, ◌++◌, true, false, some, length, ◌≡◌, inr}
use mime.Base.Bytes.{Bytes}
use mime.QuotedPrintable.Utf8.Lossless.{
  no_breaks, Breaks, intact, at_newline, next_all-no_breaks, next_all-exact,
}
use mime.QuotedPrintable.Utf8.Refines.{Rel}
use mime.QuotedPrintable.Utf8.Rounds.{cycle-Gives}
use mime.QuotedPrintable.Utf8.Spec.{Held, text, next_all}
use mime.QuotedPrintable.Utf8.{QpUtf8, cycle}

-- What `cycle` has given, and what it holds then.
pub record Cycled (max n i : ℕ) (bs out : Bytes) (q : QpUtf8) : Type 0 where
  pub after : QpUtf8
  pub given : Bytes
  pub held : Held
  pub runs : cycle max n i bs q out ≡ some (after, out ++ given, true)
  pub stands : Rel after held

-- Where `p` has room, `cycle` loses nothing but line ends: without these, the bytes that it gives
-- and those that it holds then are the bytes that it held and those that it read, in this order.
pub cycle-no_breaks :
    (max n i : ℕ) (bs out : Bytes) (q : QpUtf8) (h : Held)
    → Rel q h
    → Breaks h
    → length out + length (text h) + length bs < max
    → (c : Cycled max n i bs out q) × (no_breaks (c.given ++ text c.held)
        ≡ no_breaks (text h ++ bs))
cycle-no_breaks max n i bs out q h r k l =
    let (after, runs, stands) = cycle-Gives max n i bs out q h r l in
    (
      record {
        after = after;
        given = (next_all h bs).0;
        held = (next_all h bs).1;
        runs = runs;
        stands = stands;
      },
      next_all-no_breaks h bs k,
    )

-- Where `p` has room, and no line feed in the text is followed by a continuation byte, as in
-- well-formed UTF-8, `cycle` gives the text as it is, up to the bytes that it holds at the end.
pub cycle-exact :
    (max n i : ℕ) (bs out : Bytes) (q : QpUtf8) (h : Held)
    → Rel q h
    → at_newline h ≡ false
    → intact false bs ≡ true
    → length out + length (text h) + length bs < max
    → (c : Cycled max n i bs out q) × (c.given ++ text c.held ≡ text h ++ bs)
cycle-exact max n i bs out q h r k e l =
    let (after, runs, stands) = cycle-Gives max n i bs out q h r l in
    (
      record {
        after = after;
        given = (next_all h bs).0;
        held = (next_all h bs).1;
        runs = runs;
        stands = stands;
      },
      next_all-exact h false bs (inr k) e,
    )
