-- ===== src/Tests/Utf8.antt =====
-- quotedprintable/qputf8.go
use mime.Base.{[], ◌∷◌, ◌++◌, true, false, ◌≡◌, refl, arith}
use mime.Base.Bytes.{Bytes}
use mime.QuotedPrintable.Utf8.Correct.{Cycled, cycle-no_breaks, cycle-exact}
use mime.QuotedPrintable.Utf8.Lossless.{no_breaks, intact}
use mime.QuotedPrintable.Utf8.Refines.{Rel, Gives}
use mime.QuotedPrintable.Utf8.Rounds.{cycle-Gives}
use mime.QuotedPrintable.Utf8.Spec.{idle, text, next_all}
use mime.QuotedPrintable.Utf8.{new_qp_utf8, cycle}

-- an e with an acute accent that a line break divides, and a euro sign
abbrev divided : Bytes
divided = b'a' ∷ 0xC3 ∷ 0x0D ∷ 0x0A ∷ 0xA9 ∷ 0xE2 ∷ 0x82 ∷ 0xAC ∷ b'b' ∷ []

abbrev whole : Bytes
whole = b'a' ∷ 0x0D ∷ 0x0A ∷ 0xE2 ∷ 0x82 ∷ 0xAC ∷ b'b' ∷ []

new-Rel : Rel new_qp_utf8 idle
new-Rel = (refl, record { six = refl; fresh = refl; counted = refl; front = refl })

cycle-Gives_example : Gives [] (next_all idle divided) (cycle 20 9 0 divided new_qp_utf8 [])
cycle-Gives_example = cycle-Gives 20 9 0 divided [] new_qp_utf8 idle new-Rel (omega arith)

cycle-no_breaks_example :
    (c : Cycled 20 9 0 divided [] new_qp_utf8) × (no_breaks (c.given ++ text c.held)
      ≡ no_breaks (text idle ++ divided))
cycle-no_breaks_example =
    cycle-no_breaks 20 9 0 divided [] new_qp_utf8 idle new-Rel tt (omega arith)

whole-intact : intact false whole ≡ true
unfolding intact
whole-intact = refl

cycle-exact_example :
    (c : Cycled 20 7 0 whole [] new_qp_utf8) × (c.given ++ text c.held ≡ text idle ++ whole)
cycle-exact_example =
    cycle-exact 20 7 0 whole [] new_qp_utf8 idle new-Rel refl whole-intact (omega arith)
