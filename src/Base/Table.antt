-- ===== src/Base/Table.antt =====
-- A test checked at every number below a bound.
use Prim.Native.Nat.{ℕ, zero, suc, ◌<◌}
use mathlib.Core.Bool.{Bool, true, false, not, ◌||◌}
use mathlib.Core.Path.{◌≡◌}
use mime.Base.Tests.{if◌then◌else◌}
use native.Mathlib.Omega.{arith}

unfoldable pub every_under : (ℕ → Bool) → ℕ → Bool
every_under test zero = true
every_under test (suc limit) = if test limit then every_under test limit else false

pub every_under_sound :
    (test : ℕ → Bool) (limit n : ℕ) → every_under test limit ≡ true → n < limit → test n ≡ true
unfolding every_under
every_under_sound test zero n all small = elim small [ ]
every_under_sound test (suc limit) n all small = ground (arith, every_under_sound test limit n)

abbrev pub implies : Bool → Bool → Bool
implies a b = not a || b

pub every_under-implies :
    (premise conclusion : ℕ → Bool) (limit : ℕ)
    → every_under (λ c. implies (premise c) (conclusion c)) limit ≡ true
    → (n : ℕ) → n < limit
    → premise n ≡ true
    → conclusion n ≡ true
every_under-implies premise conclusion limit all n small holds =
    ground (arith, every_under_sound (λ c. implies (premise c) (conclusion c)) limit n all small)
