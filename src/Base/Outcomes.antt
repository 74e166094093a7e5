-- ===== src/Base/Outcomes.antt =====
-- What holds of the result of a loop on fuel, where `none` stands for no end.
use mime.Base.Array.{◌>>=◌}
use mathlib.Core.Bool.{Bool, true, false}
use mathlib.Core.Option.{Option, none, some}
use mathlib.Core.Path.{◌≡◌, refl}
use mime.Base.Tests.{if◌then◌else◌}

-- A property of what a computation gives, if it gives something.
abbrev pub OnSome {ℓ κ} : {A : Type ℓ} → (A → Type κ) → Option A → Type κ
OnSome P none = Unit
OnSome P (some a) = P a

pub OnSome-bind {ℓ κ μ} :
    {A : Type ℓ} {B : Type κ} (P : B → Type μ) (o : Option A) (f : A → Option B)
    → ((a : A) → OnSome P (f a))
    → OnSome P (o >>= f)
OnSome-bind P none f h = tt
OnSome-bind P (some a) f h = h a

pub OnSome-bind_given {ℓ κ μ ν} :
    {A : Type ℓ} {B : Type κ} (Q : A → Type ν) (P : B → Type μ) (o : Option A) (f : A → Option B)
    → OnSome Q o
    → ((a : A) → Q a → OnSome P (f a))
    → OnSome P (o >>= f)
OnSome-bind_given Q P none f q h = tt
OnSome-bind_given Q P (some a) f q h = h a q

pub if-OnSome {ℓ κ} :
    {A : Type ℓ} (P : A → Type κ) (b : Bool) (o q : Option A)
    → (b ≡ true → OnSome P o)
    → (b ≡ false → OnSome P q)
    → OnSome P (if b then o else q)
if-OnSome P true o q h k = h refl
if-OnSome P false o q h k = k refl

-- The computation gives something, which has the property.
abbrev pub Gives {ℓ} : {A : Type ℓ} → (A → Type 0) → Option A → Type 0
Gives P none = ⊥
Gives P (some a) = P a

pub Gives-bind {ℓ κ} :
    {A : Type ℓ} {B : Type κ} (Q : A → Type 0) (P : B → Type 0) (o : Option A) (f : A → Option B)
    → Gives Q o
    → ((a : A) → Q a → Gives P (f a))
    → Gives P (o >>= f)
Gives-bind Q P none f h k = absurd h
Gives-bind Q P (some a) f q h = h a q

pub if-Gives {ℓ} :
    {A : Type ℓ} (P : A → Type 0) (b : Bool) (o q : Option A)
    → (b ≡ true → Gives P o)
    → (b ≡ false → Gives P q)
    → Gives P (if b then o else q)
if-Gives P true o q h k = h refl
if-Gives P false o q h k = k refl

pub Gives-mono {ℓ} :
    {A : Type ℓ} (P : A → Type 0) (Q : A → Type 0) (o : Option A)
    → ((a : A) → P a → Q a)
    → Gives P o
    → Gives Q o
Gives-mono P Q none h k = absurd k
Gives-mono P Q (some a) h p = h a p

-- A computation that gives something gives it with what is known of it.
pub Gives-OnSome {ℓ} :
    {A : Type ℓ} (P : A → Type 0) (Q : A → Type 0) (o : Option A)
    → Gives P o
    → OnSome Q o
    → Gives Q o
Gives-OnSome P Q none p q = absurd p
Gives-OnSome P Q (some a) p q = q

pub Gives-both {ℓ} :
    {A : Type ℓ} (P Q : A → Type 0) (o : Option A)
    → Gives P o
    → Gives Q o
    → Gives (λ a. P a × Q a) o
Gives-both P Q none p q = absurd p
Gives-both P Q (some a) p q = (p, q)
