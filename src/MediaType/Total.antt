-- ===== src/MediaType/Total.antt =====
-- `ParseMediaType` always returns: the length of its input is fuel enough.
use mime.Base.{
  ℕ, suc, zero, ◌<◌, ◌≤◌, [], ◌∷◌, true, false, not, Bool, none, some, Option, length, drop, ◌≡◌,
  ◌≢◌, ◌⊎◌, inl, inr, refl, arith, length-drop, Bool-cases, if◌then◌else◌,
}
use mime.Base.Bytes.{Bytes, codes, equal}
use mime.MediaType.Consume.{consume_media_param}
use mime.MediaType.Errors.{MediaError, PmtErr, is_ok_pmt_error}
use mime.MediaType.Parse.{
  State, Params, Parsed, Outcome, more, break, return, out_of_fuel, is_nil, no_key, store,
  param_round, param_loop, start, type_end, finish, parse_params, parse_media_type,
}
use mime.MediaType.Shrink.{Leaves, trim_left-le, consume_media_param-Leaves}
use mime.Runes.Strings.{trim_left, trim_space}

-- The parameters are there, or the error is one that `IsOkPMTError` keeps.
abbrev pub Usable : Parsed → Type 0
Usable p = ((m : Params) × (p.params ≡ some m)) ⊎ (is_ok_pmt_error p.error ≢ none)

-- The round goes on with less than `n` bytes, or ends the loop.
abbrev Goes : ℕ → Outcome → Type 0
Goes n (more st rest) = length rest < n
Goes n (break st) = Unit
Goes n (return p) = Usable p
Goes n out_of_fuel = ⊥

-- The loop has ended by itself.
abbrev Ends : Outcome → Type 0
Ends (more st rest) = ⊥
Ends (break st) = Unit
Ends (return p) = Usable p
Ends out_of_fuel = ⊥

module _ (unicode_lower : ℕ → ℕ) (media_type : Bytes) where
  no_key-Goes :
      (n : ℕ) (st : State) (rest : Bytes) → Goes n (no_key unicode_lower media_type st rest)
  unfolding no_key is_ok_pmt_error
  no_key-Goes n st rest = elim (Bool-cases (equal (trim_space rest) (codes ";"))) [
    | inl e ↦ rw e (inl (_, refl))
    | inr e ↦ elim (Bool-cases (not (is_nil media_type))) [
      | inl f ↦ rw (e, f) (inl (_, refl))
      | inr f ↦ rw (e, f) (inr (λ e. cc))
    ]
  ]

  -- The round's outcome, by what `consume_media_param` gives.
  round_of-Goes :
      (st : State) (v : Bytes) (n : ℕ) (read : Bytes × Bytes × Bytes)
      → Leaves n read
      → Goes n (
          if is_nil read.0
          then no_key unicode_lower media_type st read.2
          else more (store st read.0 read.1) read.2)
  round_of-Goes st v n (key, value, rest) (inl e) = rw e (no_key-Goes n st rest)
  round_of-Goes st v n ([], value, rest) (inr h) = no_key-Goes n st rest
  round_of-Goes st v n (b ∷ key, value, rest) (inr h) = h

  Goes-mono : (m n : ℕ) (o : Outcome) → m ≤ n → Goes m o → Goes n o
  Goes-mono m n (more st rest) h g = omega arith
  Goes-mono m n (break st) h g = tt
  Goes-mono m n (return p) h g = g
  Goes-mono m n out_of_fuel h g = g

  param_round-Goes :
      (st : State) (v : Bytes) → Goes (length v) (param_round unicode_lower media_type st v)
  unfolding param_round
  param_round-Goes st v = elim (Bool-cases (is_nil (trim_left v))) [
    | inl e ↦ rw e tt
    | inr e ↦ rw e (
        Goes-mono (length (trim_left v)) (length v) _ (trim_left-le v) (
          round_of-Goes st v (length (trim_left v))
            (consume_media_param unicode_lower (trim_left v))
            (consume_media_param-Leaves unicode_lower (trim_left v))))
  ]

  -- The loop goes on as the outcome of its round says.
  param_loop-Ends :
      (fuel : ℕ) (st : State) (v : Bytes)
      → length v ≤ fuel
      → Ends (param_loop unicode_lower media_type fuel st v)
  unfolding param_loop
  param_loop-Ends zero st [] h = tt
  param_loop-Ends (suc fuel) st [] h = tt
  param_loop-Ends zero st (b ∷ v) h = absurd (omega arith)
  param_loop-Ends (suc fuel) st (b ∷ v) h =
      elim (param_round unicode_lower media_type st (b ∷ v))
          as (λ o.
            Goes (length (b ∷ v)) o
            → Ends (elim o [
              | more st' rest ↦ param_loop unicode_lower media_type fuel st' rest
              | break st' ↦ break st'
              | return p ↦ return p
              | out_of_fuel ↦ out_of_fuel
            ])) [
              | more st' rest ↦ λ g. param_loop-Ends fuel st' rest (omega arith)
              | break st' ↦ λ g. tt
              | return p ↦ λ g. g
              | out_of_fuel ↦ λ g. g
            ]
        (param_round-Goes st (b ∷ v))

-- The code returned a result, and it is usable.
abbrev pub Returns : Option Parsed → Type 0
Returns o = (p : Parsed) × (o ≡ some p) × Usable p

finish-Returns :
    (unicode_lower : ℕ → ℕ) (media_type : Bytes) (o : Outcome)
    → Ends o
    → Returns (finish unicode_lower media_type o)
unfolding finish
finish-Returns unicode_lower media_type (more st rest) h = absurd h
finish-Returns unicode_lower media_type (break st) h = (_, refl, inl (_, refl))
finish-Returns unicode_lower media_type (return p) h = (p, refl, h)
finish-Returns unicode_lower media_type out_of_fuel h = absurd h

if-Returns :
    (bad : Bool) (p : Parsed) (o : Option Parsed)
    → Usable p
    → Returns o
    → Returns (if bad then some p else o)
if-Returns true p o u r = (p, refl, u)
if-Returns false p o u r = r

parse_params-Returns :
    (unicode_lower : ℕ → ℕ) (checked : PmtErr × Bytes × Option MediaError) (rest : Bytes) (fuel : ℕ)
    → length rest ≤ fuel
    → Returns (parse_params unicode_lower checked fuel rest)
unfolding parse_params is_ok_pmt_error
parse_params-Returns unicode_lower (p, media_type, none) rest fuel h =
    finish-Returns unicode_lower media_type _
      (param_loop-Ends unicode_lower media_type fuel (start p none) rest h)
parse_params-Returns unicode_lower (p, media_type, some error) rest fuel h =
    if-Returns p.bad _ _ (inr (λ e. cc)) (
      finish-Returns unicode_lower media_type _
        (param_loop-Ends unicode_lower media_type fuel (start p (some error)) rest h))

-- `ParseMediaType` returns, whatever text it is given: every round of its loop leaves less than it
-- found, so that the length of the text is fuel enough. Its parameters are nil only along with an
-- error that `IsOkPMTError` keeps.
pub parse_media_type-Returns :
    (unicode_lower : ℕ → ℕ) (v : Bytes) → Returns (parse_media_type unicode_lower v)
unfolding parse_media_type
parse_media_type-Returns unicode_lower v =
    parse_params-Returns unicode_lower _ (drop (type_end v) v) (length v)
      (omega (arith, length-drop (type_end v) v))
