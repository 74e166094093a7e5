-- ===== src/MediaType/Parse.antt =====
-- mediatype.go: `ParseMediaType`.
use mime.Base.Bytes
use mime.Base.Dict
use mime.MediaType.Consume
use mime.MediaType.Errors
use mime.MediaType.Percent
use mime.Runes.Strings
use mime.Base.{
  ℕ, zero, suc, ◌+◌, ◌/◌, ◌%◌, List, [], ◌∷◌, ◌++◌, Bool, true, false, not, Option, none, some, ltb,
  ◌==◌, if◌then◌else◌, take, drop, length, ◌≡◌, refl,
}
use mime.Base.Bytes.{Bytes, codes, equal, index_byte}
use mime.Base.Dict.{lookup, insert}
use mime.MediaType.Consume.{consume_media_param}
use mime.MediaType.Errors.{
  MediaError, no_media_type, no_slash, invalid_param, duplicate_param, PmtErr, GoError, plain,
  merged, no_errors, add, lossy_check,
}
use mime.MediaType.Percent.{decode_2231_enc, percent_hex_unescape, unescaped_or_empty}
use mime.Runes.Strings.{to_lower, trim_left, trim_space}

abbrev pub Params : Type 0
Params = List (Bytes × Bytes)

-- the three results of `ParseMediaType`; `none` is a nil map, and a nil error
pub record Parsed : Type 0 where
  pub media_type : Bytes
  pub params : Option Params
  pub error : Option GoError

-- The variables of the loop. `gerr` is nil or the pointer `p`, so that a flag says which, and a
-- later `p.add` shows in it.
pub record State : Type 0 where
  pub pmt : PmtErr
  pub gerr : Bool
  pub params : Params
  pub continuation : List (Bytes × Params)

abbrev pub error_of : State → Option GoError
error_of st = if st.gerr then some (merged st.pmt) else none

abbrev pub returned : Bytes → State → Parsed
returned media_type st = record {
  media_type = media_type;
  params = some st.params;
  error = error_of st;
}

-- `gerr = p.add(e)`
abbrev note : State → MediaError → State
note st e = record st { pmt = add st.pmt e; gerr = true }

abbrev or_no_params : Option Params → Params
or_no_params none = []
or_no_params (some m) = m

-- The part of the loop that stores a parameter: in `params`, or if the name has a `*` in the
-- continuation of the name before it. The first of two values stays.
unfoldable pub store : State → Bytes → Bytes → State
store st key value = elim (index_byte key b'*') [
  | none ↦ elim (lookup key st.params) [
    | none ↦ record st { params = insert key value st.params }
    | some _ ↦ note st duplicate_param
  ]
  | some idx ↦
      let base = take idx key in
      let pmap = or_no_params (lookup base st.continuation) in
      elim (lookup key pmap) [
        | none ↦ record st { continuation = insert base (insert key value pmap) st.continuation }
        | some _ ↦ note st duplicate_param
      ]
]

abbrev pub is_nil : Bytes → Bool
is_nil [] = true
is_nil (_ ∷ _) = false

-- how a round of the loop, or the loop, ends
pub data Outcome : Type 0 where
  more : State → Bytes → Outcome
  break : State → Outcome
  return : Parsed → Outcome
  out_of_fuel : Outcome

-- decimal digits, as `%d` prints them
unfoldable pub decimal_onto : ℕ → ℕ → Bytes → Bytes
decimal_onto zero n rest = rest
decimal_onto (suc fuel) n rest =
    let longer = decimal_onto fuel (n / 10) ((b'0' + n % 10) ∷ rest) in
    if ltb n 10 then (b'0' + n) ∷ rest else longer

unfoldable pub decimal : ℕ → Bytes
decimal n = decimal_onto (suc n) n []

module _ (unicode_lower : ℕ → ℕ) (media_type : Bytes) where
  -- a round whose `key` is empty
  unfoldable pub no_key : State → Bytes → Outcome
  no_key st rest =
      if equal (trim_space rest) (codes ";")
      then return (returned media_type st)
      else if not (is_nil media_type)
      then return (returned media_type (note st invalid_param))
      else return (record { media_type = []; params = none; error = some (plain invalid_param) })

  -- one round of the loop on a non-empty `v`
  unfoldable pub param_round : State → Bytes → Outcome
  param_round st v =
      let v' = trim_left v in
      let (key, value, rest) = consume_media_param unicode_lower v' in
      if is_nil v'
      then break st
      else if is_nil key
      then no_key st rest
      else more (store st key value) rest

  -- the loop over the parameters
  unfoldable pub param_loop : ℕ → State → Bytes → Outcome
  param_loop fuel st [] = break st
  param_loop zero st (b ∷ v) = out_of_fuel
  param_loop (suc fuel) st (b ∷ v) = elim (param_round st (b ∷ v)) [
    | more st' rest ↦ param_loop fuel st' rest
    | break st' ↦ break st'
    | return p ↦ return p
    | out_of_fuel ↦ out_of_fuel
  ]

module _ (unicode_lower : ℕ → ℕ) (pieces : Params) (key : Bytes) where
  -- The loop over the numbered pieces of one parameter: `valid` and the buffer.
  unfoldable pub join_pieces : ℕ → ℕ → Bool → Bytes → Bool × Bytes
  join_pieces zero n valid buf = (valid, buf)
  join_pieces (suc fuel) n valid buf =
      let simple = key ++ (b'*' ∷ decimal n) in
      elim (lookup simple pieces) [
        | some v ↦ join_pieces fuel (suc n) true (buf ++ v)
        | none ↦ elim (lookup (simple ++ b'*' ∷ []) pieces) [
          | some v ↦
              let first = decode_2231_enc unicode_lower v in
              let later = unescaped_or_empty (percent_hex_unescape v) in
              join_pieces fuel (suc n) true (buf ++ (if n == 0 then first else later))
          | none ↦ (valid, buf)
        ]
      ]

  -- one round of the loop over the continuations
  unfoldable pub stitch_one : Params → Params
  stitch_one params = elim (lookup (key ++ b'*' ∷ []) pieces) [
    | some v ↦ insert key (decode_2231_enc unicode_lower v) params
    | none ↦
        let (valid, buf) = join_pieces (suc (length pieces)) 0 false [] in
        if valid then insert key buf params else params
  ]

abbrev pub start : PmtErr → Option MediaError → State
start p e = record {
  pmt = p;
  gerr = elim e [ none ↦ false | some _ ↦ true ];
  params = [];
  continuation = [];
}

-- where the media type ends: the first `;`, or the end
abbrev pub type_end : Bytes → ℕ
type_end v = elim (index_byte v b';') [ none ↦ length v | some i ↦ i ]

module _ (unicode_lower : ℕ → ℕ) where
  unfoldable pub stitch : List (Bytes × Params) → Params → Params
  stitch [] params = params
  stitch ((key, pieces) ∷ rest) params = stitch rest (stitch_one unicode_lower pieces key params)

  -- behind the loop
  unfoldable pub finish : Bytes → Outcome → Option Parsed
  finish media_type (more st v) = none
  finish media_type out_of_fuel = none
  finish media_type (return p) = some p
  finish media_type (break st) =
      some (returned media_type (record st { params = stitch st.continuation st.params }))

  -- behind the check of the media type, whose results come first; `rest` is `v[i:]`
  unfoldable pub parse_params : PmtErr × Bytes × Option MediaError → ℕ → Bytes → Option Parsed
  parse_params (p, media_type, none) fuel rest =
      finish media_type (param_loop unicode_lower media_type fuel (start p none) rest)
  parse_params (p, media_type, some error) fuel rest =
      let parsed =
        finish media_type (param_loop unicode_lower media_type fuel (start p (some error)) rest) in
      if p.bad
      then some (record { media_type = []; params = none; error = some (plain error) })
      else parsed

  -- `ParseMediaType`; `none` would be a loop that never ends
  unfoldable pub parse_media_type : Bytes → Option Parsed
  parse_media_type v =
      let i = type_end v in
      let trimmed = trim_space (to_lower unicode_lower (take i v)) in
      parse_params (lossy_check no_errors trimmed v) (length v) (drop i v)

-- unfolds what a test of this file computes with
unfoldable pub computes : Unit {0}
unfolding store decimal_onto decimal no_key param_round param_loop join_pieces stitch_one stitch
    finish parse_params parse_media_type Bytes.computes Dict.computes Consume.computes
    Errors.computes Percent.computes Strings.computes
computes = tt

parse_media_type_text :
    (parse_media_type (λ r. r) (codes "form-data; name=\"foo\"; Key*0=a; key*1*=%62")
      ≡ some (record {
        media_type = codes "form-data";
        params = some ((codes "name", codes "foo") ∷ (codes "key", codes "ab") ∷ []);
        error = none;
      }))
    × (parse_media_type (λ r. r) (codes "a b; x=1; x=2")
        ≡ some (record {
          media_type = codes "a/unknown";
          params = some ((codes "x", codes "1") ∷ []);
          error = some (merged (record { errs = no_slash ∷ duplicate_param ∷ []; bad = false }));
        }))
    × (parse_media_type (λ r. r) []
        ≡ some (record { media_type = []; params = none; error = some (plain no_media_type) }))
unfolding computes
parse_media_type_text = (refl, refl, refl)
