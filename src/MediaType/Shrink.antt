-- ===== src/MediaType/Shrink.antt =====
-- Each reader leaves no more than it was given, and a parameter that is read leaves less.
use mime.Base.{
  ℕ, suc, zero, ◌<◌, ◌≤◌, ◌-◌, [], ◌∷◌, ◌++◌, true, false, not, Bool, some, length, drop, ◌≡◌, ◌⊎◌,
  inl, inr, refl, ap, arith, length-append, Bool-cases, Option-cases, ◌==◌,
}
use mime.Base.Bytes.{Bytes, codes, has_prefix}
use mime.MediaType.Consume.{
  consume_token, consume_quoted, consume_value, is_empty, consume_param_value, consume_media_param,
}
use mime.MediaType.Tokens.{consume_token_lem}
use mime.Runes.Strings.{trim_left, trim_left_after, to_lower}
use mime.Runes.{decode_rune, encode_rune}

trim_left_after-le : (skip : ℕ) (s : Bytes) → length (trim_left_after skip s) ≤ length s
unfolding trim_left_after
trim_left_after-le skip [] = omega arith
trim_left_after-le zero (b ∷ s) = ground (arith, trim_left_after-le ((decode_rune (b ∷ s)).1 - 1) s)
trim_left_after-le (suc skip) (b ∷ s) = omega (arith, trim_left_after-le skip s)

pub trim_left-le : (s : Bytes) → length (trim_left s) ≤ length s
trim_left-le s = trim_left_after-le 0 s

consume_token-le : (v : Bytes) → length (consume_token v).1 ≤ length v
consume_token-le v = omega (
  arith,
  ap length (consume_token_lem v).0,
  length-append (consume_token v).0 (consume_token v).1,
)

consume_quoted-le :
    (buffer : Bytes) (literal : Bool) (skip : ℕ) (s value rest : Bytes)
    → consume_quoted buffer literal skip s ≡ some (value, rest)
    → length rest ≤ length s
unfolding consume_quoted
consume_quoted-le buffer literal skip [] value rest h = cc
consume_quoted-le buffer literal (suc skip) (b ∷ s) value rest h =
    omega (arith, consume_quoted-le buffer literal skip s value rest h)
consume_quoted-le buffer literal zero (b ∷ s) value rest h =
    let r = (decode_rune (b ∷ s)).0 in
    let width = (decode_rune (b ∷ s)).1 in
    ground (
      arith,
      consume_quoted-le (buffer ++ encode_rune r) false (width - 1) s value rest,
      consume_quoted-le buffer true (width - 1) s value rest,
    )

quoted_value-le : (b : ℕ) (s : Bytes) → length (consume_value (b ∷ s)).1 ≤ length (b ∷ s)
unfolding consume_value
quoted_value-le b s = elim (Bool-cases (not (b == b'"'))) [
  | inl e ↦ rw (e, consume_value) (consume_token-le (b ∷ s))
  | inr e ↦ elim (Option-cases (consume_quoted [] false 0 s)) [
    | inl n ↦ rw (e, n) (omega arith)
    | inr ((value, rest), f) ↦
        rw (e, f) (omega (arith, consume_quoted-le [] false 0 s value rest f))
  ]
]

consume_value-le : (v : Bytes) → length (consume_value v).1 ≤ length v
consume_value-le [] = unfold consume_value in omega arith
consume_value-le (b ∷ s) = quoted_value-le b s

-- The parameter was refused, or what is left is shorter than `n`.
abbrev pub Leaves : ℕ → Bytes × Bytes × Bytes → Type 0
Leaves n (param, value, rest) = (param ≡ []) ⊎ (length rest < n)

drop-lt : (r : Bytes) (c : ℕ) → has_prefix r (c ∷ []) ≡ true → length (drop 1 r) < length r
unfolding has_prefix
drop-lt [] c h = cc
drop-lt (b ∷ r) c h = omega arith

consume_param_value-Leaves :
    (v param rest : Bytes) (n : ℕ) → length rest ≤ n → Leaves n (consume_param_value v param rest)
unfolding consume_param_value
consume_param_value-Leaves v param rest n h = elim (Bool-cases (has_prefix rest (codes "="))) [
  | inl e ↦ elim (Bool-cases (is_empty (consume_value (trim_left (drop 1 rest))).0)) [
    | inl f ↦ rw (e, f) (inl refl)
    | inr f ↦
        rw (e, f)
          (inr (
            omega (
              arith,
              h,
              drop-lt rest b'=' e,
              trim_left-le (drop 1 rest),
              consume_value-le (trim_left (drop 1 rest)),
            )))
  ]
  | inr e ↦ rw e (inl refl)
]

module _ (unicode_lower : ℕ → ℕ) where
  pub consume_media_param-Leaves :
      (v : Bytes) → Leaves (length v) (consume_media_param unicode_lower v)
  unfolding consume_media_param
  consume_media_param-Leaves v =
      let rest = trim_left v in
      let read = consume_token (trim_left (drop 1 rest)) in
      elim (Bool-cases (has_prefix rest (codes ";"))) [
        | inl e ↦ elim (Bool-cases (is_empty (to_lower unicode_lower read.0))) [
          | inl f ↦ rw (e, f) (inl refl)
          | inr f ↦
              rw (e, f)
                (consume_param_value-Leaves v _ (trim_left read.1) (length v) (
                  omega (
                    arith,
                    trim_left-le v,
                    drop-lt rest b';' e,
                    trim_left-le (drop 1 rest),
                    consume_token-le (trim_left (drop 1 rest)),
                    trim_left-le read.1,
                  )))
        ]
        | inr e ↦ rw e (inl refl)
      ]
