-- ===== src/Grammar/Tokens.antt =====
-- What the readers of tokens find: rune by rune in the code, byte by byte here.
use mathlib.Core.Option
use mathlib.Core.List.{cons-ne-nil}
use mime.Base.{
  Option-cases, ℕ, ◌≤◌, ◌<◌, suc, [], ◌∷◌, ◌++◌, true, false, none, some, Option, ltb, All, length,
  ◌≡◌, ◌≢◌, ◌↔◌, inl, inr, refl, ap, arith, Bool-cases,
}
use mime.Base.Bytes.{Bytes}
use mime.Grammar.{is_token_char, is_not_token_char, is_token}
use mime.Runes.Ascii.{decode_rune_ascii, decode_rune_high}
use mime.Runes.Strings.{index_func, index_func_after}
use mime.Runes.{decode_rune}

abbrev pub IsTokenChar : ℕ → Type 0
IsTokenChar c = is_token_char c ≡ true

-- The text does not go on with a token character.
abbrev pub Stops : Bytes → Type 0
Stops [] = Unit
Stops (c ∷ _) = is_token_char c ≡ false

pub token_char_lt : (c : ℕ) → IsTokenChar c → c < 0x7F
unfolding is_token_char
token_char_lt c h = ground arith

pub high_not_token : (c : ℕ) → 0x7F ≤ c → is_token_char c ≡ false
unfolding is_token_char
high_not_token c h = ground arith

index_func_token :
    (b : ℕ) (s : Bytes)
    → IsTokenChar b
    → index_func is_not_token_char (b ∷ s) ≡ Option.map suc (index_func is_not_token_char s)
unfolding index_func_after is_not_token_char
index_func_token b s h = rw (decode_rune_ascii b s (omega (arith, token_char_lt b h))) (rw h)

head_not_token :
    (b : ℕ) (s : Bytes) → is_token_char b ≡ false → is_token_char (decode_rune (b ∷ s)).0 ≡ false
head_not_token b s h = elim (Bool-cases (ltb b 0x80)) [
  | inl low ↦ rw (decode_rune_ascii b s (ground arith)) h
  | inr high ↦ high_not_token _ (omega (arith, decode_rune_high b s (ground arith)))
]

index_func_stop :
    (b : ℕ) (s : Bytes) → is_token_char b ≡ false → index_func is_not_token_char (b ∷ s) ≡ some 0
unfolding index_func_after is_not_token_char
index_func_stop b s h = rw (head_not_token b s h)

pub index_func-All : (s : Bytes) → All IsTokenChar s → index_func is_not_token_char s ≡ none
index_func-All [] h = unfold index_func_after in refl
index_func-All (b ∷ s) (hb, h) = rw (index_func_token b s hb, index_func-All s h)

pub index_func_append :
    (t : Bytes) (c : ℕ) (rest : Bytes)
    → All IsTokenChar t
    → is_token_char c ≡ false
    → index_func is_not_token_char (t ++ (c ∷ rest)) ≡ some (length t)
index_func_append [] c rest h hc = index_func_stop c rest hc
index_func_append (b ∷ t) c rest (hb, h) hc =
    rw (index_func_token b (t ++ (c ∷ rest)) hb, index_func_append t c rest h hc)

-- The longest front of token characters, and what stands behind it.
pub record Split (v : Bytes) : Type 0 where
  pub token : Bytes
  pub rest : Bytes
  pub splits : v ≡ token ++ rest
  pub token_chars : All IsTokenChar token
  pub stops : Stops rest

pub Split-token : (v : Bytes) → Split v
Split-token [] = record { token = []; rest = []; splits = refl; token_chars = tt; stops = tt }
Split-token (b ∷ s) =
    let later = Split-token s in
    elim (Bool-cases (is_token_char b)) [
      | inl h ↦ record {
        token = b ∷ later.token;
        rest = later.rest;
        splits = ap (◌∷◌ b) later.splits;
        token_chars = (h, later.token_chars);
        stops = later.stops;
      }
      | inr h ↦ record { token = []; rest = b ∷ s; splits = refl; token_chars = tt; stops = h }
    ]

map-suc-none : (o : Option ℕ) → Option.map suc o ≡ none → o ≡ none
map-suc-none none h = refl
map-suc-none (some n) h = cc

token_chars_of_none : (s : Bytes) → index_func is_not_token_char s ≡ none → All IsTokenChar s
token_chars_of_none [] h = tt
token_chars_of_none (b ∷ s) h = elim (Bool-cases (is_token_char b)) [
  | inl t ↦ (t, token_chars_of_none s (map-suc-none _ (rw (index_func_token b s t) at h)))
  | inr f ↦ cc (h, index_func_stop b s f)
]

pub is_token_complete : (s : Bytes) → s ≢ [] → All IsTokenChar s → is_token s ≡ true
unfolding is_token
is_token_complete [] h k = absurd (h refl)
is_token_complete (b ∷ s) h k = rw (index_func-All (b ∷ s) k, is_token)

pub is_token_sound : (s : Bytes) → is_token s ≡ true → (s ≢ []) × All IsTokenChar s
unfolding is_token
is_token_sound [] h = cc
is_token_sound (b ∷ s) h = elim (Option-cases (index_func is_not_token_char (b ∷ s))) [
  | inl n ↦ (cons-ne-nil b s, token_chars_of_none (b ∷ s) n)
  | inr (k, e) ↦ cc (rw (e, is_token) at h)
]

-- `is_token` accepts exactly the non-empty texts of token characters.
pub is_token_iff : (s : Bytes) → (is_token s ≡ true) ↔ ((s ≢ []) × All IsTokenChar s)
is_token_iff s = (is_token_sound s, λ h. is_token_complete s h.0 h.1)
