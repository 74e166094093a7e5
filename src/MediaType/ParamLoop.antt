-- ===== src/MediaType/ParamLoop.antt =====
-- The loop of `ParseMediaType` over parameters as `FormatMediaType` writes them.
use mime.Base.{
  ℕ, suc, zero, ◌≤◌, List, [], ◌∷◌, ◌++◌, false, none, All, map, length, ◌≡◌, ◌≢◌, refl, ap, ◌∙◌,
  arith, ◌==◌, append_assoc, append-nil,
}
use mime.Base.Bytes.{Bytes, index_byte, index_byte-none, equal_iff}
use mime.Base.Dict.{lookup, lookup-insert, insert_new}
use mime.Grammar.Tokens.{IsTokenChar, Stops}
use mime.Grammar.{is_t_special, is_token_char}
use mime.MediaType.ParamText.{IsWritable, param_text, consume_media_param_text}
use mime.MediaType.Parse.{Params, State, more, break, store, param_round, param_loop}
use mime.Runes.Strings.{lower_ascii, is_space}
use mime.Runes.Trim.{IsDense, trim_left_dense}

-- A name that comes back: a token with no `*`.
abbrev pub IsName : Bytes → Type 0
IsName a = (a ≢ []) × All IsTokenChar a × All (λ c. c ≢ b'*') a

abbrev pub IsParam : Bytes × Bytes → Type 0
IsParam p = IsName p.0 × IsWritable p.1

abbrev pub lower_name : Bytes → Bytes
lower_name = map lower_ascii

-- No two names are alike in lower case.
abbrev pub Distinct : List Bytes → Type 0
Distinct [] = Unit
Distinct (a ∷ bs) = All (λ b. lower_name a ≢ lower_name b) bs × Distinct bs

abbrev pub texts : Params → Bytes
texts [] = []
texts ((a, v) ∷ ps) = param_text a v ++ texts ps

abbrev pub lowered : Params → Params
lowered [] = []
lowered ((a, v) ∷ ps) = (lower_name a, v) ∷ lowered ps

abbrev pub names : Params → List Bytes
names [] = []
names ((a, v) ∷ ps) = a ∷ names ps

-- `seen` has none of the names.
abbrev pub Fresh : Params → List Bytes → Type 0
Fresh seen bs = All (λ a. lookup (lower_name a) seen ≡ none) bs

lower_no_star : (a : Bytes) → All (λ c. c ≢ b'*') a → All (λ c. (c == b'*') ≡ false) (lower_name a)
lower_no_star [] h = tt
lower_no_star (c ∷ a) (hc, h) = (ground arith, lower_no_star a h)

store_new :
    (st : State) (key value : Bytes)
    → index_byte key b'*' ≡ none
    → lookup key st.params ≡ none
    → store st key value ≡ record st { params = st.params ++ (key, value) ∷ [] }
unfolding store
store_new st key value p q = rw (p, q, store, insert_new key value st.params q)

Fresh-step :
    (seen : Params) (a v : Bytes) (bs : List Bytes)
    → lookup (lower_name a) seen ≡ none
    → Fresh seen bs
    → All (λ b. lower_name a ≢ lower_name b) bs
    → Fresh (seen ++ (lower_name a, v) ∷ []) bs
Fresh-step seen a v [] q f d = tt
Fresh-step seen a v (b ∷ bs) q (fb, f) (db, d) = (
  rw (← insert_new (lower_name a) v seen q)
      (rw lookup-insert (ground (arith, equal_iff (lower_name a) (lower_name b)))),
  Fresh-step seen a v bs q f d,
)

texts-Stops : (ps : Params) → Stops (texts ps)
unfolding is_token_char is_t_special index_byte
texts-Stops [] = tt
texts-Stops ((a, v) ∷ ps) = refl

lower_not_nil : (a : Bytes) → a ≢ [] → lower_name a ≢ []
lower_not_nil [] h = h
lower_not_nil (c ∷ a) h = ground arith

semicolon : IsDense b';'
unfolding is_space
semicolon = (omega arith, refl)

module _ (unicode_lower : ℕ → ℕ) (media_type : Bytes) where
  round_text :
      (st : State) (a v rest : Bytes)
      → IsParam (a, v)
      → Stops rest
      → lookup (lower_name a) st.params ≡ none
      → param_round unicode_lower media_type st (param_text a v ++ rest)
        ≡ more (record st { params = st.params ++ (lower_name a, v) ∷ [] }) rest
  unfolding param_round
  round_text st [] v rest ((ne, _, _), _) k q = absurd (ne refl)
  round_text st (c ∷ a) v rest ((ne, t, star), w) k q =
      rw
        (
          trim_left_dense b';' _ semicolon,
          consume_media_param_text unicode_lower (c ∷ a) v rest ne t w k,
        )
        (ap (λ s. more s rest)
          (store_new st (lower_name (c ∷ a)) v (index_byte-none _ b'*' (lower_no_star (c ∷ a) star))
            q))

  pub param_loop-texts :
      (ps : Params) (fuel : ℕ) (st : State)
      → length ps ≤ fuel
      → All IsParam ps
      → Distinct (names ps)
      → Fresh st.params (names ps)
      → param_loop unicode_lower media_type fuel st (texts ps)
        ≡ break (record st { params = st.params ++ lowered ps })
  unfolding param_loop
  param_loop-texts [] zero st n h d f = rw append-nil
  param_loop-texts [] (suc fuel) st n h d f = rw append-nil
  param_loop-texts ((a, v) ∷ ps) zero st n h d f = absurd (omega arith)
  param_loop-texts ((a, v) ∷ ps) (suc fuel) st n (ha, h) (da, d) (fa, f) =
      rw (round_text st a v (texts ps) ha (texts-Stops ps) fa, param_loop)
        (param_loop-texts ps fuel (record st { params = st.params ++ (lower_name a, v) ∷ [] })
            (omega arith) h d (Fresh-step st.params a v (names ps) fa f da)
          ∙ rw append_assoc)
