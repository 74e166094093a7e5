-- ===== src/MediaType/Tokens.antt =====
-- `consumeToken` against the longest front of token characters.
use mime.Base.{[], ◌∷◌, ◌++◌, All, ◌≡◌, ap, sym, ◌∙◌, append-nil, take-append, drop-append}
use mime.Base.Bytes.{Bytes}
use mime.Grammar.Tokens.{IsTokenChar, Stops, index_func-All, index_func_append, Split, Split-token}
use mime.MediaType.Consume.{consume_token}

pub consume_token-append :
    (t rest : Bytes) → All IsTokenChar t → Stops rest → consume_token (t ++ rest) ≡ (t, rest)
unfolding consume_token
consume_token-append t [] h _ =
    ap consume_token (append-nil t) ∙ rw (index_func-All t h, consume_token)
consume_token-append [] (c ∷ rest) h hc = rw (index_func_append [] c rest tt hc, consume_token)
consume_token-append (b ∷ t) (c ∷ rest) h hc =
    rw (index_func_append (b ∷ t) c rest h hc, consume_token)
      (cc (take-append t (c ∷ rest), drop-append t (c ∷ rest)))

pub consume-Split : {v : Bytes} (s : Split v) → consume_token v ≡ (s.token, s.rest)
consume-Split s =
    ap consume_token s.splits ∙ consume_token-append s.token s.rest s.token_chars s.stops

-- For every input: the token and the rest make it up, the token has token characters alone, and
-- the rest does not begin with one.
pub consume_token_lem :
    (v : Bytes)
    → ((consume_token v).0 ++ (consume_token v).1 ≡ v)
      × All IsTokenChar (consume_token v).0
      × Stops (consume_token v).1
consume_token_lem v = rw (consume-Split s) (sym s.splits, s.token_chars, s.stops)
  where
    s : Split v
    s = Split-token v
