-- ===== src/EncodedWord/Header.antt =====
-- encodedword.go: `DecodeHeader`. A function that writes to the buffer gives what it appends.
use mime.Base.Bytes
use mime.EncodedWord.Decode
use mime.EncodedWord.QEncoding
use mime.Runes
use mime.Base.{
  ℕ, zero, suc, ◌+◌, List, [], ◌∷◌, ◌++◌, Bool, true, false, not, ◌&&◌, ◌||◌, Option, none, some,
  ltb, ◌==◌, if◌then◌else◌, length, take, drop, get_elem?, ◌≡◌, refl,
}
use mime.Base.Bytes.{Bytes, codes, index}
use mime.Base.Result.{Result, ok, err}
use mime.EncodedWord.Decode.{CharsetReader, decode, convert}
use mime.EncodedWord.QEncoding.{WordError}
use mime.Runes.{runes}

abbrev has_non_whitespace_runes : List ℕ → Bool
has_non_whitespace_runes [] = false
has_non_whitespace_runes (r ∷ rs) =
    let rest = has_non_whitespace_runes rs in
    if r == b' ' || r == b'\t' || r == b'\n' || r == b'\r' then rest else true

unfoldable pub has_non_whitespace : Bytes → Bool
has_non_whitespace s = has_non_whitespace_runes (runes s)

-- where a round of the loop has found a word: `start`, the fields, and `end`
pub record Found : Type 0 where
  pub start : ℕ
  pub charset : Bytes
  pub encoding : ℕ
  pub text : Bytes
  pub stop : ℕ

infixl 5 ◌>>=◌
abbrev ◌>>=◌ : {A B : Type 0} → Option A → (A → Option B) → Option B
none >>= f = none
some a >>= f = f a

-- from the encoding on: `cur` is its index
unfoldable pub find_text : Bytes → ℕ → Bytes → ℕ → Option Found
find_text header start charset cur = do
  encoding ← get_elem? header cur
  mark ← get_elem? header (cur + 1)
  let rest = drop (cur + 2) header
  j ← if ltb (length header) (cur + 4) || not (mark == b'?') then none else index rest (codes "?=")
  some (record {
    start = start;
    charset = charset;
    encoding = encoding;
    text = take j rest;
    stop = cur + 2 + j + 2;
  })

-- the searches of a round; `none` leaves the loop
unfoldable pub find_word : Bytes → Option Found
find_word header = do
  start ← index header (codes "=?")
  let rest = drop (start + 2) header
  i ← index rest (codes "?")
  find_text header start (take i rest) (start + 2 + i + 1)

module _ (unicode_lower : ℕ → ℕ) (charset_reader : CharsetReader) where
  abbrev pub prepend : Bytes → Result WordError Bytes → Result WordError Bytes
  prepend out (ok rest) = ok (out ++ rest)
  prepend out (err e) = err e

  -- The loop, on fuel, and the write of what is left of the header behind it. Each round leaves a
  -- shorter header, so that its length is fuel enough.
  unfoldable pub header_loop : ℕ → Bool → Bytes → Result WordError Bytes
  header_loop zero between header = ok header
  header_loop (suc fuel) between header = elim (find_word header) [
    | none ↦ ok header
    | some f ↦ elim (decode f.encoding f.text) [
      | err _ ↦
          prepend (take (f.start + 2) header) (header_loop fuel false (drop (f.start + 2) header))
      | ok content ↦
          let before = take f.start header in
          let written =
            if ltb 0 f.start && (not between || has_non_whitespace before) then before else [] in
          elim (convert unicode_lower charset_reader f.charset content) [
            | err e ↦ err e
            | ok converted ↦
                prepend (written ++ converted) (header_loop fuel true (drop f.stop header))
          ]
    ]
  ]

  -- `DecodeHeader`
  unfoldable pub decode_header : Bytes → Result WordError Bytes
  decode_header header = elim (index header (codes "=?")) [
    | none ↦ ok header
    | some i ↦ prepend (take i header) (header_loop (length header) false (drop i header))
  ]

-- unfolds what a test of this file computes with
unfoldable pub computes : Unit {0}
unfolding has_non_whitespace find_text find_word header_loop decode_header Bytes.computes
    Decode.computes QEncoding.computes Runes.computes
computes = tt

decode_header_text :
    (decode_header (λ r. r) none (codes "a =?utf-8?q?b_?= =?utf-8?b?Yw==?= d =?x")
      ≡ ok (codes "a b c d =?x"))
    × (decode_header (λ r. r) none (codes "=?utf-8?x?y?= =?utf-8?Q?z?=")
        ≡ ok (codes "=?utf-8?x?y?= z"))
unfolding computes
decode_header_text = (refl, refl)
