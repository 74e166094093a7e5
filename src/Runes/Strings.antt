-- ===== src/Runes/Strings.antt =====
-- What the code takes from Go's `strings` and `unicode`, rune by rune.
use mime.Base.Bytes
use mime.Runes
use mime.Base.{
  ℕ, zero, suc, ◌+◌, ◌-◌, List, [], ◌∷◌, ◌++◌, reverse, Option, none, some, Bool, true, false, ◌&&◌,
  ◌||◌, ltb, ◌==◌, if◌then◌else◌, within, ◌≡◌, refl,
}
use mathlib.Core.Option
use mime.Base.Bytes.{Bytes, codes}
use mime.Runes.{rune_error, decode_rune, encode_rune, runes}

-- `strings.IndexFunc(s, f)`, `none` for -1
unfoldable pub index_func_after : (ℕ → Bool) → ℕ → Bytes → Option ℕ
index_func_after f skip [] = none
index_func_after f zero (b ∷ s) =
    let (r, width) = decode_rune (b ∷ s) in
    if f r then some 0 else Option.map suc (index_func_after f (width - 1) s)
index_func_after f (suc skip) (b ∷ s) = Option.map suc (index_func_after f skip s)

abbrev pub index_func : (ℕ → Bool) → Bytes → Option ℕ
index_func f = index_func_after f 0

-- `unicode.IsSpace`
unfoldable pub is_space : ℕ → Bool
is_space r =
    within 9 13 r
    || r == b' '
    || r == 0x85
    || r == 0xA0
    || r == 0x1680
    || within 0x2000 0x200A r
    || r == 0x2028
    || r == 0x2029
    || r == 0x202F
    || r == 0x205F
    || r == 0x3000

-- `strings.TrimLeftFunc(s, unicode.IsSpace)`
unfoldable pub trim_left_after : ℕ → Bytes → Bytes
trim_left_after skip [] = []
trim_left_after zero (b ∷ s) =
    let (r, width) = decode_rune (b ∷ s) in
    let rest = trim_left_after (width - 1) s in if is_space r then rest else b ∷ s
trim_left_after (suc skip) (b ∷ s) = trim_left_after skip s

abbrev pub trim_left : Bytes → Bytes
trim_left = trim_left_after 0

-- `utf8.DecodeLastRuneInString`, on the reversed string: the bytes back to the last byte that can
-- begin a rune, at most four
abbrev last_bytes : ℕ → Bytes → Bytes → Bytes
last_bytes zero found s = found
last_bytes (suc n) found [] = found
last_bytes (suc n) found (b ∷ s) =
    let further = last_bytes n (b ∷ found) s in if within 0x80 0xBF b then further else b ∷ found

abbrev same_length : Bytes → ℕ → Bool
same_length [] zero = true
same_length (x ∷ xs) (suc n) = same_length xs n
same_length _ _ = false

unfoldable pub decode_last_rune : Bytes → ℕ × ℕ
decode_last_rune [] = (rune_error, 0)
decode_last_rune (b ∷ s) =
    let found = last_bytes 3 (b ∷ []) s in
    let (r, width) = decode_rune found in
    if ltb b 0x80 then (b, 1) else if same_length found width then (r, width) else (rune_error, 1)

unfoldable pub trim_last_after : (ℕ → Bool) → ℕ → Bytes → Bytes
trim_last_after f skip [] = []
trim_last_after f zero (b ∷ s) =
    let (r, width) = decode_last_rune (b ∷ s) in
    let rest = trim_last_after f (width - 1) s in if f r then rest else b ∷ s
trim_last_after f (suc skip) (b ∷ s) = trim_last_after f skip s

-- `strings.TrimRightFunc(s, f)`
unfoldable pub trim_right_func : (ℕ → Bool) → Bytes → Bytes
trim_right_func f s = reverse (trim_last_after f 0 (reverse s))

-- `strings.TrimSpace(s)`
unfoldable pub trim_space : Bytes → Bytes
trim_space s = trim_right_func is_space (trim_left s)

-- `strings.Map(f, s)`: bytes before the first rune that changes are kept as they are
unfoldable pub map_runes : (ℕ → ℕ) → Bool → ℕ → Bytes → Bytes
map_runes f changed skip [] = []
map_runes f changed zero (b ∷ s) =
    let (r, width) = decode_rune (b ∷ s) in
    let kept = b ∷ map_runes f false (width - 1) s in
    let new = encode_rune (f r) ++ map_runes f true (width - 1) s in
    if changed then new else if f r == r then kept else new
map_runes f true (suc skip) (b ∷ s) = map_runes f true skip s
map_runes f false (suc skip) (b ∷ s) = b ∷ map_runes f false skip s

abbrev pub lower_ascii : ℕ → ℕ
lower_ascii c = if within b'A' b'Z' c then c + 32 else c

-- `unicode.ToLower`; the table for runes from U+0080 on is a parameter.
abbrev pub lower_rune : (ℕ → ℕ) → ℕ → ℕ
lower_rune unicode_lower r = if ltb r 0x80 then lower_ascii r else unicode_lower r

-- `strings.ToLower(s)`
unfoldable pub to_lower : (ℕ → ℕ) → Bytes → Bytes
to_lower unicode_lower = map_runes (lower_rune unicode_lower) false 0

-- A rune folded as `strings.EqualFold` does where the other string is ASCII: beside the letters of
-- the other case, `s` matches U+017F and `k` matches U+212A.
abbrev fold_rune : ℕ → ℕ
fold_rune r = if r == 0x17F then b's' else if r == 0x212A then b'k' else lower_ascii r

abbrev equal_fold_runes : List ℕ → List ℕ → Bool
equal_fold_runes [] [] = true
equal_fold_runes (x ∷ xs) (y ∷ ys) = fold_rune x == fold_rune y && equal_fold_runes xs ys
equal_fold_runes _ _ = false

-- `strings.EqualFold(s, t)` for an ASCII `s`
unfoldable pub equal_fold : Bytes → Bytes → Bool
equal_fold s t = equal_fold_runes (runes s) (runes t)

-- unfolds what a test of this file computes with
unfoldable pub computes : Unit {0}
unfolding index_func_after is_space trim_left_after decode_last_rune trim_last_after trim_right_func
    trim_space map_runes to_lower equal_fold Bytes.computes Runes.computes
computes = tt

trim_space_text : trim_space (codes " \ta b" ++ 0xC2 ∷ 0x85 ∷ []) ≡ codes "a b"
unfolding computes
trim_space_text = refl

-- The second letter is U+212A, the Kelvin sign.
to_lower_text :
    to_lower (λ r. if r == 0x212A then b'k' else r) (b'A' ∷ 0xE2 ∷ 0x84 ∷ 0xAA ∷ b'Z' ∷ [])
    ≡ codes "akz"
unfolding computes
to_lower_text = refl
