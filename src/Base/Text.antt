-- ===== src/Base/Text.antt =====
-- The functions of Go's `strings` that the program uses, on native texts.
use Prim.Native.Char.{Char, code}
use Prim.Native.Nat.{ℕ, zero, suc, ◌-◌}
use Prim.Native.String.{String, ◌++◌ as ◌<>◌}
use mathlib.Core.Path.{◌≡◌, refl}
use mathlib.Core.Bool.{Bool, true, false, ◌||◌}
use native.Mathlib.Omega.{arith}
use text.Mathlib.Text.{◌==◌}
use text.Mathlib.TextLemmas.{nil-append, cons-append}
use flux_operator.Base.Tests.{eqb, if◌then◌else◌}

-- `strings.Contains(s, c)` for a text of one character with code `n`.
unfoldable pub has_char : ℕ → String → Bool
has_char n String.[] = false
has_char n (String.◌∷◌ c s) = eqb (code c) n || has_char n s

-- `strings.Split(s, c)[0]`: the text before the first `c`, the whole text if there is none.
unfoldable pub before : ℕ → String → String
before n String.[] = ""
before n (String.◌∷◌ c s) = if eqb (code c) n then "" else String.◌∷◌ c (before n s)

-- `s[strings.LastIndex(s, c)+1:]`: the text after the last `c`, the whole text if there is none.
unfoldable pub after_last : ℕ → String → String
unfolding has_char
after_last n String.[] = ""
after_last n (String.◌∷◌ c s) =
    let rest = after_last n s in
    if has_char n s then rest else if eqb (code c) n then s else String.◌∷◌ c s

-- `strings.TrimSuffix(s, c)` for one character.
unfoldable pub trim_suffix : ℕ → String → String
trim_suffix n String.[] = ""
trim_suffix n (String.◌∷◌ c String.[]) = if eqb (code c) n then "" else String.◌∷◌ c ""
trim_suffix n (String.◌∷◌ c (String.◌∷◌ d s)) = String.◌∷◌ c (trim_suffix n (String.◌∷◌ d s))

-- `strings.Contains(s, t)` for any text.
unfoldable pub is_prefix : String → String → Bool
is_prefix String.[] s = true
is_prefix (String.◌∷◌ a t) String.[] = false
is_prefix (String.◌∷◌ a t) (String.◌∷◌ b s) =
    let rest = is_prefix t s in if eqb (code a) (code b) then rest else false

unfoldable pub has_text : String → String → Bool
unfolding is_prefix
has_text t String.[] = t == ""
has_text t (String.◌∷◌ c s) = is_prefix t (String.◌∷◌ c s) || has_text t s

unfoldable pub count_chars : String → ℕ
count_chars String.[] = 0
count_chars (String.◌∷◌ c s) = suc (count_chars s)

unfoldable pub drop_chars : ℕ → String → String
drop_chars zero s = s
drop_chars (suc n) String.[] = ""
drop_chars (suc n) (String.◌∷◌ c s) = drop_chars n s

-- The loop of `strings.ReplaceAll`; the first argument counts the characters of a match that are
-- still to be skipped.
unfoldable pub replace_from : ℕ → String → String → String → String
unfolding is_prefix count_chars
replace_from k old fresh String.[] = ""
replace_from (suc k) old fresh (String.◌∷◌ c s) = replace_from k old fresh s
replace_from zero old fresh (String.◌∷◌ c s) =
    let kept = replace_from zero old fresh s in
    let skipped = replace_from (count_chars old - 1) old fresh s in
    if is_prefix old (String.◌∷◌ c s) then fresh <> skipped else String.◌∷◌ c kept

-- `bytes.ReplaceAll(s, old, fresh)` for an `old` that is not empty.
unfoldable pub replace_all : String → String → String → String
unfolding replace_from
replace_all old fresh s = replace_from 0 old fresh s

-- The character at the place in `to` where `c` stands in `from`, or `c` itself.
unfoldable pub translate : Char → String → String → Char
translate c String.[] to = c
translate c (String.◌∷◌ a from) String.[] = c
translate c (String.◌∷◌ a from) (String.◌∷◌ b to) =
    let rest = translate c from to in if eqb (code c) (code a) then b else rest

-- `strings.ToLower`, exact for the letters whose lower case is ASCII. These are the ASCII ones and
-- two more, a dotted I and the Kelvin sign. Other letters stay.
unfoldable pub to_lower : String → String
unfolding translate
to_lower String.[] = ""
to_lower (String.◌∷◌ c s) =
    String.◌∷◌ (translate c "ABCDEFGHIJKLMNOPQRSTUVWXYZİK" "abcdefghijklmnopqrstuvwxyzik")
      (to_lower s)

-- Cutting at a character drops whatever follows the first one.
pub before-append :
    (n : ℕ) (c : Char) (s t : String) → code c ≡ n → before n (s <> String.◌∷◌ c t) ≡ before n s
unfolding before
before-append n c String.[] t h = rw nil-append (ground arith)
before-append n c (String.◌∷◌ d s) t h = rw cons-append (ground (arith, before-append n c s t h))

-- A text without the character is not cut.
pub before_self : (n : ℕ) (s : String) → has_char n s ≡ false → before n s ≡ s
unfolding before has_char
before_self n String.[] h = refl
before_self n (String.◌∷◌ c s) h = ground (arith, before_self n s)
