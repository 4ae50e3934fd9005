-- ===== src/Base/Text.antt =====
-- What the program uses of Go's package `strings`, over the native texts.
-- `to_lower` and `equal_fold` know the ASCII letters and the letters outside ASCII that Go maps
-- into it; they leave every other letter alone.
use Prim.Native.Char.{Char, code}
use Prim.Native.Nat.{ℕ, zero, suc}
use Prim.Native.String.{String, ◌++◌ as ◌⧺◌}
use mathlib.Core.Bool.{Bool, true, false, ◌&&◌, ◌||◌}
use mathlib.Core.List.{List, [], ◌∷◌}
use mathlib.Core.Option
use mathlib.Core.Option.{Option, none, some}
use text.Mathlib.Text.{◌==◌ as str_eq}
use splai.Base.Tests.{leb, ◌==◌, if◌then◌else◌}

unfoldable pub is_empty : String → Bool
is_empty String.[] = true
is_empty (String.◌∷◌ c s) = false

-- unicode.IsSpace
abbrev is_space : Char → Bool
is_space c =
    let n = code c in
    (leb 9 n && leb n 13)
    || n == 32
    || n == 0x85
    || n == 0xa0
    || n == 0x1680
    || (leb 0x2000 n && leb n 0x200a)
    || n == 0x2028
    || n == 0x2029
    || n == 0x202f
    || n == 0x205f
    || n == 0x3000

trim_left : String → String
trim_left String.[] = String.[]
trim_left (String.◌∷◌ c s) = if is_space c then trim_left s else String.◌∷◌ c s

trim_right : String → String
trim_right String.[] = String.[]
trim_right (String.◌∷◌ c s) =
    let rest = trim_right s in if is_space c && is_empty rest then String.[] else String.◌∷◌ c rest

-- strings.TrimSpace
unfoldable pub trim_space : String → String
unfolding trim_left trim_right is_empty
trim_space s = trim_right (trim_left s)

-- the letter of `to` at the place where `from` has `c`
translate : String → String → Char → Char
translate (String.◌∷◌ a from) (String.◌∷◌ b to) c =
    if code a == code c then b else translate from to c
translate _ _ c = c

map_chars : (Char → Char) → String → String
map_chars f String.[] = String.[]
map_chars f (String.◌∷◌ c s) = String.◌∷◌ (f c) (map_chars f s)

-- strings.ToLower
unfoldable pub to_lower : String → String
unfolding map_chars translate
to_lower = map_chars (translate "ABCDEFGHIJKLMNOPQRSTUVWXYZKİ" "abcdefghijklmnopqrstuvwxyzki")

-- one letter for each orbit of simple case folding
fold_case : String → String
unfolding map_chars translate
fold_case = map_chars (translate "ABCDEFGHIJKLMNOPQRSTUVWXYZKſ" "abcdefghijklmnopqrstuvwxyzks")

-- strings.EqualFold
unfoldable pub equal_fold : String → String → Bool
unfolding fold_case
equal_fold s t = str_eq (fold_case s) (fold_case t)

-- strings.HasPrefix
unfoldable pub has_prefix : String → String → Bool
has_prefix s String.[] = true
has_prefix String.[] (String.◌∷◌ d p) = false
has_prefix (String.◌∷◌ c s) (String.◌∷◌ d p) = code c == code d && has_prefix s p

-- strings.Contains
unfoldable pub contains : String → String → Bool
unfolding has_prefix
contains String.[] p = has_prefix String.[] p
contains (String.◌∷◌ c s) p = has_prefix (String.◌∷◌ c s) p || contains s p

unfoldable pub prepend : Char → List String → List String
prepend c [] = String.◌∷◌ c String.[] ∷ []
prepend c (w ∷ ws) = String.◌∷◌ c w ∷ ws

-- strings.Split, at a separator of one character
unfoldable pub split : Char → String → List String
unfolding prepend
split d String.[] = String.[] ∷ []
split d (String.◌∷◌ c s) =
    let rest = split d s in if code c == code d then String.[] ∷ rest else prepend c rest

abbrev pub member : String → List String → Bool
member s [] = false
member s (t ∷ ts) = str_eq s t || member s ts

-- strings.SplitN into two parts, where the separator occurs
unfoldable pub cut : Char → String → Option (String × String)
cut d String.[] = none
cut d (String.◌∷◌ c s) =
    let rest = Option.map (λ p. (String.◌∷◌ c p.0, p.1)) (cut d s) in
    if code c == code d then some (String.[], s) else rest

-- a text without its first characters
unfoldable pub drop_text : ℕ → String → String
drop_text zero s = s
drop_text (suc n) String.[] = String.[]
drop_text (suc n) (String.◌∷◌ c s) = drop_text n s

-- strings.Join
unfoldable pub join : String → List String → String
join d [] = String.[]
join d (w ∷ []) = w
join d (w ∷ v ∷ ws) = w ⧺ (d ⧺ join d (v ∷ ws))

abbrev pub text_length : String → ℕ
text_length String.[] = 0
text_length (String.◌∷◌ c s) = suc (text_length s)

-- strings.TrimPrefix
unfoldable pub trim_prefix : String → String → String
unfolding has_prefix drop_text
trim_prefix s p = if has_prefix s p then drop_text (text_length p) s else s
