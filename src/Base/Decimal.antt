-- ===== src/Base/Decimal.antt =====
-- Decimal text: strconv.Itoa and strconv.ParseInt, and what a text split at a separator shows.
use Prim.Native.Nat.{ℕ, zero, suc, ◌+◌, ◌-◌, ◌*◌, ◌/◌, ◌%◌, ◌^◌, ◌<◌}
use Prim.Native.Char.{Char, code}
use Prim.Native.String.{String, ◌++◌ as ◌⧺◌}
use mathlib.Core.Path.{◌≡◌, refl}
use mathlib.Core.Bool.{Bool, false, ◌&&◌}
use mathlib.Core.Option.{Option, none, some}
use mathlib.Core.List.{List, [], ◌∷◌, ◌++◌}
use native.Mathlib.Omega.{arith}
use text.Mathlib.TextLemmas.{nil-append, cons-append}
use splai.Base.Tests.{ltb, leb, ◌==◌, if◌then◌else◌}
use splai.Base.Lists.{length}
use splai.Base.Text.{split, prepend, is_empty}

-- the character at a place of a text
unfoldable pub nth : String → ℕ → Char
nth String.[] i = "0"
nth (String.◌∷◌ c s) zero = c
nth (String.◌∷◌ c s) (suc i) = nth s i

digit : ℕ → Char
unfolding nth
digit d = nth "0123456789" d

-- The digits of `n` before `acc`: a round for each digit, and `n + 1` rounds are enough.
digits : ℕ → ℕ → String → String
digits zero n acc = acc
digits (suc f) n acc =
    let out = String.◌∷◌ (digit (n % 10)) acc in
    let more = digits f (n / 10) out in if n / 10 == 0 then out else more

-- fmt's %d of a number that is not negative
unfoldable pub itoa : ℕ → String
unfolding digits digit
itoa n = digits (suc n) n String.[]

abbrev pub is_digit : Char → Bool
is_digit c = leb 48 (code c) && leb (code c) 57

-- the number that a row of digits spells behind `n`
unfoldable pub scan : String → ℕ → Option ℕ
scan String.[] n = some n
scan (String.◌∷◌ c s) n =
    let more = scan s (n * 10 + (code c - 48)) in if is_digit c then more else none

unfoldable pub unsigned : String → Option ℕ
unsigned s = if is_empty s then none else scan s 0

unfoldable pub strip_plus : String → String
strip_plus String.[] = String.[]
strip_plus (String.◌∷◌ c s) = if code c == 43 then s else String.◌∷◌ c s

-- strconv.ParseInt(s, 10, 64) followed by the test `nanos <= 0`: a positive number of 63 bits
unfoldable pub parse_positive : String → Option ℕ
unfolding unsigned scan strip_plus is_empty
parse_positive s = elim (unsigned (strip_plus s)) [
  | none ↦ none
  | some n ↦ if n == 0 then none else if ltb n (2 ^ 63) then some n else none
]

abbrev pub last : List String → String
last [] = String.[]
last (w ∷ []) = w
last (w ∷ v ∷ ws) = last (v ∷ ws)

code-digit : (d : ℕ) → d < 10 → code (digit d) ≡ 48 + d
unfolding digit
code-digit zero h = refl
code-digit (suc zero) h = refl
code-digit (suc (suc zero)) h = refl
code-digit (suc (suc (suc zero))) h = refl
code-digit (suc (suc (suc (suc zero)))) h = refl
code-digit (suc (suc (suc (suc (suc zero))))) h = refl
code-digit (suc (suc (suc (suc (suc (suc zero)))))) h = refl
code-digit (suc (suc (suc (suc (suc (suc (suc zero))))))) h = refl
code-digit (suc (suc (suc (suc (suc (suc (suc (suc zero)))))))) h = refl
code-digit (suc (suc (suc (suc (suc (suc (suc (suc (suc zero))))))))) h = refl
code-digit (suc (suc (suc (suc (suc (suc (suc (suc (suc (suc d)))))))))) h = absurd (omega arith)

scan-digits : (f n : ℕ) (acc : String) → n < f → scan (digits f n acc) 0 ≡ scan acc n
unfolding digits scan
scan-digits zero n acc h = elim h [ ]
scan-digits (suc f) n acc h = ground (
  arith,
  code-digit (n % 10) (omega arith),
  scan-digits f (n / 10) (String.◌∷◌ (digit (n % 10)) acc),
)

pub scan-itoa : (n : ℕ) → scan (itoa n) 0 ≡ some n
unfolding itoa scan
scan-itoa n = scan-digits (suc n) n String.[] (omega arith)

pub itoa_inj : (m n : ℕ) → itoa m ≡ itoa n → m ≡ n
itoa_inj m n e = cc (scan-itoa m, scan-itoa n)

is_empty-digits :
    (f n : ℕ) (acc : String) → is_empty acc ≡ false → is_empty (digits f n acc) ≡ false
unfolding digits is_empty
is_empty-digits zero n acc h = h
is_empty-digits (suc f) n acc h =
    ground (arith, is_empty-digits f (n / 10) (String.◌∷◌ (digit (n % 10)) acc) refl)

is_empty-itoa : (n : ℕ) → is_empty (itoa n) ≡ false
unfolding itoa digits is_empty
is_empty-itoa n =
    ground (arith, is_empty-digits n (n / 10) (String.◌∷◌ (digit (n % 10)) String.[]) refl)

strip_plus-scan : (s : String) (n m : ℕ) → scan s n ≡ some m → strip_plus s ≡ s
unfolding strip_plus scan
strip_plus-scan String.[] n m h = refl
strip_plus-scan (String.◌∷◌ c s) n m h = ground arith

pub unsigned-itoa : (n : ℕ) → unsigned (strip_plus (itoa n)) ≡ some n
unfolding unsigned
unsigned-itoa n =
    rw (strip_plus-scan (itoa n) 0 n (scan-itoa n)) (rw (is_empty-itoa n) (scan-itoa n))

-- A positive number of 63 bits is read back from its decimal text.
pub parse_positive-itoa : (n : ℕ) → 0 < n → n < 2 ^ 63 → parse_positive (itoa n) ≡ some n
unfolding parse_positive
parse_positive-itoa n p h = ground (arith, unsigned-itoa n)

prepend-append :
    (c : Char) (xs ys : List String) → 0 < length xs → prepend c (xs ++ ys) ≡ prepend c xs ++ ys
unfolding prepend
prepend-append c [] ys h = elim h [ ]
prepend-append c (x ∷ xs) ys h = refl

length-prepend : (c : Char) (xs : List String) → 0 < length xs → length (prepend c xs) ≡ length xs
unfolding prepend
length-prepend c [] h = elim h [ ]
length-prepend c (x ∷ xs) h = refl

pub length-split_pos : (d : Char) (s : String) → 0 < length (split d s)
unfolding split
length-split_pos d String.[] = omega arith
length-split_pos d (String.◌∷◌ c s) =
    ground (arith, length-split_pos d s, length-prepend c (split d s))

-- A separator inside a text splits it into the parts before and the parts after.
pub split-append : (d : Char) (s t : String) → split d (s ⧺ String.◌∷◌ d t) ≡ split d s ++ split d t
unfolding split
split-append d String.[] t = rw nil-append (ground arith)
split-append d (String.◌∷◌ c s) t = rw cons-append (
    ground
      (arith, split-append d s t, length-split_pos d s, prepend-append c (split d s) (split d t)))

last-append : (xs ys : List String) → 0 < length ys → last (xs ++ ys) ≡ last ys
last-append [] ys h = refl
last-append (x ∷ []) [] h = elim h [ ]
last-append (x ∷ []) (y ∷ ys) h = refl
last-append (x ∷ v ∷ xs) ys h = last-append (v ∷ xs) ys h

-- digits hold no separator but a digit
split-scan :
    (d : Char) (s : String) (n m : ℕ) → 57 < code d → scan s n ≡ some m → split d s ≡ s ∷ []
unfolding split scan prepend
split-scan d String.[] n m h e = refl
split-scan d (String.◌∷◌ c s) n m h e = ground (arith, split-scan d s (n * 10 + (code c - 48)) m h)

-- The last part of a text that ends in a colon and a number is that number.
pub last-split-itoa :
    (d : Char) (s : String) (n : ℕ)
    → 57 < code d
    → last (split d (s ⧺ String.◌∷◌ d (itoa n))) ≡ itoa n
last-split-itoa d s n h = rw (split-append d s (itoa n)) (
    rw (split-scan d (itoa n) 0 n h (scan-itoa n))
      (last-append (split d s) (itoa n ∷ []) (omega arith)))

pub last-split-colon : (s : String) (n : ℕ) → last (split ":" (s ⧺ (":" ⧺ itoa n))) ≡ itoa n
last-split-colon s n =
    rw (cons-append ":" String.[] (itoa n)) (rw nil-append (last-split-itoa ":" s n (omega arith)))

pub split-colon : (s t : String) → split ":" (s ⧺ (":" ⧺ t)) ≡ split ":" s ++ split ":" t
split-colon s t = rw (cons-append ":" String.[] t) (rw nil-append (split-append ":" s t))
