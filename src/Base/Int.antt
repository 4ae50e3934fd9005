-- ===== src/Base/Int.antt =====
-- Signed numbers, and strconv.Atoi on a machine with 64-bit integers.
use Prim.Native.Nat.{ℕ, ◌-◌, ◌<◌, ◌^◌}
use Prim.Native.Char.{code}
use Prim.Native.String.{String}
use mathlib.Core.Path.{◌≡◌}
use mathlib.Core.Option.{Option, none, some}
use native.Mathlib.Omega.{arith}
use splai.Base.Tests.{ltb, leb, ◌==◌, if◌then◌else◌}
use splai.Base.Text.{is_empty}
use splai.Base.Decimal.{unsigned, strip_plus, scan, itoa, scan-itoa, unsigned-itoa}

-- `negsuc n` is -(n + 1).
pub data ℤ : Type 0 where
  pos : ℕ → ℤ
  negsuc : ℕ → ℤ

abbrev negated : Option ℕ → Option ℤ
negated none = none
negated (some n) =
    if n == 0 then some (pos 0) else if leb n (2 ^ 63) then some (negsuc (n - 1)) else none

abbrev in_range : Option ℕ → Option ℤ
in_range none = none
in_range (some n) = if ltb n (2 ^ 63) then some (pos n) else none

-- strconv.Atoi
unfoldable pub atoi : String → Option ℤ
unfolding unsigned strip_plus
atoi String.[] = none
atoi (String.◌∷◌ c s) =
    if code c == 45 then negated (unsigned s) else in_range (unsigned (strip_plus (String.◌∷◌ c s)))

-- the number that a text spells if it is not negative
abbrev pub non_negative : Option ℤ → Option ℕ
non_negative (some (pos n)) = some n
non_negative _ = none

-- the number that a text spells if it is greater than 0
abbrev pub positive : Option ℤ → Option ℕ
positive (some (pos n)) = if n == 0 then none else some n
positive _ = none

-- a number of 63 bits is read back from its decimal text
pub atoi-itoa : (n : ℕ) → n < 2 ^ 63 → atoi (itoa n) ≡ some (pos n)
unfolding atoi scan unsigned is_empty
atoi-itoa n h = starts (itoa n) (scan-itoa n) (unsigned-itoa n)
  where
    starts :
        (s : String) → scan s 0 ≡ some n → unsigned (strip_plus s) ≡ some n → atoi s ≡ some (pos n)
    starts String.[] e u = cc
    starts (String.◌∷◌ c s) e u = ground (arith, u)
