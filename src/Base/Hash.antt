-- ===== src/Base/Hash.antt =====
-- What the program uses of Go's package `hash/fnv`: the 32-bit FNV-1a hash of a text in UTF-8.
use Prim.Native.Nat.{ℕ, bit_xor, ◌+◌, ◌*◌, ◌/◌, ◌%◌, ◌^◌}
use Prim.Native.Char.{Char, code}
use Prim.Native.String.{String}
use mathlib.Core.List.{List, [], ◌∷◌, ◌++◌}
use splai.Base.Tests.{ltb, if◌then◌else◌}

-- the bytes of a text in UTF-8
utf8 : Char → List ℕ
utf8 c =
    let n = code c in
    if ltb n 0x80
    then n ∷ []
    else if ltb n 0x800
    then (0xc0 + n / 64) ∷ (0x80 + n % 64) ∷ []
    else if ltb n 0x10000
    then (0xe0 + n / 4096) ∷ (0x80 + n / 64 % 64) ∷ (0x80 + n % 64) ∷ []
    else (0xf0 + n / 262144) ∷ (0x80 + n / 4096 % 64) ∷ (0x80 + n / 64 % 64) ∷ (0x80 + n % 64) ∷ []

unfoldable pub bytes : String → List ℕ
unfolding utf8
bytes String.[] = []
bytes (String.◌∷◌ c s) = utf8 c ++ bytes s

-- the hash of further bytes behind those with the hash `h`
unfoldable pub fnv32a : List ℕ → ℕ → ℕ
fnv32a [] h = h
fnv32a (b ∷ bs) h = fnv32a bs (bit_xor h b * 16777619 % 2 ^ 32)
