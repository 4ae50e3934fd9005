-- ===== src/Redis/Wire.antt =====
-- The protocol between the Redis queue and its server: `writeRESP`, `readRESP`, `toStringArray` and
-- `atoiRESP` of internal/state/redis_queue.go. A character of a text on the wire stands for a byte.
pub mod Answers
pub mod Echoes
use Prim.Native.Char.{Char, code}
use mathlib.Core.Option
use splai.Base.{
  ℕ, zero, suc, ◌+◌, String, ◌⧺◌, Option, none, some, List, [], ◌∷◌, ◌++◌, leb, ◌==◌, if◌then◌else◌,
  length, take, drop, itoa, atoi, ℤ, pos, negsuc, text_length, Result, ok, err,
}

-- `any` as readRESP returns it: nil, a text, or texts
pub data Reply : Type 0 where
  no_reply : Reply
  text : String → Reply
  texts : List String → Reply

abbrev pub chars : String → List Char
chars String.[] = []
chars (String.◌∷◌ c s) = c ∷ chars s

abbrev pub of_chars : List Char → String
of_chars [] = String.[]
of_chars (c ∷ cs) = String.◌∷◌ c (of_chars cs)

abbrev pub line_end : List Char
line_end = chars "\r\n"

-- fmt.Fprintf of a prefix, a number and the end of the line
unfoldable pub write_line : Char → ℕ → List Char
write_line prefix n = prefix ∷ chars (itoa n) ++ line_end

unfoldable pub write_parts : List String → List Char
write_parts [] = []
write_parts (p ∷ ps) = write_line "$" (text_length p) ++ (chars p ++ (line_end ++ write_parts ps))

unfoldable pub write_resp : List String → List Char
unfolding write_parts
write_resp parts = write_line "*" (length parts) ++ write_parts parts

-- ReadString('\n'): the line without its end, and what is behind it
unfoldable pub read_line : List Char → Option (List Char × List Char)
read_line [] = none
read_line (c ∷ cs) =
    let more = Option.map (λ (p : List Char × List Char). (c ∷ p.0, p.1)) (read_line cs) in
    if code c == 10 then some ([], cs) else more

-- strings.TrimSuffix(line, "\r")
unfoldable pub trim_return : List Char → List Char
trim_return [] = []
trim_return (c ∷ []) = if code c == 13 then [] else c ∷ []
trim_return (c ∷ d ∷ cs) = c ∷ trim_return (d ∷ cs)

-- a reply or an error, and what has not been read; no answer if the fuel runs out
abbrev pub Answer : Type 0 → Type 0
Answer A = Option (Result (A × List Char))

-- The bytes of a text and of the line's end. A size below -1 lets `make` panic.
unfoldable pub read_bulk : Option ℤ → List Char → Answer Reply
read_bulk none rest = some (err "invalid size")
read_bulk (some (negsuc zero)) rest = some (ok (no_reply, rest))
read_bulk (some (negsuc (suc n))) rest = some (err "panic: makeslice: len out of range")
read_bulk (some (pos n)) rest =
    if leb (n + 2) (length rest)
    then some (ok (text (of_chars (take n rest)), drop (n + 2) rest))
    else some (err "unexpected EOF")

abbrev pub put_element : String → Answer (List String) → Answer (List String)
put_element s none = none
put_element s (some (err message)) = some (err message)
put_element s (some (ok (arr, rest))) = some (ok (s ∷ arr, rest))

abbrev pub add_element : Reply → Answer (List String) → Answer (List String)
add_element no_reply more = put_element "" more
add_element (text s) more = put_element s more
add_element (texts ss) more = some (err "unexpected redis array element")

-- an element, and the elements that are read behind it
abbrev pub behind : Answer Reply → (List Char → Answer (List String)) → Answer (List String)
behind none more = none
behind (some (err message)) more = some (err message)
behind (some (ok (v, rest))) more = add_element v (more rest)

abbrev pub array : Answer (List String) → Answer Reply
array none = none
array (some (err message)) = some (err message)
array (some (ok (arr, rest))) = some (ok (texts arr, rest))

module _ (next : List Char → Answer Reply) where
  -- the loop over the elements of an array
  unfoldable pub read_all : ℕ → List Char → Answer (List String)
  read_all zero input = some (ok ([], input))
  read_all (suc n) input = behind (next input) (λ rest. read_all n rest)

  unfoldable pub read_array : Option ℤ → List Char → Answer Reply
  unfolding read_all
  read_array none rest = some (err "invalid size")
  read_array (some (negsuc zero)) rest = some (ok (no_reply, rest))
  read_array (some (negsuc (suc n))) rest = some (err "panic: makeslice: cap out of range")
  read_array (some (pos n)) rest = array (read_all n rest)

  unfoldable pub read_body : Char → String → List Char → Answer Reply
  unfolding read_bulk read_array
  read_body prefix line rest =
      if code prefix == 43
      then some (ok (text line, rest))
      else if code prefix == 58
      then some (ok (text line, rest))
      else if code prefix == 45
      then some (err ("redis error: " ⧺ line))
      else if code prefix == 36
      then read_bulk (atoi line) rest
      else if code prefix == 42
      then read_array (atoi line) rest
      else some (err "unsupported redis response prefix")

-- `fuel` bounds how deep arrays stand in arrays.
unfoldable pub read_resp : ℕ → List Char → Answer Reply
unfolding read_line trim_return read_body
read_resp zero input = none
read_resp (suc fuel) [] = some (err "EOF")
read_resp (suc fuel) (prefix ∷ input) = elim (read_line input) [
  | none ↦ some (err "EOF")
  | some (line, rest) ↦
      read_body (λ more. read_resp fuel more) prefix (of_chars (trim_return line)) rest
]

unfoldable pub to_string_array : Reply → Result (List String)
to_string_array no_reply = ok []
to_string_array (texts arr) = ok arr
to_string_array (text s) = err "unexpected redis array response type"
