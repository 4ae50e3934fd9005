-- ===== src/Redis/Wire/Echoes.antt =====
-- What `writeRESP` of internal/state/redis_queue.go writes, `readRESP` reads back.
use Prim.Native.Char.{Char, code}
use mathlib.Core.List.{append_assoc}
use splai.Base.{
  ℕ, suc, ◌+◌, ◌-◌, ◌*◌, ◌<◌, ◌^◌, String, ◌≡◌, refl, ap, sym, ◌∙◌, some, List, [], ◌∷◌, ◌++◌,
  arith, length, length-append, take, drop, itoa, atoi-itoa, scan, scan-itoa, pos, text_length, All,
  ok,
}
use splai.Redis.Wire.{
  text, texts, chars, of_chars, line_end, write_line, write_parts, write_resp, read_line,
  trim_return, read_bulk, behind, put_element, array, read_all, read_array, read_body, read_resp,
}

of_chars-chars : (s : String) → of_chars (chars s) ≡ s
of_chars-chars String.[] = refl
of_chars-chars (String.◌∷◌ c s) = ap (λ t. String.◌∷◌ c t) (of_chars-chars s)

length-chars : (s : String) → length (chars s) ≡ text_length s
length-chars String.[] = refl
length-chars (String.◌∷◌ c s) = ap suc (length-chars s)

module _ {A : Type 0} where
  take-append : (xs ys : List A) → take (length xs) (xs ++ ys) ≡ xs
  take-append [] ys = refl
  take-append (x ∷ xs) ys = ap (λ ws. x ∷ ws) (take-append xs ys)

  drop-append : (n : ℕ) (xs ys : List A) → drop (length xs + n) (xs ++ ys) ≡ drop n ys
  drop-append n [] ys = ap (λ k. drop k ys) (omega arith)
  drop-append n (x ∷ xs) ys =
      let shifted : suc (length xs) + n ≡ suc (length xs + n) = omega arith in
      ap (λ k. drop k (x ∷ (xs ++ ys))) shifted ∙ drop-append n xs ys

-- the line of a number ends at the first end of a line
read_line-digits :
    (s : String) (n m : ℕ) (rest : List Char)
    → scan s n ≡ some m
    → read_line (chars s ++ (line_end ++ rest)) ≡ some (chars s ++ chars "\r", rest)
unfolding read_line scan
read_line-digits String.[] n m rest h = refl
read_line-digits (String.◌∷◌ c s) n m rest h =
    ground (arith, read_line-digits s (n * 10 + (code c - 48)) m rest)

trim_return-append : (cs : List Char) → trim_return (cs ++ chars "\r") ≡ cs
unfolding trim_return
trim_return-append [] = refl
trim_return-append (c ∷ []) = refl
trim_return-append (c ∷ d ∷ cs) = ap (λ ds. c ∷ ds) (trim_return-append (d ∷ cs))

-- a line with a number is read as that line, and what is behind it is left
read_resp-write_line :
    (fuel : ℕ) (prefix : Char) (n : ℕ) (rest : List Char)
    → read_resp (suc fuel) (write_line prefix n ++ rest)
      ≡ read_body (λ more. read_resp fuel more) prefix (itoa n) rest
unfolding read_resp write_line
read_resp-write_line fuel prefix n rest = rw (append_assoc (chars (itoa n)) line_end rest) (
    rw (read_line-digits (itoa n) 0 n rest (scan-itoa n), read_resp)
      (rw (trim_return-append (chars (itoa n))) (rw (of_chars-chars (itoa n)) refl)))

read_bulk-append :
    (cs rest : List Char)
    → read_bulk (some (pos (length cs))) (cs ++ (line_end ++ rest))
      ≡ some (ok (text (of_chars cs), rest))
unfolding read_bulk
read_bulk-append cs rest = ground (
  arith,
  length-append cs (line_end ++ rest),
  take-append cs (line_end ++ rest),
  drop-append 2 cs (line_end ++ rest),
)

read_part :
    (fuel : ℕ) (p : String) (rest : List Char)
    → text_length p < 2 ^ 63
    → read_resp (suc fuel) (write_line "$" (text_length p) ++ (chars p ++ (line_end ++ rest)))
      ≡ some (ok (text p, rest))
unfolding read_body
read_part fuel p rest h =
    read_resp-write_line fuel "$" (text_length p) (chars p ++ (line_end ++ rest))
    ∙ rw (atoi-itoa (text_length p) h) (
        rw (sym (length-chars p))
          (read_bulk-append (chars p) rest ∙ ap (λ t. some (ok (text t, rest))) (of_chars-chars p)))

read_parts :
    (fuel : ℕ) (parts : List String) (rest : List Char)
    → All (λ p. text_length p < 2 ^ 63) parts
    → read_all (λ more. read_resp (suc fuel) more) (length parts) (write_parts parts ++ rest)
      ≡ some (ok (parts, rest))
unfolding read_all write_parts
read_parts fuel [] rest h = refl
read_parts fuel (p ∷ parts) rest h =
    let ws = write_parts parts in
    let more =
      λ (left : List Char). read_all (λ more. read_resp (suc fuel) more) (length parts) left in
    let line = write_line "$" (text_length p) in
    ap (λ (input : List Char). behind (read_resp (suc fuel) input) more)
      (append_assoc line (chars p ++ (line_end ++ ws)) rest
        ∙ ap (λ (input : List Char). line ++ input) (append_assoc (chars p) (line_end ++ ws) rest))
    ∙ ap (λ a. behind a more) (read_part fuel p (ws ++ rest) h.0)
    ∙ ap (put_element p) (read_parts fuel parts rest h.1)

-- A command of fewer than 2^63 parts, each of fewer than 2^63 bytes, is read back from the bytes that
-- are written for it, whatever stands behind them, and nothing more is read.
pub read_resp-write_resp :
    (fuel : ℕ) (parts : List String) (rest : List Char)
    → length parts < 2 ^ 63
    → All (λ p. text_length p < 2 ^ 63) parts
    → read_resp (suc (suc fuel)) (write_resp parts ++ rest) ≡ some (ok (texts parts, rest))
unfolding write_resp read_body read_array
read_resp-write_resp fuel parts rest h k =
    rw (append_assoc (write_line "*" (length parts)) (write_parts parts) rest) (
      read_resp-write_line (suc fuel) "*" (length parts) (write_parts parts ++ rest)
      ∙ rw (atoi-itoa (length parts) h) (ap array (read_parts fuel parts rest k)))
