-- ===== src/Prelude/Numerals.antt =====
-- The words of a line, its numbers, and int64, as Go's `strings.Fields` and `strconv.ParseInt` read them.
use Prim.Native.Nat.{ℕ, ◌+◌, ◌-◌, ◌*◌, ◌%◌, ◌^◌}
use mathlib.Core.Bool.{Bool, true, false}
use mathlib.Core.List.{List, [], ◌∷◌}
use viiwork_freetoken.Prelude.Tests.{leb, ltb, ◌==◌, if◌then◌else◌}
use viiwork_freetoken.Prelude.Int.{ℤ, pos, negsuc, negated}
use viiwork_freetoken.Prelude.Text.{Bytes, is_space, is_digit, put_first}

abbrev begins_word : Bytes → Bool
begins_word [] = false
begins_word (x ∷ _) = if is_space x then false else true

-- `strings.Fields`.
abbrev pub words : Bytes → List Bytes
words [] = []
words (x ∷ xs) =
    let rest = words xs in
    if is_space x then rest else if begins_word xs then put_first x rest else (x ∷ []) ∷ rest

-- What `strconv.ParseUint` makes of decimal digits in 64 bits.
pub data Scanned : Type 0 where
  syntax range : Scanned
  value : ℕ → Scanned

scan_uint : ℕ → Bytes → Scanned
scan_uint n [] = value n
scan_uint n (x ∷ xs) =
    let m = n * 10 + (x - b'0') in
    let rest = scan_uint m xs in
    if is_digit x then (if leb (2 ^ 64) m then range else rest) else syntax

parse_uint : Bytes → Scanned
parse_uint [] = syntax
parse_uint (x ∷ xs) = scan_uint 0 (x ∷ xs)

positive : Scanned → ℤ × Bool
positive syntax = (pos 0, false)
positive range = (pos (2 ^ 63 - 1), false)
positive (value n) = if leb (2 ^ 63) n then (pos (2 ^ 63 - 1), false) else (pos n, true)

negative : Scanned → ℤ × Bool
negative syntax = (pos 0, false)
negative range = (negated (2 ^ 63), false)
negative (value n) = if ltb (2 ^ 63) n then (negated (2 ^ 63), false) else (negated n, true)

-- `strconv.ParseInt(s, 10, 64)`: the value, which is the nearest one that fits where the number does
-- not, and whether there is no error.
unfoldable pub parse_int : Bytes → ℤ × Bool
unfolding scan_uint parse_uint positive negative
parse_int [] = (pos 0, false)
parse_int (x ∷ xs) =
    if x == b'-'
    then negative (parse_uint xs)
    else if x == b'+'
    then positive (parse_uint xs)
    else positive (parse_uint (x ∷ xs))

-- The int64 that has these 64 bits.
signed64 : ℕ → ℤ
signed64 m = if ltb m (2 ^ 63) then pos m else negsuc (2 ^ 64 - 1 - m)

-- What is left of an integer in an int64.
unfoldable pub wrap_int64 : ℤ → ℤ
unfolding signed64
wrap_int64 (pos n) = signed64 (n % 2 ^ 64)
wrap_int64 (negsuc n) = signed64 (2 ^ 64 - 1 - n % 2 ^ 64)
