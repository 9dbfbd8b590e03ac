-- ===== src/Prelude/Text.antt =====
-- Texts as lists of codes, and what Go's `strings` and `strconv` do to them.
use Prim.Native.Nat.{ℕ, ◌+◌, ◌-◌, ◌*◌, ◌^◌}
use Prim.Native.Char.{code}
use Prim.Native.String.{String}
use mathlib.Core.Path.{◌≡◌, refl}
use mathlib.Core.Logic.{◌↔◌}
use native.Mathlib.Omega.{arith}
use mathlib.Core.Bool.{Bool, true, false, ◌&&◌, ◌||◌}
use mathlib.Core.List.{List, [], ◌∷◌}
use mathlib.Core.Option.{Option, none, some}
use viiwork_freetoken.Prelude.Tests.{leb, ◌==◌, if◌then◌else◌}
use viiwork_freetoken.Prelude.Int.{ℤ, pos, negated}

abbrev pub Bytes : Type 0
Bytes = List ℕ

abbrev pub codes : String → Bytes
codes String.[] = []
codes (String.◌∷◌ c s) = code c ∷ codes s

abbrev pub is_empty_text : Bytes → Bool
is_empty_text [] = true
is_empty_text (_ ∷ _) = false

abbrev pub is_prefix : Bytes → Bytes → Bool
is_prefix [] ys = true
is_prefix (x ∷ xs) [] = false
is_prefix (x ∷ xs) (y ∷ ys) = let rest = is_prefix xs ys in if x == y then rest else false

abbrev pub same_bytes : Bytes → Bytes → Bool
same_bytes [] [] = true
same_bytes [] (y ∷ ys) = false
same_bytes (x ∷ xs) [] = false
same_bytes (x ∷ xs) (y ∷ ys) = let rest = same_bytes xs ys in if x == y then rest else false

pub same_bytes_iff : (xs ys : Bytes) → (same_bytes xs ys ≡ true) ↔ (xs ≡ ys)
same_bytes_iff [] [] = ((λ h. refl), (λ h. refl))
same_bytes_iff [] (y ∷ ys) = ((λ h. absurd (ground arith)), (λ h. absurd (ground arith)))
same_bytes_iff (x ∷ xs) [] = ((λ h. absurd (ground arith)), (λ h. absurd (ground arith)))
same_bytes_iff (x ∷ xs) (y ∷ ys) =
    let rest = same_bytes_iff xs ys in ((λ h. ground (arith, rest)), (λ h. ground (arith, rest)))

abbrev pub put_first : ℕ → List Bytes → List Bytes
put_first x [] = (x ∷ []) ∷ []
put_first x (piece ∷ pieces) = (x ∷ piece) ∷ pieces

-- `strings.Split` at a separator of one byte.
abbrev pub split : ℕ → Bytes → List Bytes
split sep [] = [] ∷ []
split sep (x ∷ xs) = let rest = split sep xs in if x == sep then [] ∷ rest else put_first x rest

-- `unicode.IsSpace`.
abbrev pub is_space : ℕ → Bool
is_space c =
    (leb 9 c && leb c 13)
    || c == 32
    || c == 133
    || c == 160
    || c == 5760
    || (leb 8192 c && leb c 8202)
    || c == 8232
    || c == 8233
    || c == 8239
    || c == 8287
    || c == 12288

abbrev pub trim_left : Bytes → Bytes
trim_left [] = []
trim_left (x ∷ xs) = let rest = trim_left xs in if is_space x then rest else x ∷ xs

abbrev pub trim_right : Bytes → Bytes
trim_right [] = []
trim_right (x ∷ xs) =
    let rest = trim_right xs in if is_empty_text rest && is_space x then [] else x ∷ rest

abbrev pub trim_space : Bytes → Bytes
trim_space xs = trim_right (trim_left xs)

abbrev pub is_digit : ℕ → Bool
is_digit c = leb b'0' c && leb c b'9'

-- Decimal digits, read from the left.
pub digits : ℕ → Bytes → Option ℕ
digits n [] = some n
digits n (x ∷ xs) = let rest = digits (n * 10 + (x - b'0')) xs in if is_digit x then rest else none

pub natural : Bytes → Option ℕ
natural [] = none
natural (x ∷ xs) = digits 0 (x ∷ xs)

-- A number that does not fit 64 bits is an error.
signed : (ℕ → ℤ) → ℕ → Option ℕ → Option ℤ
signed sign bound none = none
signed sign bound (some n) = if leb n bound then some (sign n) else none

-- `strconv.Atoi`.
unfoldable pub atoi : Bytes → Option ℤ
unfolding natural digits signed
atoi [] = none
atoi (x ∷ xs) =
    if x == b'-'
    then signed negated (2 ^ 63) (natural xs)
    else if x == b'+'
    then signed (λ n. pos n) (2 ^ 63 - 1) (natural xs)
    else signed (λ n. pos n) (2 ^ 63 - 1) (natural (x ∷ xs))
