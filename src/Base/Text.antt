-- ===== src/Base/Text.antt =====
-- The functions of Go's packages strings, strconv and path/filepath that the program calls, over
-- native texts. A text's characters are its code points.
use Prim.Native.Nat.{ℕ, zero, suc, ◌+◌, ◌-◌, ◌*◌, ◌/◌, ◌%◌, ◌^◌}
use Prim.Native.Char.{Char, code}
use Prim.Native.String.{String, ◌++◌}
use text.Mathlib.Text.{◌==◌ as str_eq}
use mathlib.Core.Bool.{Bool, true, false, ◌&&◌, ◌||◌}
use mathlib.Core.Option.{Option, none, some}
use mathlib.Core.List.{List, [], ◌∷◌}
use kubernetes_local_volume.Base.Tests.{if◌then◌else◌, ◌==◌, leb, ltb}
use kubernetes_local_volume.Base.Int.{ℤ, pos, negsuc}

infixr 66 ◌<>◌
-- Go's `+` on texts.
abbrev pub ◌<>◌ : String → String → String
s <> t = s ++ t

-- Puts a character in front of the first part.
abbrev pub extend_head : Char → List String → List String
extend_head c [] = String.◌∷◌ c String.[] ∷ []
extend_head c (p ∷ ps) = String.◌∷◌ c p ∷ ps

-- `strings.Split(s, sep)` for a separator of one character, given by its code point.
unfoldable pub split : ℕ → String → List String
split sep String.[] = "" ∷ []
split sep (String.◌∷◌ c s) =
    let parts = split sep s in if code c == sep then "" ∷ parts else extend_head c parts

-- `strings.Join`
unfoldable pub join : String → List String → String
join sep [] = ""
join sep (s ∷ []) = s
join sep (s ∷ t ∷ ts) = s <> sep <> join sep (t ∷ ts)

-- `strings.HasPrefix(s, p)`
unfoldable pub has_prefix : String → String → Bool
has_prefix s String.[] = true
has_prefix String.[] (String.◌∷◌ d p) = false
has_prefix (String.◌∷◌ c s) (String.◌∷◌ d p) = code c == code d && has_prefix s p

-- `strings.Contains(s, t)`
unfoldable pub contains : String → String → Bool
unfolding has_prefix
contains String.[] t = has_prefix "" t
contains (String.◌∷◌ c s) t = has_prefix (String.◌∷◌ c s) t || contains s t

-- What follows the prefix `p` of `s`; `none` if `p` is no prefix.
unfoldable pub strip_prefix : String → String → Option String
strip_prefix s String.[] = some s
strip_prefix String.[] (String.◌∷◌ d p) = none
strip_prefix (String.◌∷◌ c s) (String.◌∷◌ d p) = if code c == code d then strip_prefix s p else none

-- `strings.TrimPrefix(s, p)`
unfoldable pub trim_prefix : String → String → String
unfolding strip_prefix
trim_prefix s p = elim (strip_prefix s p) [ none ↦ s | some rest ↦ rest ]

-- `strings.Replace(s, old, "", 1)` for a text `old` that is not empty.
unfoldable pub remove_first : String → String → String
unfolding strip_prefix
remove_first String.[] old = ""
remove_first (String.◌∷◌ c s) old =
    let later = String.◌∷◌ c (remove_first s old) in
    elim (strip_prefix (String.◌∷◌ c s) old) [ none ↦ later | some rest ↦ rest ]

-- `unicode.IsSpace`
unfoldable pub is_space : ℕ → Bool
is_space c =
    (leb 9 c && leb c 13)
    || c == 32
    || c == 0x85
    || c == 0xa0
    || c == 0x1680
    || (leb 0x2000 c && leb c 0x200a)
    || c == 0x2028
    || c == 0x2029
    || c == 0x202f
    || c == 0x205f
    || c == 0x3000

unfoldable pub trim_left : String → String
unfolding is_space
trim_left String.[] = ""
trim_left (String.◌∷◌ c s) =
    let rest = trim_left s in if is_space (code c) then rest else String.◌∷◌ c s

unfoldable pub trim_right : String → String
unfolding is_space
trim_right String.[] = ""
trim_right (String.◌∷◌ c s) =
    let rest = trim_right s in if is_space (code c) && str_eq rest "" then "" else String.◌∷◌ c rest

-- `strings.TrimSpace`
unfoldable pub trim_space : String → String
unfolding trim_left trim_right
trim_space s = trim_right (trim_left s)

abbrev is_digit : ℕ → Bool
is_digit c = leb b'0' c && leb c b'9'

-- The value of a text of digits, read on from `n`; `none` at any other character.
unfoldable pub parse_digits : ℕ → String → Option ℕ
parse_digits n String.[] = some n
parse_digits n (String.◌∷◌ c s) =
    let rest = parse_digits (n * 10 + (code c - b'0')) s in if is_digit (code c) then rest else none

-- At least one digit.
unfoldable pub parse_unsigned : String → Option ℕ
unfolding parse_digits
parse_unsigned String.[] = none
parse_unsigned (String.◌∷◌ c s) = parse_digits 0 (String.◌∷◌ c s)

abbrev negate : ℕ → ℤ
negate zero = pos 0
negate (suc n) = negsuc n

-- `strconv.ParseInt(s, 10, 64)`, which `strconv.Atoi` is on a 64-bit machine: a sign at most, then
-- digits, and a value in the range of int64. `none` is a syntax or a range error.
unfoldable pub parse_int : String → Option ℤ
unfolding parse_unsigned
parse_int String.[] = none
parse_int (String.◌∷◌ c s) =
    if code c == b'-'
    then elim (parse_unsigned s) [
      | none ↦ none
      | some n ↦ if leb n (2 ^ 63) then some (negate n) else none
    ]
    else elim (parse_unsigned (if code c == b'+' then s else String.◌∷◌ c s)) [
      | none ↦ none
      | some n ↦ if ltb n (2 ^ 63) then some (pos n) else none
    ]

abbrev digit : ℕ → String
digit n =
    if n == 0
    then "0"
    else if n == 1
    then "1"
    else if n == 2
    then "2"
    else if n == 3
    then "3"
    else if n == 4
    then "4"
    else if n == 5
    then "5"
    else if n == 6
    then "6"
    else if n == 7
    then "7"
    else if n == 8
    then "8"
    else "9"

show_fuel : ℕ → ℕ → String
show_fuel zero n = ""
show_fuel (suc f) n =
    let front = show_fuel f (n / 10) in if ltb n 10 then digit n else front <> digit (n % 10)

-- `%d` of a number that is not negative. A number has fewer digits than its successor is large.
unfoldable pub show_ℕ : ℕ → String
unfolding show_fuel
show_ℕ n = show_fuel (suc n) n

-- `%d`
unfoldable pub show_ℤ : ℤ → String
unfolding show_ℕ
show_ℤ (pos n) = show_ℕ n
show_ℤ (negsuc n) = "-" <> show_ℕ (suc n)

-- The parts of a rooted path after `filepath.Clean`, innermost first: empty parts and "." go, and
-- ".." takes the part before it away.
clean_parts : List String → List String → List String
clean_parts done [] = done
clean_parts done (p ∷ ps) =
    clean_parts
      (if str_eq p "" || str_eq p "."
        then done
        else if str_eq p ".."
        then elim done [ [] ↦ [] | _ ∷ up ↦ up ]
        else p ∷ done)
      ps

rooted : List String → String
rooted [] = ""
rooted (p ∷ ps) = rooted ps <> "/" <> p

-- `filepath.Join`, where the first of the elements begins with "/".
unfoldable pub path_join : List String → String
unfolding join split clean_parts rooted
path_join elements =
    let path = rooted (clean_parts [] (split b'/' (join "/" elements))) in
    if str_eq path "" then "/" else path
