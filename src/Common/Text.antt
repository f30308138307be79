-- ===== src/Common/Text.antt =====
-- The operations of Rust's `str` that the program uses. A literal is ASCII, so that its characters
-- count as its bytes do.
pub mod Numbers
pub mod Parts
use Prim.Native.Nat.{ℕ, zero, suc, ◌+◌, ◌-◌, ◌*◌, ◌/◌, ◌%◌}
use Prim.Native.Char.{Char, code}
use Prim.Native.String.{String}
use mathlib.Core.Path.{◌≡◌}
use mathlib.Core.Bool.{Bool, true, false, not, ◌&&◌, ◌||◌}
use mathlib.Core.List.{List, [], ◌∷◌}
use mathlib.Core.Logic.{◌⊎◌, inl, inr}
use stratum_v2_tools.Common.Tests.{ltb, leb, nat_beq, if◌then◌else◌}

unfoldable pub is_empty : String → Bool
is_empty String.[] = true
is_empty (String.◌∷◌ c s) = false

infixr 65 ◌<>◌
unfoldable pub ◌<>◌ : String → String → String
String.[] <> t = t
(String.◌∷◌ c s) <> t = String.◌∷◌ c (s <> t)

unfoldable pub starts_with : String → String → Bool
starts_with s String.[] = true
starts_with String.[] (String.◌∷◌ d t) = false
starts_with (String.◌∷◌ c s) (String.◌∷◌ d t) = nat_beq (code c) (code d) && starts_with s t

-- `&s[n..]` behind `n` ASCII characters.
unfoldable pub skip : ℕ → String → String
skip zero s = s
skip (suc n) String.[] = String.[]
skip (suc n) (String.◌∷◌ c s) = skip n s

-- Put a character before the first part.
abbrev pub onto_first : Char → List String → List String
onto_first c [] = (String.◌∷◌ c String.[]) ∷ []
onto_first c (p ∷ ps) = (String.◌∷◌ c p) ∷ ps

-- `s.split(b).collect()`; there is always one part.
unfoldable pub split : ℕ → String → List String
split b String.[] = String.[] ∷ []
split b (String.◌∷◌ c s) =
    let rest = split b s in if nat_beq (code c) b then String.[] ∷ rest else onto_first c rest

-- No character of the text is `b`.
unfoldable pub lacks : ℕ → String → Bool
lacks b String.[] = true
lacks b (String.◌∷◌ c s) = not (nat_beq (code c) b) && lacks b s

unfoldable pub lower : ℕ → ℕ
lower c = if leb b'A' c && leb c b'Z' then c + 32 else c

-- `s.to_lowercase() == word` for a word of small ASCII letters without `k`: no other character has
-- such a letter as its lower case.
unfoldable pub lowers_to : String → String → Bool
lowers_to String.[] String.[] = true
lowers_to String.[] (String.◌∷◌ d w) = false
lowers_to (String.◌∷◌ c s) String.[] = false
lowers_to (String.◌∷◌ c s) (String.◌∷◌ d w) = nat_beq (lower (code c)) (code d) && lowers_to s w

unfoldable pub digit : ℕ → Char
digit n =
    if nat_beq n 0
    then "0"
    else if nat_beq n 1
    then "1"
    else if nat_beq n 2
    then "2"
    else if nat_beq n 3
    then "3"
    else if nat_beq n 4
    then "4"
    else if nat_beq n 5
    then "5"
    else if nat_beq n 6
    then "6"
    else if nat_beq n 7
    then "7"
    else if nat_beq n 8
    then "8"
    else "9"

-- The decimal digits of a number below `10 ^ fuel`, before a text.
unfoldable pub show_onto : ℕ → ℕ → String → String
show_onto zero n acc = acc
show_onto (suc fuel) n acc =
    let rest = show_onto fuel (n / 10) (String.◌∷◌ (digit (n % 10)) acc) in
    if ltb n 10 then String.◌∷◌ (digit n) acc else rest

-- `{}` of an unsigned integer; twenty digits hold 2 ^ 64.
unfoldable pub show : ℕ → String
show n = show_onto 20 n String.[]

-- `FromStr` of an unsigned integer below `bound`: the digits after those that make `n`.
unfoldable pub scan : ℕ → String → ℕ → String ⊎ ℕ
scan bound String.[] n = inr n
scan bound (String.◌∷◌ c s) n =
    let rest = scan bound s (n * 10 + (code c - b'0')) in
    if ltb (code c) b'0' || ltb b'9' (code c)
    then inl "invalid digit found in string"
    else if leb bound (n * 10 + (code c - b'0'))
    then inl "number too large to fit in target type"
    else rest

unfoldable pub scan_some : ℕ → String → String ⊎ ℕ
scan_some bound String.[] = inl "invalid digit found in string"
scan_some bound (String.◌∷◌ c s) = scan bound (String.◌∷◌ c s) 0

-- A sign `+` may stand first.
unfoldable pub parse_unsigned : ℕ → String → String ⊎ ℕ
parse_unsigned bound String.[] = inl "cannot parse integer from empty string"
parse_unsigned bound (String.◌∷◌ c s) =
    if nat_beq (code c) b'+' then scan_some bound s else scan_some bound (String.◌∷◌ c s)
