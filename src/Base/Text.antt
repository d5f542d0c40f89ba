-- ===== src/Base/Text.antt =====
-- Texts as the program takes them apart and puts them together (`str::split`, `trim`, `format!`,
-- decimal numbers), over code points.
use Prim.Native.Nat.{ℕ, zero, suc, ◌+◌, ◌/◌, ◌%◌}
use Prim.Native.Char.{Char, code}
use Prim.Native.String.{String, [], ◌∷◌}
use Prim.Native.String
use mathlib.Core.Path.{◌≡◌, refl}
use mathlib.Core.Logic.{◌≢◌}
use mathlib.Core.Bool.{Bool, true, false, ◌&&◌, ◌||◌}
use mathlib.Core.List.{List}
use native.Mathlib.Omega.{arith}
use text.Mathlib.TextLemmas.{nil-append, cons-append}
use ocpp_proxy.Base.Tests.{if◌then◌else◌, leb, ltb, eqb}

-- `format!` and `+` on texts: the pieces in order
abbrev pub format : List String → String
format List.[] = ""
format (List.◌∷◌ s ss) = String.◌++◌ s (format ss)

abbrev pub digit : ℕ → String
digit n =
    if eqb n 0
    then "0"
    else if eqb n 1
    then "1"
    else if eqb n 2
    then "2"
    else if eqb n 3
    then "3"
    else if eqb n 4
    then "4"
    else if eqb n 5
    then "5"
    else if eqb n 6
    then "6"
    else if eqb n 7
    then "7"
    else if eqb n 8
    then "8"
    else "9"

-- a number has at most as many digits as its value plus one
decimal_digits : ℕ → ℕ → String
decimal_digits zero n = ""
decimal_digits (suc fuel) n =
    let more = decimal_digits fuel (n / 10) in
    String.◌++◌ (if ltb n 10 then "" else more) (digit (n % 10))

-- `n.to_string()` of an unsigned integer
pub decimal : ℕ → String
unfolding decimal_digits
decimal n = decimal_digits (n + 1) n

abbrev pub push_head : Char → List String → List String
push_head c List.[] = List.◌∷◌ (c ∷ []) List.[]
push_head c (List.◌∷◌ p ps) = List.◌∷◌ (c ∷ p) ps

-- `s.split(c)`
unfoldable pub split : ℕ → String → List String
split sep [] = List.◌∷◌ "" List.[]
split sep (c ∷ s) =
    let parts = split sep s in if eqb (code c) sep then List.◌∷◌ "" parts else push_head c parts

-- the characters with the property White_Space
unfoldable pub is_whitespace : ℕ → Bool
is_whitespace n =
    (leb 9 n && leb n 13)
    || eqb n 32
    || eqb n 0x85
    || eqb n 0xa0
    || eqb n 0x1680
    || (leb 0x2000 n && leb n 0x200a)
    || eqb n 0x2028
    || eqb n 0x2029
    || eqb n 0x202f
    || eqb n 0x205f
    || eqb n 0x3000

unfoldable pub trim_start : String → String
unfolding is_whitespace
trim_start [] = []
trim_start (c ∷ s) = let rest = trim_start s in if is_whitespace (code c) then rest else c ∷ s

abbrev pub is_blank : String → Bool
is_blank [] = true
is_blank (c ∷ s) = false

unfoldable pub trim_end : String → String
unfolding is_whitespace
trim_end [] = []
trim_end (c ∷ s) =
    let rest = trim_end s in if is_blank rest && is_whitespace (code c) then [] else c ∷ rest

-- `s.trim()`
unfoldable pub trim : String → String
unfolding trim_start trim_end
trim s = trim_end (trim_start s)

-- `s.ends_with(c)`
unfoldable pub ends_with : ℕ → String → Bool
ends_with c [] = false
ends_with c (d ∷ []) = eqb (code d) c
ends_with c (d ∷ e ∷ s) = ends_with c (e ∷ s)

-- `s.starts_with('{')`
abbrev pub starts_with_char : ℕ → String → Bool
starts_with_char c [] = false
starts_with_char c (d ∷ s) = eqb (code d) c

lower : ℕ → ℕ
lower n = if leb b'A' n && leb n b'Z' then n + 32 else n

-- `s.to_ascii_lowercase() == t`
unfoldable pub lowers_to : String → String → Bool
unfolding lower
lowers_to [] [] = true
lowers_to [] (d ∷ t) = false
lowers_to (c ∷ s) [] = false
lowers_to (c ∷ s) (d ∷ t) = eqb (lower (code c)) (code d) && lowers_to s t

-- No character of the text is `sep`.
abbrev pub Lacks : ℕ → String → Type 0
Lacks sep [] = Unit
Lacks sep (c ∷ s) = (code c ≢ sep) × Lacks sep s

pub split_one : (sep : ℕ) (s : String) → Lacks sep s → split sep s ≡ List.◌∷◌ s List.[]
unfolding split
split_one sep [] h = refl
split_one sep (c ∷ s) (n, h) = ground (arith, split_one sep s h)

pub split-append :
    (sep : ℕ) (s : String) (c : Char) (t : String)
    → Lacks sep s
    → code c ≡ sep
    → split sep (String.◌++◌ s (c ∷ t)) ≡ List.◌∷◌ s (split sep t)
unfolding split
split-append sep [] c t h e = rw nil-append (ground arith)
split-append sep (d ∷ s) c t (n, h) e = rw cons-append (ground (arith, split-append sep s c t h e))

trim_padded : trim "  16.0 " ≡ "16.0"
unfolding trim
trim_padded = refl

split_topic :
    split b'/' "ocpp/CP/command" ≡ List.◌∷◌ "ocpp" (List.◌∷◌ "CP" (List.◌∷◌ "command" List.[]))
unfolding split
split_topic = refl

decimal_1001 : decimal 1001 ≡ "1001"
unfolding decimal
decimal_1001 = refl

-- `parts.join(sep)`
abbrev pub join : String → List String → String
join sep List.[] = ""
join sep (List.◌∷◌ s List.[]) = s
join sep (List.◌∷◌ s (List.◌∷◌ t ts)) =
    format (List.◌∷◌ s (List.◌∷◌ sep (List.◌∷◌ (join sep (List.◌∷◌ t ts)) List.[])))
