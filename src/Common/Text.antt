-- ===== src/Common/Text.antt =====
-- What the source uses of JavaScript strings: `trim()`, and the truth of a trimmed optional string.
use Prim.Native.Nat.{ℕ, ◌+◌, ◌≤◌}
use Prim.Native.Char.{code}
use Prim.Native.String.{String, [], ◌∷◌}
use mathlib.Core.Path.{◌≡◌, refl}
use mathlib.Core.Bool.{Bool, true, false, ◌||◌, ◌&&◌}
use mathlib.Core.Option.{Option, none, some}
use mathlib.Core.List.{List, [] as nil, ◌∷◌ as cons}
use native.Mathlib.Omega.{arith}
use gall_pr.Common.Lists.{length, All}
use gall_pr.Common.Tests.{◌==◌, leb, if◌then◌else◌}

-- White space and line terminators of ECMAScript.
is_space : ℕ → Bool
is_space c =
    (leb 9 c && leb c 13)
    || c == 0x20
    || c == 0xa0
    || c == 0x1680
    || (leb 0x2000 c && leb c 0x200a)
    || c == 0x2028
    || c == 0x2029
    || c == 0x202f
    || c == 0x205f
    || c == 0x3000
    || c == 0xfeff

trim_start : String → String
unfolding is_space
trim_start [] = []
trim_start (c ∷ s) = if is_space (code c) then trim_start s else c ∷ s

abbrev is_empty : String → Bool
is_empty [] = true
is_empty (c ∷ s) = false

trim_end : String → String
unfolding is_space
trim_end [] = []
trim_end (c ∷ s) =
    let rest = trim_end s in if is_empty rest && is_space (code c) then [] else c ∷ rest

unfoldable pub trim : String → String
unfolding trim_start trim_end
trim s = trim_end (trim_start s)

-- `s.length`: UTF-16 code units.
unfoldable pub utf16_length : String → ℕ
utf16_length [] = 0
utf16_length (c ∷ s) = (if leb 0x10000 (code c) then 2 else 1) + utf16_length s

-- The characters' codes.
unfoldable pub codes : String → List ℕ
codes [] = nil
codes (c ∷ s) = cons (code c) (codes s)

-- `s` itself where it is a true value: a string that is not empty.
unfoldable pub non_empty : String → Option String
non_empty [] = none
non_empty (c ∷ s) = some (c ∷ s)

-- `x?.trim() || null`
unfoldable pub trimmed : Option String → Option String
unfolding trim non_empty
trimmed none = none
trimmed (some s) = non_empty (trim s)

-- The truth of `x?.trim()`.
unfoldable pub is_filled : Option String → Bool
unfolding trimmed
is_filled x = elim (trimmed x) [ none ↦ false | some s ↦ true ]

trim_example : trim "  a b \n" ≡ "a b"
unfolding trim
trim_example = refl

is_filled_example : is_filled (some " \t") ≡ false
unfolding is_filled
is_filled_example = refl

-- Where no character needs two code units, the length is the number of characters.
pub utf16_length-codes :
    (s : String) → All (λ c. c ≤ 127) (codes s) → utf16_length s ≡ length (codes s)
unfolding utf16_length codes
utf16_length-codes [] h = omega arith
utf16_length-codes (c ∷ s) (p, h) = ground (arith, p, utf16_length-codes s h)
