-- ===== src/Go/Text.antt =====
-- Go strings as the lists of their bytes, and the functions of strings and fmt that the agent calls.
pub mod Split
pub mod Digits
use Prim.Native.Char.{code}
use teleskop.Common.{
  ℕ, zero, suc, ◌+◌, ◌/◌, ◌%◌, String, Bool, true, false, ◌&&◌, ◌||◌, List, [], ◌∷◌, ◌++◌, ltb,
  ◌==◌, if◌then◌else◌,
}

abbrev pub Text : Type 0
Text = List ℕ

-- The bytes of an ASCII literal.
unfoldable pub codes : String → Text
codes String.[] = []
codes (String.◌∷◌ c s) = code c ∷ codes s

unfoldable pub prepend : ℕ → List Text → List Text
prepend c [] = (c ∷ []) ∷ []
prepend c (p ∷ ps) = (c ∷ p) ∷ ps

-- strings.Split(s, sep) for a separator of one byte.
unfoldable pub split : Text → ℕ → List Text
split [] sep = [] ∷ []
split (c ∷ s) sep = let rest = split s sep in if c == sep then [] ∷ rest else prepend c rest

-- strings.Contains(s, b) for a text b of one byte.
unfoldable pub contains : Text → ℕ → Bool
contains [] b = false
contains (c ∷ s) b = (c == b) || contains s b

-- strings.ReplaceAll(s, b, "") for a text b of one byte.
unfoldable pub remove_all : Text → ℕ → Text
remove_all [] b = []
remove_all (c ∷ s) b = let rest = remove_all s b in if c == b then rest else c ∷ rest

-- strings.HasPrefix(s, p).
unfoldable pub has_prefix : Text → Text → Bool
has_prefix s [] = true
has_prefix [] (p ∷ ps) = false
has_prefix (c ∷ s) (p ∷ ps) = (c == p) && has_prefix s ps

-- strings.Join(words, sep).
unfoldable pub join : List Text → Text → Text
join [] sep = []
join (w ∷ []) sep = w
join (w ∷ v ∷ ws) sep = w ++ (sep ++ join (v ∷ ws) sep)

unfoldable pub digits : ℕ → ℕ → Text → Text
digits zero n out = out
digits (suc f) n out =
    let more = digits f (n / 10) ((b'0' + n % 10) ∷ out) in
    if ltb n 10 then (b'0' + n) ∷ out else more

-- fmt.Sprintf("%d", n) for an unsigned n. There are no more digits than the fuel suc n.
unfoldable pub decimal : ℕ → Text
unfolding digits
decimal n = digits (suc n) n []
