-- ===== src/Go/Space.antt =====
-- strings.TrimSpace, on the bytes of UTF-8.
pub mod Trim
use mathlib.Core.List.{reverse}
use teleskop.Common.{
  ℕ, zero, suc, ◌-◌, ◌≡◌, refl, Bool, true, false, ◌&&◌, ◌||◌, List, [], ◌∷◌, arith, leb, ◌==◌,
  if◌then◌else◌,
}
use teleskop.Go.Text.{Text}

-- The white space of one byte: \t \n \v \f \r and the blank.
unfoldable pub is_ascii_space : ℕ → Bool
is_ascii_space c = (leb 9 c && leb c 13) || c == 32

-- U+0085 and U+00A0
space_of_two : ℕ → ℕ → Bool
space_of_two a b = a == 0xc2 && (b == 0x85 || b == 0xa0)

-- U+1680, U+2000 to U+200A, U+2028, U+2029, U+202F, U+205F and U+3000
space_of_three : ℕ → ℕ → ℕ → Bool
space_of_three a b c =
    (a == 0xe1 && b == 0x9a && c == 0x80)
    || (a == 0xe2
        && ((b == 0x80 && ((leb 0x80 c && leb c 0x8a) || c == 0xa8 || c == 0xa9 || c == 0xaf))
            || (b == 0x81 && c == 0x9f)))
    || (a == 0xe3 && b == 0x80 && c == 0x80)

-- The number of bytes of the white space that a text begins with, 0 if there is none.
width : Text → ℕ
unfolding is_ascii_space space_of_two space_of_three
width [] = 0
width (a ∷ []) = if is_ascii_space a then 1 else 0
width (a ∷ b ∷ []) = if is_ascii_space a then 1 else if space_of_two a b then 2 else 0
width (a ∷ b ∷ c ∷ s) =
    if is_ascii_space a
    then 1
    else if space_of_two a b
    then 2
    else if space_of_three a b c
    then 3
    else 0

-- The same of the white space that a text ends with, read backwards.
width_back : Text → ℕ
unfolding is_ascii_space space_of_two space_of_three
width_back [] = 0
width_back (a ∷ []) = if is_ascii_space a then 1 else 0
width_back (a ∷ b ∷ []) = if is_ascii_space a then 1 else if space_of_two b a then 2 else 0
width_back (a ∷ b ∷ c ∷ s) =
    if is_ascii_space a
    then 1
    else if space_of_two b a
    then 2
    else if space_of_three c b a
    then 3
    else 0

-- Drops `skip` bytes, and then white space as `measure` finds it.
trim_from : (Text → ℕ) → ℕ → Text → Text
trim_from measure skip [] = []
trim_from measure (suc skip) (c ∷ s) = trim_from measure skip s
trim_from measure zero (c ∷ s) =
    let rest = trim_from measure (measure (c ∷ s) - 1) s in
    if measure (c ∷ s) == 0 then c ∷ s else rest

unfoldable pub trim_space : Text → Text
unfolding trim_from width width_back
trim_space s = reverse (trim_from width_back 0 (reverse (trim_from width 0 s)))
