-- ===== src/Go/Space/Trim.antt =====
-- What TrimSpace leaves of a text that begins and ends with visible ASCII bytes.
use mathlib.Core.List.{reverse, reverse-append, reverse-reverse}
use mathlib.Core.Path.{subst}
use teleskop.Common.{ℕ, ◌≤◌, ◌<◌, ◌≡◌, true, [], ◌∷◌, ◌++◌, ap, sym, ◌∙◌, arith, All}
use teleskop.Go.Space.{is_ascii_space, width, width_back, trim_from, trim_space}
use teleskop.Go.Text.{Text}

abbrev pub IsVisible : ℕ → Type 0
IsVisible c = (33 ≤ c) × (c < 0x80)

width_visible : (c : ℕ) (s : Text) → IsVisible c → width (c ∷ s) ≡ 0
unfolding width
width_visible c [] h = ground arith
width_visible c (a ∷ []) h = ground arith
width_visible c (a ∷ b ∷ s) h = ground arith

width_back_visible : (c : ℕ) (s : Text) → IsVisible c → width_back (c ∷ s) ≡ 0
unfolding width_back
width_back_visible c [] h = ground arith
width_back_visible c (a ∷ []) h = ground arith
width_back_visible c (a ∷ b ∷ s) h = ground arith

trim_front : (c : ℕ) (s : Text) → IsVisible c → trim_from width 0 (c ∷ s) ≡ c ∷ s
unfolding trim_from
trim_front c s h = ground (arith, width_visible c s h)

width_back_space : (c : ℕ) (s : Text) → is_ascii_space c ≡ true → width_back (c ∷ s) ≡ 1
unfolding width_back
width_back_space c [] h = rw h
width_back_space c (a ∷ []) h = rw h
width_back_space c (a ∷ b ∷ s) h = rw h

trim_back :
    (spaces : Text) (d : ℕ) (s : Text)
    → All (λ c. is_ascii_space c ≡ true) spaces
    → IsVisible d
    → trim_from width_back 0 (spaces ++ d ∷ s) ≡ d ∷ s
unfolding trim_from
trim_back [] d s all h = ground (arith, width_back_visible d s h)
trim_back (c ∷ spaces) d s (hc, all) h =
    ground (arith, width_back_space c (spaces ++ d ∷ s) hc, trim_back spaces d s all h)

reverse_end : (back : Text) (d : ℕ) → reverse (back ++ d ∷ []) ≡ d ∷ reverse back
reverse_end back d = reverse-append back (d ∷ [])

trim_end :
    (back : Text) (d : ℕ) (spaces : Text)
    → IsVisible d
    → All (λ c. is_ascii_space c ≡ true) (reverse spaces)
    → reverse (trim_from width_back 0 (reverse ((back ++ d ∷ []) ++ spaces))) ≡ back ++ d ∷ []
trim_end back d spaces h all =
    rw (reverse-append, reverse_end)
      (rw (trim_back (reverse spaces) d (reverse back) all h)
        (ap reverse (sym (reverse_end back d)) ∙ reverse-reverse (back ++ d ∷ [])))

-- White space behind a text that begins and ends with visible bytes is taken off, and nothing else.
pub trim_space-append :
    (c : ℕ) (front : Text) (back : Text) (d : ℕ) (spaces : Text)
    → c ∷ front ≡ back ++ d ∷ []
    → IsVisible c
    → IsVisible d
    → All (λ s. is_ascii_space s ≡ true) (reverse spaces)
    → trim_space (c ∷ front ++ spaces) ≡ c ∷ front
unfolding trim_space
trim_space-append c front back d spaces e hc hd all = rw (trim_front c (front ++ spaces) hc) (
    subst (λ (u : Text). reverse (trim_from width_back 0 (reverse (u ++ spaces))) ≡ u) (sym e)
      (trim_end back d spaces hd all))
