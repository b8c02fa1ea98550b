-- ===== src/Go/Text/Split.antt =====
-- Splitting a text that is made of parts without the separator.
use native.Mathlib.Decide.{ℕ_discrete}
use teleskop.Common.{
  ℕ, ◌≡◌, ◌≢◌, ◌⊎◌, inl, inr, refl, true, false, List, [], ◌∷◌, ◌++◌, arith, All, ◌==◌,
}
use teleskop.Go.Text.{Text, prepend, split}

-- No byte of the text is b.
abbrev pub Lacks : ℕ → Text → Type 0
Lacks b = All (λ c. c ≢ b)

pub split-Lacks_whole : (sep : ℕ) (s : Text) → Lacks sep s → split s sep ≡ s ∷ []
unfolding split prepend
split-Lacks_whole sep [] h = refl
split-Lacks_whole sep (c ∷ s) (h, hs) = ground (arith, split-Lacks_whole sep s hs)

pub split-append : (sep : ℕ) (s t : Text) → Lacks sep s → split (s ++ sep ∷ t) sep ≡ s ∷ split t sep
unfolding split prepend
split-append sep [] t h = ground arith
split-append sep (c ∷ s) t (h, hs) = ground (arith, split-append sep s t hs)

pub Lacks-append : (b : ℕ) (s t : Text) → Lacks b s → Lacks b t → Lacks b (s ++ t)
Lacks-append b [] t hs ht = ht
Lacks-append b (c ∷ s) t (h, hs) ht = (h, Lacks-append b s t hs ht)

prepend-All : (b c : ℕ) (ps : List Text) → c ≢ b → All (Lacks b) ps → All (Lacks b) (prepend c ps)
unfolding prepend
prepend-All b c [] h hs = ((h, tt), tt)
prepend-All b c (p ∷ ps) h (hp, hs) = ((h, hp), hs)

-- No part holds the separator.
pub split-Lacks : (sep : ℕ) (s : Text) → All (Lacks sep) (split s sep)
unfolding split
split-Lacks sep [] = (tt, tt)
split-Lacks sep (c ∷ s) = elim (ℕ_discrete c sep) [
  | yes at_sep ↦ rw (c_is_sep at_sep) (tt, split-Lacks sep s)
  | no other ↦ rw (c_is_not_sep other) (prepend-All sep c (split s sep) other (split-Lacks sep s))
]
  where
    c_is_sep : c ≡ sep → (c == sep) ≡ true
    c_is_sep e = ground arith

    c_is_not_sep : c ≢ sep → (c == sep) ≡ false
    c_is_not_sep e = ground arith

prepend_long :
    (c : ℕ) (p : Text) (ps : List Text)
    → prepend c ps ≡ p ∷ []
    → (q : Text) × ((ps ≡ []) ⊎ (ps ≡ q ∷ []))
unfolding prepend
prepend_long c p [] e = ([], inl refl)
prepend_long c p (q ∷ []) e = (q, inr refl)
prepend_long c p (q ∷ r ∷ ps) e = cc

pub split-ne-nil : (sep : ℕ) (s : Text) → split s sep ≢ []
unfolding split prepend
split-ne-nil sep [] e = cc
split-ne-nil sep (c ∷ s) e = ground arith

Sum_elim : {A B C : Type 0} → A ⊎ B → (A → C) → (B → C) → C
Sum_elim (inl a) f g = f a
Sum_elim (inr b) f g = g b

-- A text with one part does not hold the separator.
pub split_single : (sep : ℕ) (s p : Text) → split s sep ≡ p ∷ [] → Lacks sep s
unfolding split
split_single sep [] p e = tt
split_single sep (c ∷ s) p e = elim (ℕ_discrete c sep) [
  | yes at_sep ↦ absurd (split-ne-nil sep s (unfold split in ground arith))
  | no other ↦
      let (q, found) = prepend_long c p (split s sep) (ground arith) in
      (
        other,
        Sum_elim found (λ nothing. absurd (split-ne-nil sep s nothing)) (split_single sep s q),
      )
]
