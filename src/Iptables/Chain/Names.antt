-- ===== src/Iptables/Chain/Names.antt =====
-- The names of an interface's own chains.
use teleskop.Common.{
  ℕ, zero, suc, ◌+◌, ◌-◌, ◌≤◌, ◌≡◌, ◌≢◌, refl, ap, sym, ◌∙◌, [], ◌∷◌, ◌++◌, arith, length, take,
  length-append, length-take,
}
use teleskop.Go.Text.{Text}
use teleskop.Iptables.Chain.{get_valid_chain_name, max_chain_name_length}

take_all : (n : ℕ) (s : Text) → length s ≤ n → take n s ≡ s
take_all zero [] h = refl
take_all zero (c ∷ s) h = absurd (omega arith)
take_all (suc n) [] h = refl
take_all (suc n) (c ∷ s) h = ground (arith, take_all n s)

take-append : (n : ℕ) (s t : Text) → length s ≤ n → take n (s ++ t) ≡ s ++ take (n - length s) t
take-append n [] t h = ap (λ (k : ℕ). take k t) (omega arith)
take-append zero (c ∷ s) t h = absurd (omega arith)
take-append (suc n) (c ∷ s) t h =
    ap (λ (u : Text). c ∷ u)
      (take-append n s t (omega arith) ∙ ap (λ (k : ℕ). s ++ take k t) (omega arith))

name_of_take :
    (prefix val : Text)
    → get_valid_chain_name prefix val ≡ take max_chain_name_length (prefix ++ val)
unfolding get_valid_chain_name
name_of_take prefix val = ground (arith, take_all max_chain_name_length (prefix ++ val))

-- A chain's name has 29 bytes at most.
pub length-get_valid_chain_name :
    (prefix val : Text) → length (get_valid_chain_name prefix val) ≤ max_chain_name_length
length-get_valid_chain_name prefix val =
    rw name_of_take (omega (arith, length-take {0} max_chain_name_length (prefix ++ val)))

-- The name is the prefix, and as much of the interface's name as there is room for.
pub get_valid_chain_name_lem :
    (prefix val : Text)
    → length prefix ≤ max_chain_name_length
    → get_valid_chain_name prefix val ≡ prefix ++ take (max_chain_name_length - length prefix) val
get_valid_chain_name_lem prefix val fits =
    name_of_take prefix val ∙ take-append max_chain_name_length prefix val fits

-- What the name keeps of the interface's name.
abbrev room : Text → Text → Text
room prefix val = take (max_chain_name_length - length prefix) val

whole_name :
    (prefix val : Text)
    → length prefix + length val ≤ max_chain_name_length
    → get_valid_chain_name prefix val ≡ prefix ++ val
whole_name prefix val fits =
    name_of_take prefix val
    ∙ take_all max_chain_name_length (prefix ++ val) (omega (arith, length-append {0} prefix val))

append_cancel : (p s t : Text) → p ++ s ≡ p ++ t → s ≡ t
append_cancel [] s t e = e
append_cancel (c ∷ p) s t e = append_cancel p s t (ground arith)

prefixes_agree : (p q s t : Text) → length p ≡ length q → p ++ s ≡ q ++ t → p ≡ q
prefixes_agree [] [] s t same e = refl
prefixes_agree [] (d ∷ q) s t same e = absurd (omega arith)
prefixes_agree (c ∷ p) [] s t same e = absurd (omega arith)
prefixes_agree (c ∷ p) (d ∷ q) s t same e =
    ground (arith, prefixes_agree p q s t (omega arith) (ground arith))

-- Two interfaces whose names fit behind the prefix have the same chain only if they have the same
-- name.
pub get_valid_chain_name_injective :
    (prefix val val' : Text)
    → length prefix + length val ≤ max_chain_name_length
    → length prefix + length val' ≤ max_chain_name_length
    → get_valid_chain_name prefix val ≡ get_valid_chain_name prefix val'
    → val ≡ val'
get_valid_chain_name_injective prefix val val' fits fits' e =
    append_cancel prefix val val'
      (sym (whole_name prefix val fits) ∙ (e ∙ whole_name prefix val' fits'))

-- Chains of different prefixes of one length, at most 29 bytes, never have the same name.
pub get_valid_chain_name_apart :
    (prefix prefix' val val' : Text)
    → length prefix ≡ length prefix'
    → length prefix ≤ max_chain_name_length
    → prefix ≢ prefix'
    → get_valid_chain_name prefix val ≢ get_valid_chain_name prefix' val'
get_valid_chain_name_apart prefix prefix' val val' same fits differ e = differ (
    prefixes_agree prefix prefix' (room prefix val) (room prefix' val') same (
      sym (get_valid_chain_name_lem prefix val fits)
      ∙ (e ∙ get_valid_chain_name_lem prefix' val' (omega arith))))
