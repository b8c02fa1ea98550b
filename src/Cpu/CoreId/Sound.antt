-- ===== src/Cpu/CoreId/Sound.antt =====
-- What extractCoreID can return.
use teleskop.Common.{ℕ, ◌+◌, ◌-◌, ◌^◌, ◌≤◌, ◌<◌, ◌≡◌, refl, List, [], ◌∷◌, arith, All, ap, sym, ◌∙◌}
use teleskop.Cpu.CoreId.{count_up, rounds_between, extract_parts, extract_core_id}
use teleskop.Cpu.CoreId.Range.{enumerate, count_up-enumerate}
use teleskop.Go.Error.{Outcome, ok, err, panic, ◌>>=◌}
use teleskop.Go.Int.{ℤ, pos, uint32, parse_int}
use teleskop.Go.Int.Print.{parse_int_bounds}
use teleskop.Go.Space.{trim_space}
use teleskop.Go.Text.{Text, split}
use teleskop.Go.Text.Split.{Lacks, split-Lacks, split_single, split-ne-nil}

-- The cores a, a + 1, …, a + n - 1, all below 2^31.
pub record IsRun (ids : List ℕ) : Type 0 where
  pub first : ℕ
  pub count : ℕ
  pub cores : ids ≡ enumerate first count
  pub fits : first + count ≤ 2 ^ 31

>>=-ok {ℓ κ} :
    {A : Type ℓ} {B : Type κ} (m : Outcome A) (f : A → Outcome B) {b : B}
    → (m >>= f) ≡ ok b
    → (a : A) × (m ≡ ok a) × (f a ≡ ok b)
>>=-ok (ok a) f h = (a, refl, h)
>>=-ok (err e) f h = cc
>>=-ok panic f h = cc

ok_injective {ℓ} : {A : Type ℓ} (a b : A) → ok a ≡ ok b → a ≡ b
ok_injective a b h = cc

lone_cores :
    (z : ℤ) (n : ℕ) (ids : List ℕ)
    → z ≡ pos n
    → n < 2 ^ 31
    → ok (uint32 z ∷ []) ≡ ok ids
    → ids ≡ enumerate n 1
unfolding enumerate uint32
lone_cores z n ids z_is fits h = ground arith

range_cores :
    (y z : ℤ) (a b : ℕ) (ids : List ℕ)
    → y ≡ pos a
    → z ≡ pos b
    → a < 2 ^ 31
    → b < 2 ^ 31
    → ok (count_up (rounds_between y z) y) ≡ ok ids
    → ids ≡ enumerate a (b + 1 - a)
range_cores y z a b ids y_is z_is fits fits' h =
    sym (ok_injective _ _ h)
    ∙ rw (y_is, z_is)
        (ap (λ (n : ℕ). count_up n (pos a)) (omega arith)
          ∙ count_up-enumerate (b + 1 - a) a (omega arith))

lone-IsRun :
    (t : Text) (ids : List ℕ)
    → Lacks b'-' t
    → (parse_int t >>= λ n. ok (uint32 n ∷ [])) ≡ ok ids
    → IsRun ids
lone-IsRun t ids lacks h =
    let (z, e, f) = >>=-ok (parse_int t) (λ n. ok (uint32 n ∷ [])) h in
    let (n, z_is, fits) = parse_int_bounds t z lacks e in
    record { first = n; count = 1; cores = lone_cores z n ids z_is fits f; fits = omega arith }

range-IsRun :
    (s t : Text) (ids : List ℕ)
    → Lacks b'-' s
    → Lacks b'-' t
    → (parse_int s >>= λ start.
        parse_int t >>= λ end. ok (count_up (rounds_between start end) start))
      ≡ ok ids
    → IsRun ids
range-IsRun s t ids lacks lacks' h =
    let (y, e, f) =
      >>=-ok (parse_int s)
        (λ start. parse_int t >>= λ end. ok (count_up (rounds_between start end) start)) h in
    let (z, e', f') = >>=-ok (parse_int t) (λ end. ok (count_up (rounds_between y end) y)) f in
    let (a, y_is, fits) = parse_int_bounds s y lacks e in
    let (b, z_is, fits') = parse_int_bounds t z lacks' e' in
    record {
      first = a;
      count = b + 1 - a;
      cores = range_cores y z a b ids y_is z_is fits fits' f';
      fits = omega arith;
    }

parts-IsRun :
    (t : Text) (parts : List Text) (ids : List ℕ)
    → split t b'-' ≡ parts
    → All (Lacks b'-') parts
    → extract_parts t parts ≡ ok ids
    → IsRun ids
unfolding extract_parts
parts-IsRun t (first ∷ second ∷ rest) ids at (lacks, (lacks', _)) h =
    range-IsRun first second ids lacks lacks' h
parts-IsRun t (p ∷ []) ids at _ h = lone-IsRun t ids (split_single b'-' t p at) h
parts-IsRun t [] ids at _ h = absurd (split-ne-nil b'-' t at)

-- Whatever text extractCoreID accepts, it returns consecutive cores, in order, below 2^31.
pub extract_core_id-IsRun : (s : Text) (ids : List ℕ) → extract_core_id s ≡ ok ids → IsRun ids
unfolding extract_core_id
extract_core_id-IsRun s ids h =
    let t = trim_space s in parts-IsRun t (split t b'-') ids refl (split-Lacks b'-' t) h
