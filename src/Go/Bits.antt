-- ===== src/Go/Bits.antt =====
-- The operator | on 32-bit numbers.
use teleskop.Common.{ℕ, zero, suc, ◌+◌, ◌*◌, ◌/◌, ◌%◌, ◌==◌, if◌then◌else◌, ◌||◌}

unfoldable pub or_bits : ℕ → ℕ → ℕ → ℕ
or_bits zero a b = 0
or_bits (suc n) a b =
    let rest = or_bits n (a / 2) (b / 2) in
    if (a % 2 == 1) || (b % 2 == 1) then 2 * rest + 1 else 2 * rest

unfoldable pub bit_or : ℕ → ℕ → ℕ
unfolding or_bits
bit_or a b = or_bits 32 a b
