-- ===== src/Selects/Numbers.antt =====
-- Decimal numbers read back, so that different numbers are printed differently.
use home_pc_agent.Common.{
  ℕ, zero, suc, ◌+◌, ◌-◌, ◌*◌, ◌/◌, ◌%◌, ◌≤◌, [], ◌∷◌, Text, ◌≡◌, refl, sym, ap, ◌∙◌, arith,
}
use home_pc_agent.Selects.{digits, decimal}

-- strconv.Atoi on digits, after the value `v`
unfoldable pub read_decimal : ℕ → Text → ℕ
read_decimal v [] = v
read_decimal v (c ∷ s) = read_decimal (v * 10 + (c - b'0')) s

read_decimal-digits :
    (fuel n : ℕ) (rest : Text)
    → n ≤ fuel
    → read_decimal 0 (digits fuel n rest) ≡ read_decimal n rest
unfolding digits read_decimal
read_decimal-digits zero n rest h = let z : n ≡ 0 = omega arith in rw (z) refl
read_decimal-digits (suc fuel) n rest h =
    ground (arith, read_decimal-digits fuel (n / 10) ((b'0' + n % 10) ∷ rest))

-- What is printed reads back as the number.
pub read_decimal-decimal : (n : ℕ) → read_decimal 0 (decimal n) ≡ n
unfolding decimal read_decimal
read_decimal-decimal n = read_decimal-digits n n [] (omega arith)

pub decimal_injective : (n m : ℕ) → decimal n ≡ decimal m → n ≡ m
decimal_injective n m h =
    sym (read_decimal-decimal n) ∙ ap (read_decimal 0) h ∙ read_decimal-decimal m
