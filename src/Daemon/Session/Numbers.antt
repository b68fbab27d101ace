-- ===== src/Daemon/Session/Numbers.antt =====
-- The number of a client, as it is printed, tells the client from every other.
use hauntty.Prelude.{
  ℕ, zero, suc, ◌+◌, ◌-◌, ◌*◌, ◌/◌, ◌%◌, ◌≤◌, ◌≡◌, ◌∙◌, ap, Bool-cases, inl, inr, [], ◌∷◌, Text,
  arith, ltb, true,
}
use hauntty.Daemon.Session.Decimal.{decimal_digits, decimal}

-- The number that decimal digits read as, behind those of `acc`.
abbrev pub read_digits : ℕ → Text → ℕ
read_digits acc [] = acc
read_digits acc (c ∷ cs) = read_digits (acc * 10 + (c - 48)) cs

read_digits-decimal_digits :
    (fuel n : ℕ) (rest : Text)
    → n ≤ fuel
    → read_digits 0 (decimal_digits (suc fuel) n rest) ≡ read_digits n rest
unfolding decimal_digits
read_digits-decimal_digits zero n rest h =
    let small : ltb n 10 ≡ true = ground arith in
    let last : 0 * 10 + (48 + n % 10 - 48) ≡ n = omega arith in
    rw small (ap (λ k. read_digits k rest) last)
read_digits-decimal_digits (suc fuel) n rest h = elim (Bool-cases (ltb n 10)) [
  | inl e ↦
      let last : 0 * 10 + (48 + n % 10 - 48) ≡ n = ground arith in
      rw e (ap (λ k. read_digits k rest) last)
  | inr e ↦
      let last : n / 10 * 10 + (48 + n % 10 - 48) ≡ n = omega arith in
      rw e (
        read_digits-decimal_digits fuel (n / 10) ((48 + n % 10) ∷ rest) (ground arith)
        ∙ ap (λ k. read_digits k rest) last)
]

-- The digits that are printed for a client's number read as that number.
pub read_digits-decimal : (n : ℕ) → read_digits 0 (decimal n) ≡ n
unfolding decimal
read_digits-decimal n = read_digits-decimal_digits n n [] (omega arith)
