-- ===== src/Bank/Integers.antt =====
-- Integers in the place of floating-point numbers: they do what IEEE 754 says of whole numbers.
use twig_system_contracts.Prelude.{
  true, ℤ, pos, pos_part, neg_part, negsuc, ◌-ℤ◌, ltb_ℤ, ◌≡◌, refl, subst, arith, int_laws, ◌*◌,
  ◌+◌, ◌≤ℤ◌,
}
use twig_system_contracts.Chain.{ok, ok-injective}
use twig_system_contracts.Bank.State.{Double, Ieee}

-- The product of integers.
abbrev pub product : ℤ → ℤ → ℤ
product a b =
    pos (pos_part a * pos_part b + neg_part a * neg_part b)
    -ℤ pos (pos_part a * neg_part b + neg_part a * pos_part b)

-- Numbers that are integers.
abbrev pub integers : Double
integers = record {
  D = ℤ;
  of_int = λ a. a;
  minus = λ a b. a -ℤ b;
  times = λ a b. product a b;
  positive = λ a. ltb_ℤ (pos 0) a;
  to_int64 = λ a. ok a;
}

one_product : (a : ℤ) → product (pos 1) a ≡ a
one_product a = omega int_laws

product_sign :
    (r a v : ℤ) → ltb_ℤ (pos 0) r ≡ true → pos 0 ≤ℤ a → ok (product r a) ≡ ok v → pos 0 ≤ℤ v
product_sign (negsuc m) a v up sign h = absurd (ground arith)
product_sign (pos m) (negsuc n) v up sign h = absurd (omega arith)
product_sign (pos m) (pos n) v up sign h = subst (λ z. pos 0 ≤ℤ z) (ok-injective h) (omega int_laws)

pub integers-Ieee : Ieee integers
integers-Ieee = record {
  minus_int = λ a b _ _. refl;
  positive_int = λ a _. refl;
  times_one = one_product;
  to_int64_int = λ a _. refl;
  times_sign = product_sign;
}
