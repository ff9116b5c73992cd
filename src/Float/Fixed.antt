-- ===== src/Float/Fixed.antt =====
-- Fixed-point numbers, in thousandths: the laws of `IsOrdered` can hold, and examples can run.
use product_intelligence.Base.{
  ℕ, zero, suc, List, map, length, ◌+◌, ◌-◌, ◌*◌, ◌/◌, ◌≤◌, Bool, arith, ltb, leb, if◌then◌else◌,
}
use product_intelligence.Float.Interface.{Float, Numerics, IsOrdered, sum}

pub data ℤ : Type 0 where
  pos : ℕ → ℤ
  negsuc : ℕ → ℤ

abbrev pub pos_part : ℤ → ℕ
pos_part (pos n) = n
pos_part (negsuc n) = 0

abbrev pub neg_part : ℤ → ℕ
neg_part (pos n) = 0
neg_part (negsuc n) = suc n

-- a - b, as an integer.
abbrev pub sub_ℕ : ℕ → ℕ → ℤ
sub_ℕ a b = if leb b a then pos (a - b) else negsuc (b - a - 1)

infixl 65 ◌+ℤ◌ ◌-ℤ◌
infixl 70 ◌*ℤ◌
infix 50 ◌≤ℤ◌
unfoldable pub ◌+ℤ◌ : ℤ → ℤ → ℤ
a +ℤ b = sub_ℕ (pos_part a + pos_part b) (neg_part a + neg_part b)

unfoldable pub ◌-ℤ◌ : ℤ → ℤ → ℤ
a -ℤ b = sub_ℕ (pos_part a + neg_part b) (neg_part a + pos_part b)

unfoldable pub ◌*ℤ◌ : ℤ → ℤ → ℤ
a *ℤ b =
    sub_ℕ (pos_part a * pos_part b + neg_part a * neg_part b)
      (pos_part a * neg_part b + neg_part a * pos_part b)

abbrev pub ◌≤ℤ◌ : ℤ → ℤ → Type 0
a ≤ℤ b = pos_part a + neg_part b ≤ pos_part b + neg_part a

abbrev pub ltb_ℤ : ℤ → ℤ → Bool
ltb_ℤ a b = ltb (pos_part a + neg_part b) (pos_part b + neg_part a)

abbrev pub leb_ℤ : ℤ → ℤ → Bool
leb_ℤ a b = leb (pos_part a + neg_part b) (pos_part b + neg_part a)

-- Products and quotients are rounded towards zero.
unfoldable pub mul_fixed : ℤ → ℤ → ℤ
unfolding ◌+ℤ◌
mul_fixed a b =
    sub_ℕ ((pos_part a * pos_part b + neg_part a * neg_part b) / 1000)
      ((pos_part a * neg_part b + neg_part a * pos_part b) / 1000)

unfoldable pub div_fixed : ℤ → ℤ → ℤ
div_fixed a (pos n) = sub_ℕ (pos_part a * 1000 / n) (neg_part a * 1000 / n)
div_fixed a (negsuc n) = sub_ℕ (neg_part a * 1000 / suc n) (pos_part a * 1000 / suc n)

instance abbrev pub fixed : Float ℤ
fixed = record {
  nought = pos 0;
  unity = pos 1000;
  add = ◌+ℤ◌;
  sub = ◌-ℤ◌;
  mul = mul_fixed;
  div = div_fixed;
  lt = ltb_ℤ;
  le = leb_ℤ;
  of_ℕ = λ n. pos (n * 1000);
}

pub fixed-IsOrdered : IsOrdered ℤ
fixed-IsOrdered = ground arith

-- Newton's iteration for the integer square root, from above.
abbrev newton : (steps n x : ℕ) → ℕ
newton zero n x = x
newton (suc steps) n x = newton steps n ((x + n / (x + 1)) / 2)

abbrev mean : List ℤ → ℤ
mean xs = div_fixed (sum xs) (pos (length xs * 1000))

abbrev squared : ℤ → ℤ
squared x = mul_fixed x x

-- The exponential by its first three terms.
instance abbrev pub fixed_numerics : Numerics ℤ
fixed_numerics = record {
  round_to = λ digits x. x;
  truncate = λ x. pos_part x / 1000;
  pstdev =
      λ xs. pos (newton 40 (pos_part (mean (map (λ x. squared (x -ℤ mean xs)) xs)) * 1000) 1000000);
  exp = λ x. pos 1000 +ℤ x +ℤ div_fixed (squared x) (pos 2000);
}
