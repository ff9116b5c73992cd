-- ===== src/Float/Interface.antt =====
-- Python's float. antt has no floats: the code's operations on them are a parameter, a record of
-- operations over any type, and the documented facts that a proof uses are named laws.
use product_intelligence.Base.{ℕ, ◌≡◌, Bool, true, false, List, [], ◌∷◌, if◌then◌else◌, arith}

pub record Float (F : Type 0) : Type 0 where
  pub nought : F
  pub unity : F
  pub add : F → F → F
  pub sub : F → F → F
  pub mul : F → F → F
  pub div : F → F → F
  pub lt : F → F → Bool
  pub le : F → F → Bool
  pub of_ℕ : ℕ → F

-- The functions on floats that the code takes from Python: `round(x, digits)`, `int(x)` of a float
-- that is not negative, `statistics.pstdev` and `math.exp`.
pub record Numerics (F : Type 0) : Type 0 where
  pub round_to : (digits : ℕ) → F → F
  pub truncate : F → ℕ
  pub pstdev : List F → F
  pub exp : F → F

infix 4 ◌≼◌
abbrev pub ◌≼◌ : {F : Type 0} ⦃f : Float F⦄ → F → F → Type 0
◌≼◌ ⦃f⦄ x y = f.le x y ≡ true

-- The comparisons of IEEE 754. NaN is the value that is not `<=` itself.
pub record IsOrdered (F : Type 0) ⦃f : Float F⦄ : Type 0 where
  pub le_trans : (x y z : F) → x ≼ y → y ≼ z → x ≼ z
  pub refl_of_le : (x y : F) → x ≼ y → (x ≼ x) × (y ≼ y)
  pub le_of_lt : (x y : F) → f.lt x y ≡ true → x ≼ y
  pub le_of_not_lt : (x y : F) → x ≼ x → y ≼ y → f.lt x y ≡ false → y ≼ x
  pub not_le_of_lt : (x y : F) → f.lt x y ≡ true → f.le y x ≡ false
  pub nought_le_unity : f.nought ≼ f.unity

module _ {F : Type 0} ⦃f : Float F⦄ where
  -- Python's `max(a, b)` and `min(a, b)`: the first argument unless the second is strictly beyond.
  abbrev pub max_of : F → F → F
  max_of a b = if f.lt a b then b else a

  abbrev pub min_of : F → F → F
  min_of a b = if f.lt b a then b else a

  -- `max(0.0, min(1.0, value))`
  abbrev pub clamp : F → F
  clamp value = max_of f.nought (min_of f.unity value)

  -- `sum(values)`: from the integer 0, left to right.
  abbrev pub sum_from : F → List F → F
  sum_from acc [] = acc
  sum_from acc (x ∷ xs) = sum_from (f.add acc x) xs

  abbrev pub sum : List F → F
  sum xs = sum_from f.nought xs

  module _ (laws : IsOrdered F) where
    -- A clamped value lies in [0, 1], also for NaN and the infinities.
    pub clamp_bounds : (x : F) → (f.nought ≼ clamp x) × (clamp x ≼ f.unity)
    clamp_bounds x = ground (
      arith,
      laws.nought_le_unity,
      laws.refl_of_le f.nought f.unity laws.nought_le_unity,
      laws.le_of_lt x f.unity,
      laws.le_of_lt f.nought x,
      laws.le_of_lt f.nought f.unity,
    )
