-- ===== src/Prelude/Float.antt =====
-- Go's float64, as far as the scores use it: the operations and comparisons, and `math.Max`, `math.Min`,
-- `math.Round` and `math.Pow(10, n)`. The type stands for the values that occur, which are not NaN.
use contest_management_syste.Prelude.Tests.{ltb, leb, ◌==◌, if◌then◌else◌}
use native.Mathlib.Nat.{mul_comm, mul-le-mul_right, pow-suc}
use Prim.Native.Nat.{ℕ, zero, suc, ◌≤◌, ◌<◌, ◌+◌, ◌-◌, ◌*◌, ◌/◌, ◌^◌}
use mathlib.Core.Bool.{Bool, true, not, ◌&&◌}
use mathlib.Core.Logic.{◌⊎◌}
use mathlib.Core.Path.{◌≡◌, refl, ap}
use native.Mathlib.Omega.{arith}

pub record Float {ℓ} (F : Type ℓ) : Type ℓ where
  pub nought : F
  pub unit : F
  -- 1e-9
  pub tiny : F
  pub add : F → F → F
  pub sub : F → F → F
  pub mul : F → F → F
  pub div : F → F → F
  pub lt : F → F → Bool
  pub le : F → F → Bool
  pub eq : F → F → Bool
  pub max : F → F → F
  pub min : F → F → F
  pub of_ℕ : ℕ → F
  -- `int(x)`, of an x that is not negative.
  pub trunc : F → ℕ
  pub math_round : F → F
  pub pow10 : ℕ → F

infix 4 ◌≼◌
abbrev pub ◌≼◌ {ℓ} : {F : Type ℓ} ⦃f : Float F⦄ → F → F → Type 0
◌≼◌ ⦃f⦄ x y = f.le x y ≡ true

-- What IEEE 754 and the package math promise of values that are not NaN: the comparisons are those of a
-- total preorder (the two zeros are equal and differ), and rounding keeps the operations monotone.
pub record IsOrdered {ℓ} (F : Type ℓ) ⦃f : Float F⦄ : Type ℓ where
  pub le_total : (x y : F) → (x ≼ y) ⊎ (y ≼ x)
  pub le_trans : (x y z : F) → x ≼ y → y ≼ z → x ≼ z
  pub lt-eq-not-le : (x y : F) → f.lt x y ≡ not (f.le y x)
  pub eq-eq-le : (x y : F) → f.eq x y ≡ (f.le x y && f.le y x)
  pub max_upper : (x y : F) → (x ≼ f.max x y) × (y ≼ f.max x y)
  pub max_one : (x y : F) → (f.max x y ≡ x) ⊎ (f.max x y ≡ y)
  pub min_lower : (x y : F) → (f.min x y ≼ x) × (f.min x y ≼ y)
  pub min_one : (x y : F) → (f.min x y ≡ x) ⊎ (f.min x y ≡ y)
  pub add_mono : (x y u v : F) → x ≼ y → u ≼ v → f.add x u ≼ f.add y v
  pub le-add-nought : (x : F) → x ≼ f.add x f.nought
  pub mul_comm : (x y : F) → f.mul x y ≡ f.mul y x
  pub mul_nought : (x : F) → f.nought ≼ x → f.mul x f.nought ≼ f.nought
  pub mul_nonneg : (x y : F) → f.nought ≼ x → f.nought ≼ y → f.nought ≼ f.mul x y
  pub mul_mono : (x y c : F) → f.nought ≼ c → x ≼ y → f.mul x c ≼ f.mul y c
  pub div_mono : (x y c : F) → f.lt f.nought c ≡ true → x ≼ y → f.div x c ≼ f.div y c
  pub math_round_mono : (x y : F) → x ≼ y → f.math_round x ≼ f.math_round y
  pub pow10_pos : (n : ℕ) → f.lt f.nought (f.pow10 n) ≡ true
  pub unit_pos : f.lt f.nought f.unit ≡ true

module _ {ℓ} {F : Type ℓ} ⦃f : Float F⦄ where
  -- `round` of scoretypes.go and of ranking.go.
  unfoldable pub round : F → ℕ → F
  round v precision = let p = f.pow10 precision in f.div (f.math_round (f.mul v p)) p

  module _ (o : IsOrdered F) where
    pub le_refl : (x : F) → x ≼ x
    le_refl x = ground (arith, o.le_total x x)

    pub round_mono : (x y : F) (p : ℕ) → x ≼ y → round x p ≼ round y p
    unfolding round
    round_mono x y p h =
        let c = f.pow10 p in
        o.div_mono _ _ c (o.pow10_pos p) (
          o.math_round_mono _ _ (
            o.mul_mono x y c
              (ground (arith, o.pow10_pos p, o.lt-eq-not-le f.nought c, o.le_total f.nought c)) h))

-- The laws can be met: amounts in billionths, none of them negative.
instance abbrev pub nano : Float ℕ
nano = record {
  nought = 0;
  unit = 10 ^ 9;
  tiny = 1;
  add = λ x y. x + y;
  sub = λ x y. x - y;
  mul = λ x y. x * y / 10 ^ 9;
  div = λ x y. x * 10 ^ 9 / y;
  lt = ltb;
  le = leb;
  eq = λ x y. x == y;
  max = λ x y. if ltb x y then y else x;
  min = λ x y. if ltb y x then y else x;
  of_ℕ = λ n. n * 10 ^ 9;
  trunc = λ x. x / 10 ^ 9;
  math_round = λ x. (x + 5 * 10 ^ 8) / 10 ^ 9 * 10 ^ 9;
  pow10 = λ n. 10 ^ n * 10 ^ 9;
}

scale_mono : (x y c : ℕ) → x ≤ y → x * c / 10 ^ 9 ≤ y * c / 10 ^ 9
scale_mono x y c h = omega (arith, mul-le-mul_right c h)

div_le_div : (x y c : ℕ) → x ≤ y → x / c ≤ y / c
div_le_div x y c h = grind arith

pow10-pos : (n : ℕ) → 0 < 10 ^ n
pow10-pos zero = omega arith
pow10-pos (suc n) = rw pow-suc (omega (arith, pow10-pos n))

pub nano-IsOrdered : IsOrdered ℕ
nano-IsOrdered = record {
  le_total = λ x y. ground arith;
  le_trans = λ x y z p q. ground arith;
  lt-eq-not-le = λ x y. ground arith;
  eq-eq-le = λ x y. ground arith;
  max_upper = λ x y. ground arith;
  max_one = λ x y. ground arith;
  min_lower = λ x y. ground arith;
  min_one = λ x y. ground arith;
  add_mono = λ x y u v p q. ground arith;
  le-add-nought = λ x. ground arith;
  mul_comm = λ x y. ap (λ (t : ℕ). t / 10 ^ 9) (mul_comm x y);
  mul_nought = λ x h. ground arith;
  mul_nonneg = λ x y h k. ground arith;
  mul_mono = λ x y c p q. ground (arith, scale_mono x y c);
  div_mono = λ x y c p q. ground (arith, div_le_div (x * 10 ^ 9) (y * 10 ^ 9) c);
  math_round_mono = λ x y p. ground arith;
  pow10_pos = λ n. ground (arith, pow10-pos n);
  unit_pos = refl;
}
