-- ===== src/Common/Floats.antt =====
-- Rust's `f64`, as far as the program computes with it. The type and its operations are a parameter;
-- the laws are what the language documents of comparisons and of `as`.
use stratum_v2_tools.Common.{
  Bool, Option, String, false, leb, ltb, nat_eq, none, refl, some, string_eq, ℕ, ◌%◌, ◌*◌, ◌/◌, ◌^◌,
  ◌≡◌,
}
use stratum_v2_tools.Common.Words.{u32_mod, u64_mod}

pub record Floats : Type 1 where
  pub F64 : Type 0
  pub of_nat : ℕ → F64
  pub decimal : String → F64
  pub mul : F64 → F64 → F64
  pub div : F64 → F64 → F64
  -- The exponent is the bit pattern of an `i32`.
  pub powi : F64 → ℕ → F64
  pub lt : F64 → F64 → Bool
  pub le : F64 → F64 → Bool
  pub to_u32 : F64 → ℕ
  pub to_u64 : F64 → ℕ
  pub nan : F64
  pub lt-nan_left : (x : F64) → lt nan x ≡ false
  pub lt-nan_right : (x : F64) → lt x nan ≡ false
  pub le-nan_left : (x : F64) → le nan x ≡ false
  pub div-nan : (x : F64) → div x nan ≡ nan
  pub to_u32-nan : to_u32 nan ≡ 0

-- Whole numbers with a not-a-number satisfy the laws.
abbrev both {ℓ} : {A : Type ℓ} → (ℕ → ℕ → A) → A → Option ℕ → Option ℕ → A
both f d none y = d
both f d (some a) none = d
both f d (some a) (some b) = f a b

pub div-none : (x : Option ℕ) → both (λ a b. some (a / b)) none x none ≡ none
div-none none = refl
div-none (some a) = refl

pub lt-none : (x : Option ℕ) → both ltb false x none ≡ false
lt-none none = refl
lt-none (some a) = refl

abbrev as_nat : Option ℕ → ℕ
as_nat none = 0
as_nat (some a) = a

abbrev pub whole_floats : Floats
whole_floats = record {
  F64 = Option ℕ;
  of_nat = some;
  decimal = λ _. some 1;
  mul = both (λ a b. some (a * b)) none;
  div = both (λ a b. some (a / b)) none;
  powi = λ x n. both (λ a b. some (a ^ b)) none x (some n);
  lt = both ltb false;
  le = both leb false;
  to_u32 = λ x. as_nat x % u32_mod;
  to_u64 = λ x. as_nat x % u64_mod;
  nan = none;
  lt-nan_left = λ _. refl;
  lt-nan_right = lt-none;
  le-nan_left = λ _. refl;
  div-nan = div-none;
  to_u32-nan = refl;
}
