-- ===== src/Composite/Amounts.antt =====
-- The numbers of src/index.ts that are shares: floating-point numbers, never NaN. Their operations are a
-- record, with the laws that rounding keeps.
use model_proxy_v.Base.{
  ℕ, ◌+◌, ◌-◌, ◌*◌, ◌/◌, ◌≡◌, Bool, true, false, not, leb, if◌then◌else◌, arith, refl,
}

pub record Amounts : Type 1 where
  pub Amount : Type 0
  pub nought : Amount
  pub one : Amount
  -- `a <= b`
  pub at_most : Amount → Amount → Bool
  -- `a / 2`, `a / 10`, `a * 2`
  pub half : Amount → Amount
  pub tenth : Amount → Amount
  pub double : Amount → Amount
  pub plus : Amount → Amount → Amount
  pub less : Amount → Amount → Amount
  pub at_most_refl : (a : Amount) → at_most a a ≡ true
  pub at_most_trans :
      (a b c : Amount) → at_most a b ≡ true → at_most b c ≡ true → at_most a c ≡ true
  pub at_most_total : (a b : Amount) → at_most a b ≡ false → at_most b a ≡ true
  pub one_positive : at_most one nought ≡ false
  pub half_le : (a : Amount) → at_most nought a ≡ true → at_most (half a) a ≡ true
  pub le_double : (a : Amount) → at_most nought a ≡ true → at_most a (double a) ≡ true
  pub tenth_le : (a : Amount) → at_most nought a ≡ true → at_most (tenth a) a ≡ true
  pub zero_tenth : (a : Amount) → at_most nought a ≡ true → at_most nought (tenth a) ≡ true

module _ (n : Amounts) where
  open n use {Amount, nought, one, at_most}

  -- `a > b`, that is `b < a`
  abbrev pub exceeds : Amount → Amount → Bool
  exceeds a b = not (at_most a b)

  -- `Math.max(a, b)` and `Math.min(a, b)`
  abbrev pub greater_of : Amount → Amount → Amount
  greater_of a b = if at_most a b then b else a

  abbrev pub lesser_of : Amount → Amount → Amount
  lesser_of a b = if at_most a b then a else b

-- Whole numbers meet the laws.
pub whole_refl : (a : ℕ) → leb a a ≡ true
whole_refl a = ground arith

pub whole_trans : (a b c : ℕ) → leb a b ≡ true → leb b c ≡ true → leb a c ≡ true
whole_trans a b c h k = ground arith

pub whole_total : (a b : ℕ) → leb a b ≡ false → leb b a ≡ true
whole_total a b h = ground arith

pub half_lem : (a : ℕ) → leb (a / 2) a ≡ true
half_lem a = ground arith

pub double_lem : (a : ℕ) → leb a (a * 2) ≡ true
double_lem a = ground arith

pub tenth_lem : (a : ℕ) → leb (a / 10) a ≡ true
tenth_lem a = ground arith

pub nought_lem : (a : ℕ) → leb 0 a ≡ true
nought_lem a = ground arith

abbrev pub whole_amounts : Amounts
whole_amounts = record {
  Amount = ℕ;
  nought = 0;
  one = 1;
  at_most = leb;
  half = λ a. a / 2;
  tenth = λ a. a / 10;
  double = λ a. a * 2;
  plus = ◌+◌;
  less = ◌-◌;
  at_most_refl = whole_refl;
  at_most_trans = whole_trans;
  at_most_total = whole_total;
  one_positive = refl;
  half_le = λ a h. half_lem a;
  le_double = λ a h. double_lem a;
  tenth_le = λ a h. tenth_lem a;
  zero_tenth = λ a h. nought_lem (a / 10);
}
