-- ===== src/Common/Text/Numbers.antt =====
-- Numbers are printed and read back: `Display` and `FromStr` of Rust's unsigned integers.
use Prim.Native.Nat.{ℕ, zero, suc, ◌+◌, ◌*◌, ◌/◌, ◌%◌, ◌^◌, ◌<◌}
use Prim.Native.Char.{Char, code}
use Prim.Native.String.{String}
use mathlib.Core.Path.{◌≡◌, refl, ap, sym, ◌∙◌}
use mathlib.Core.Bool.{true, false}
use mathlib.Core.Logic.{◌≢◌, inl, inr}
use native.Mathlib.Omega.{arith}
use stratum_v2_tools.Common.Tests.{ltb, Bool-cases}
use stratum_v2_tools.Common.Text.{digit, show, show_onto, scan, scan_some, parse_unsigned, lacks}

pub digit-code : (n : ℕ) → n < 10 → code (digit n) ≡ b'0' + n
unfolding digit
digit-code zero h = refl
digit-code (suc zero) h = refl
digit-code (suc (suc zero)) h = refl
digit-code (suc (suc (suc zero))) h = refl
digit-code (suc (suc (suc (suc zero)))) h = refl
digit-code (suc (suc (suc (suc (suc zero))))) h = refl
digit-code (suc (suc (suc (suc (suc (suc zero)))))) h = refl
digit-code (suc (suc (suc (suc (suc (suc (suc zero))))))) h = refl
digit-code (suc (suc (suc (suc (suc (suc (suc (suc zero)))))))) h = refl
digit-code (suc (suc (suc (suc (suc (suc (suc (suc (suc zero))))))))) h = refl
digit-code (suc (suc (suc (suc (suc (suc (suc (suc (suc (suc n)))))))))) h = absurd (omega arith)

pub scan-digit :
    (bound m k : ℕ) (acc : String)
    → k < 10
    → m * 10 + k < bound
    → scan bound (String.◌∷◌ (digit k) acc) m ≡ scan bound acc (m * 10 + k)
unfolding scan
scan-digit bound m k acc h below = ground (arith, digit-code k h)

pub tenth-lt : (fuel n : ℕ) → n < 10 ^ suc fuel → n / 10 < 10 ^ fuel
tenth-lt fuel n h = omega arith

-- To read the digits of a number is to go on from the number.
pub scan-show_onto :
    (bound fuel n : ℕ) (acc : String)
    → n < 10 ^ fuel
    → n < bound
    → scan bound (show_onto fuel n acc) 0 ≡ scan bound acc n
unfolding show_onto
scan-show_onto bound zero zero acc h k = refl
scan-show_onto bound zero (suc n) acc h k = absurd (omega arith)
scan-show_onto bound (suc fuel) n acc h k = ground (
  arith,
  tenth-lt fuel n h,
  scan-digit bound 0 n acc,
  scan-digit bound (n / 10) (n % 10) acc,
  scan-show_onto bound fuel (n / 10) (String.◌∷◌ (digit (n % 10)) acc),
)

-- The two cases of a round.
show_onto_small :
    (fuel n : ℕ) (acc : String)
    → ltb n 10 ≡ true
    → show_onto (suc fuel) n acc ≡ String.◌∷◌ (digit n) acc
unfolding show_onto
show_onto_small fuel n acc e = ground arith

show_onto_large :
    (fuel n : ℕ) (acc : String)
    → ltb n 10 ≡ false
    → show_onto (suc fuel) n acc ≡ show_onto fuel (n / 10) (String.◌∷◌ (digit (n % 10)) acc)
unfolding show_onto
show_onto_large fuel n acc e = ground arith

-- What is printed starts with a digit.
pub show_onto-digit :
    (fuel n : ℕ) (acc : String)
    → n < 10 ^ suc fuel
    → (k : ℕ) × (s : String) × (k < 10) × (show_onto (suc fuel) n acc ≡ String.◌∷◌ (digit k) s)
show_onto-digit zero n acc h = (n, acc, omega arith, show_onto_small zero n acc (ground arith))
show_onto-digit (suc fuel) n acc h = elim (Bool-cases (ltb n 10)) [
  | inl e ↦ (n, acc, ground arith, show_onto_small (suc fuel) n acc e)
  | inr e ↦
      let (k, s, small, shown) =
        show_onto-digit fuel (n / 10) (String.◌∷◌ (digit (n % 10)) acc) (tenth-lt (suc fuel) n h) in
      (k, s, small, show_onto_large (suc fuel) n acc e ∙ shown)
]

scan-empty : (bound n : ℕ) → scan bound String.[] n ≡ inr n
unfolding scan
scan-empty bound n = refl

parse_unsigned_plain :
    (bound : ℕ) (c : Char) (s : String)
    → code c ≢ b'+'
    → parse_unsigned bound (String.◌∷◌ c s) ≡ scan bound (String.◌∷◌ c s) 0
unfolding parse_unsigned scan_some
parse_unsigned_plain bound c s h = ground arith

parse_digits :
    (bound d n : ℕ) (s : String)
    → d < 10
    → n < bound
    → n < 10 ^ 20
    → show n ≡ String.◌∷◌ (digit d) s
    → parse_unsigned bound (show n) ≡ inr n
unfolding show
parse_digits bound d n s h k l e =
    ap (parse_unsigned bound) e
    ∙ parse_unsigned_plain bound (digit d) s (ground (arith, digit-code d h))
    ∙ ap (λ t. scan bound t 0) (sym e)
    ∙ scan-show_onto bound 20 n String.[] l k
    ∙ scan-empty bound n

-- A number that fits its type is read back as it was printed.
pub parse_unsigned-show :
    (bound n : ℕ) → n < bound → n < 10 ^ 20 → parse_unsigned bound (show n) ≡ inr n
unfolding show
parse_unsigned-show bound n h k =
    let (d, s, small, shown) = show_onto-digit 19 n String.[] k in
    parse_digits bound d n s small h k shown

digit_lacks : (b k : ℕ) → k < 10 → b'9' < b → code (digit k) ≢ b
digit_lacks b k h l = ground (arith, digit-code k h)

-- What is printed has no character but digits.
pub show_onto-lacks :
    (b fuel n : ℕ) (acc : String)
    → b'9' < b
    → lacks b acc ≡ true
    → lacks b (show_onto fuel n acc) ≡ true
unfolding show_onto lacks
show_onto-lacks b zero n acc h k = k
show_onto-lacks b (suc fuel) n acc h k = ground (
  arith,
  digit_lacks b n,
  digit_lacks b (n % 10),
  show_onto-lacks b fuel (n / 10) (String.◌∷◌ (digit (n % 10)) acc),
)
