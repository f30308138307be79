-- ===== src/Common/Text/Parts.antt =====
-- The parts of a text between separators: `str::split`.
use Prim.Native.Nat.{ℕ}
use Prim.Native.Char.{Char, code}
use Prim.Native.String.{String}
use mathlib.Core.Path.{◌≡◌, refl}
use mathlib.Core.Bool.{true}
use mathlib.Core.List.{[], ◌∷◌}
use native.Mathlib.Omega.{arith}
use stratum_v2_tools.Common.Text.{split, lacks, ◌<>◌}

-- Without the separator, a text is one part.
pub split-lacks : (b : ℕ) (s : String) → lacks b s ≡ true → split b s ≡ s ∷ []
unfolding split lacks
split-lacks b String.[] h = refl
split-lacks b (String.◌∷◌ c s) h = ground (arith, split-lacks b s)

-- The text before the first separator is the first part.
pub split-append :
    (c : Char) (s t : String)
    → lacks (code c) s ≡ true
    → split (code c) (s <> String.◌∷◌ c t) ≡ s ∷ split (code c) t
unfolding split lacks ◌<>◌
split-append c String.[] t h = ground arith
split-append c (String.◌∷◌ d s) t h = ground (arith, split-append c s t)
