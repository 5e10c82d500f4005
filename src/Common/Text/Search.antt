-- ===== src/Common/Text/Search.antt =====
-- Prefixes, the first occurrence, and replacing it.
use Prim.Native.Nat.{ℕ}
use mathlib.Core.Logic.{◌≢◌}
use pybotx.Common.Lists.{All}
use mathlib.Core.Path.{◌≡◌, refl, sym, ap}
use mathlib.Core.List.{[], ◌∷◌, ◌++◌}
use mathlib.Core.Option.{Option, none, some}
use native.Mathlib.Omega.{arith}
use pybotx.Common.Tests.{◌==◌, if◌then◌else◌}
use pybotx.Common.Text.Defs.{Str}

-- What follows the prefix, if `s` begins with it.
unfoldable pub strip_prefix : Str → Str → Option Str
strip_prefix [] s = some s
strip_prefix (c ∷ p) [] = none
strip_prefix (c ∷ p) (d ∷ s) = if c == d then strip_prefix p s else none

pub strip_prefix-append : (p s : Str) → strip_prefix p (p ++ s) ≡ some s
unfolding strip_prefix
strip_prefix-append [] s = refl
strip_prefix-append (c ∷ p) s = ground (arith, strip_prefix-append p s)

pub strip_prefix-ne : (c d : ℕ) (p s : Str) → c ≢ d → strip_prefix (c ∷ p) (d ∷ s) ≡ none
unfolding strip_prefix
strip_prefix-ne c d p s h = ground arith

-- `s.replace(old, new, 1)` for a text `old` that is not empty
unfoldable pub replace_first : Str → Str → Str → Str
replace_first old new [] = []
replace_first old new (c ∷ s) =
    let later = c ∷ replace_first old new s in
    elim (strip_prefix old (c ∷ s)) [ some rest ↦ new ++ rest | none ↦ later ]

-- With nothing of the old text's first character before it, the first occurrence is the one meant.
pub replace_first-run :
    (c : ℕ) (p new t s : Str)
    → All (λ d. d ≢ c) t
    → replace_first (c ∷ p) new (t ++ ((c ∷ p) ++ s)) ≡ t ++ (new ++ s)
unfolding replace_first
replace_first-run c p new [] s h = rw (strip_prefix-append (c ∷ p) s, replace_first)
replace_first-run c p new (d ∷ t) s (n, h) =
    rw (strip_prefix-ne c d p (t ++ ((c ∷ p) ++ s)) (λ e. n (sym e)), replace_first)
      (ap (λ r. d ∷ r) (replace_first-run c p new t s h))
