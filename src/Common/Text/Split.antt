-- ===== src/Common/Text/Split.antt =====
-- `str.split`, `str.strip` and the joins.
use Prim.Native.Nat.{ℕ}
use mathlib.Core.Path.{◌≡◌, refl}
use mathlib.Core.Logic.{◌≢◌}
use pybotx.Common.Lists.{All}
use native.Mathlib.Omega.{arith}
use mathlib.Core.Option.{Option, none, some}
use mathlib.Core.Bool.{Bool}
use mathlib.Core.List.{List, [], ◌∷◌, ◌++◌}
use pybotx.Common.Tests.{◌==◌, if◌then◌else◌}
use pybotx.Common.Text.Defs.{Str, is_space}

-- A word that is still open, added in front of the words that follow it.
abbrev pub emit : Str → List Str → List Str
emit [] words = words
emit (c ∷ word) words = (c ∷ word) ∷ words

-- `s.split()`: the words between runs of whitespace; `word` is the one that is open.
unfoldable pub split_from : Str → Str → List Str
split_from word [] = emit word []
split_from word (c ∷ s) =
    let closed = emit word (split_from [] s) in
    let longer = split_from (word ++ c ∷ []) s in if is_space c then closed else longer

unfoldable pub split : Str → List Str
unfolding split_from is_space
split s = split_from [] s

-- A character in front of the first part.
abbrev pub extend : ℕ → List Str → List Str
extend c [] = (c ∷ []) ∷ []
extend c (part ∷ parts) = (c ∷ part) ∷ parts

-- `s.split(sep)` for a separator of one character: always at least one part
unfoldable pub split_on : ℕ → Str → List Str
split_on sep [] = [] ∷ []
split_on sep (c ∷ s) = let parts = split_on sep s in if c == sep then [] ∷ parts else extend c parts

-- `s.lstrip()` for the characters that `p` accepts
unfoldable pub drop_while : (ℕ → Bool) → Str → Str
drop_while p [] = []
drop_while p (c ∷ s) = if p c then drop_while p s else c ∷ s

-- `s.rstrip()`: a character stays if one that stays comes after it
unfoldable pub drop_while_end : (ℕ → Bool) → Str → Str
drop_while_end p [] = []
drop_while_end p (c ∷ s) = elim (drop_while_end p s) [
  | [] ↦ if p c then [] else c ∷ []
  | d ∷ t ↦ c ∷ d ∷ t
]

unfoldable pub strip_by : (ℕ → Bool) → Str → Str
unfolding drop_while drop_while_end
strip_by p s = drop_while_end p (drop_while p s)

-- `s.strip()`
unfoldable pub strip : Str → Str
unfolding strip_by is_space
strip s = strip_by is_space s

-- `s.partition(c)` as the part before and, where the character occurs, the part after.
unfoldable pub partition : ℕ → Str → Str × Option Str
partition c [] = ([], none)
partition c (d ∷ s) =
    let rest = partition c s in if d == c then ([], some s) else (d ∷ rest.0, rest.1)

-- The text behind the last `c`, with what stands before a `c` dropped; `seen` follows the last `c` so far.
unfoldable pub after_last_from : ℕ → Str → Str → Str
after_last_from c seen [] = seen
after_last_from c seen (d ∷ s) = after_last_from c (if d == c then [] else seen ++ d ∷ []) s

-- `s.rpartition(c)[2]` and `s.rsplit(c, 1)[-1]`: the whole text if there is no `c`
unfoldable pub after_last : ℕ → Str → Str
unfolding after_last_from
after_last c s = after_last_from c [] s

-- A part that ends at its separator, and a last part.
pub split_on-part :
    (sep : ℕ) (t s : Str) → All (λ d. d ≢ sep) t → split_on sep (t ++ sep ∷ s) ≡ t ∷ split_on sep s
unfolding split_on
split_on-part sep [] s h = ground arith
split_on-part sep (c ∷ t) s (n, h) = rw (split_on-part sep t s h, split_on) (ground arith)

pub split_on-last : (sep : ℕ) (t : Str) → All (λ d. d ≢ sep) t → split_on sep t ≡ t ∷ []
unfolding split_on
split_on-last sep [] h = refl
split_on-last sep (c ∷ t) (n, h) = rw (split_on-last sep t h, split_on) (ground arith)

pub partition-part :
    (c : ℕ) (t s : Str) → All (λ d. d ≢ c) t → partition c (t ++ c ∷ s) ≡ (t, some s)
unfolding partition
partition-part c [] s h = ground arith
partition-part c (d ∷ t) s (n, h) = ground (arith, partition-part c t s h)
