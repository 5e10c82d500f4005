-- ===== src/Common/Text/Words.antt =====
-- The words of a text, and stripping.
use Prim.Native.Nat.{ℕ}
use mathlib.Core.Path.{◌≡◌, refl, sym, ap, ◌∙◌}
use mathlib.Core.Bool.{Bool, true, false}
use mathlib.Core.List.{List, [], ◌∷◌, ◌++◌, map, append_assoc, append-nil}
use mathlib.Core.Logic.{inl, inr}
use native.Mathlib.Omega.{arith}
use pybotx.Common.Tests.{Bool-cases}
use pybotx.Common.Lists.{All, All-append}
use pybotx.Common.Text.Defs.{Str, is_space}
use pybotx.Common.Text.Split.{emit, split_from, split, drop_while, drop_while_end, strip, strip_by}

drop_while_end-none : (p : ℕ → Bool) (s : Str) → All (λ c. p c ≡ false) s → drop_while_end p s ≡ s
unfolding drop_while_end
drop_while_end-none p [] h = refl
drop_while_end-none p (c ∷ s) (n, h) = rw (drop_while_end-none p s h, drop_while_end) (ground arith)

pub strip_by-none : (p : ℕ → Bool) (s : Str) → All (λ c. p c ≡ false) s → strip_by p s ≡ s
unfolding strip_by
strip_by-none p [] h = refl
strip_by-none p (c ∷ s) (n, h) = rw (n, drop_while) (drop_while_end-none p (c ∷ s) (n, h))

abbrev pub IsWord : Str → Type 0
IsWord = All (λ c. is_space c ≡ false)

split_from-drop_while : (s : Str) → split_from [] (drop_while is_space s) ≡ split_from [] s
unfolding split_from drop_while
split_from-drop_while [] = refl
split_from-drop_while (c ∷ s) = ground (arith, split_from-drop_while s)

split_from-drop_while_end :
    (word s : Str) → split_from word (drop_while_end is_space s) ≡ split_from word s
unfolding split_from drop_while_end
split_from-drop_while_end word [] = refl
split_from-drop_while_end word (c ∷ s) =
    ground (arith, split_from-drop_while_end [] s, split_from-drop_while_end (word ++ c ∷ []) s)

-- Stripping a text leaves its words.
pub split-strip : (s : Str) → split (strip s) ≡ split s
unfolding split strip
split-strip s = rw (split_from-drop_while_end [] (drop_while is_space s)) (split_from-drop_while s)

pub split_from-word :
    (word command s : Str)
    → IsWord command
    → split_from word (command ++ s) ≡ split_from (word ++ command) s
unfolding split_from
split_from-word word [] s h = rw (append-nil word)
split_from-word word (c ∷ command) s (n, h) =
    rw (n, split_from)
      (split_from-word (word ++ c ∷ []) command s h
        ∙ ap (λ w. split_from w s) (append_assoc word (c ∷ []) command))

emit-All :
    (word : Str) (words : List Str) → IsWord word → All IsWord words → All IsWord (emit word words)
emit-All [] words h k = k
emit-All (c ∷ word) words h k = (h, k)

split_from-All : (word s : Str) → IsWord word → All IsWord (split_from word s)
unfolding split_from
split_from-All word [] h = emit-All word [] h tt
split_from-All word (c ∷ s) h = elim (Bool-cases (is_space c)) [
  | inl e ↦ rw (e, split_from) (emit-All word _ h (split_from-All [] s tt))
  | inr e ↦
      rw (e, split_from)
        (split_from-All (word ++ c ∷ []) s
          (All-append (λ c. is_space c ≡ false) word (c ∷ []) h (e, tt)))
]

pub map-strip : (words : List Str) → All IsWord words → map strip words ≡ words
unfolding strip
map-strip [] h = refl
map-strip (w ∷ words) (h, k) = rw (strip_by-none is_space w h, map-strip words k)

pub split-All : (s : Str) → All IsWord (split s)
unfolding split
split-All s = split_from-All [] s tt

pub split-space : (c : ℕ) (s : Str) → is_space c ≡ true → split (c ∷ s) ≡ split s
unfolding split split_from
split-space c s h = ground (arith, h)

-- The first word of a text that starts with it.
pub split-command :
    (command : Str) (space : ℕ) (rest : Str)
    → IsWord command
    → is_space space ≡ true
    → split (command ++ space ∷ rest) ≡ emit command (split rest)
unfolding split split_from
split-command command space rest h k =
    split_from-word [] command (space ∷ rest) h ∙ ground (arith, k)

pub emit-last :
    (word : Str) (c : ℕ) (words : List Str) → emit (word ++ c ∷ []) words ≡ (word ++ c ∷ []) ∷ words
emit-last [] c words = refl
emit-last (d ∷ word) c words = refl

pub split-word : (c : ℕ) (word : Str) → IsWord (c ∷ word) → split (c ∷ word) ≡ (c ∷ word) ∷ []
unfolding split split_from
split-word c word h = ap split (sym (append-nil (c ∷ word))) ∙ split_from-word [] (c ∷ word) [] h
