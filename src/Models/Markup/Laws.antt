-- ===== src/Models/Markup/Laws.antt =====
-- A markup against the sequence of the buttons that were added to it.
use pybotx.Common.{
  ℕ, suc, ◌+◌, ◌≡◌, refl, ap, sym, ◌∙◌, arith, Bool, true, false, ◌||◌, if◌then◌else◌, List, [],
  ◌∷◌, ◌++◌, map, All, length, append_assoc, append-nil, All-append, length-append,
}
use native.Mathlib.Nat.{zero-add}
use pybotx.Common.Text.{is_empty}
use pybotx.Models.Markup.Defs.{Button, ButtonRow, Markup, append_to_last, add_built_button}

-- The buttons of all rows, in order
abbrev pub buttons : Markup → ButtonRow
buttons [] = []
buttons (row ∷ rows) = row ++ buttons rows

abbrev pub IsNonempty : ButtonRow → Type 0
IsNonempty row = is_empty row ≡ false

buttons-append : (m n : Markup) → buttons (m ++ n) ≡ buttons m ++ buttons n
buttons-append [] n = refl
buttons-append (row ∷ m) n = rw (buttons-append m n, append_assoc row (buttons m) (buttons n)) refl

append_to_last-buttons :
    (b : Button) (row : ButtonRow) (m : Markup)
    → buttons (append_to_last b (row ∷ m)) ≡ buttons (row ∷ m) ++ b ∷ []
unfolding append_to_last
append_to_last-buttons b row [] = rw (append-nil row, append-nil (row ++ b ∷ [])) refl
append_to_last-buttons b row (next ∷ m) =
    rw (append_to_last-buttons b next m, append_assoc row (next ++ buttons m) (b ∷ [])) refl

append-IsNonempty : (row : ButtonRow) (b : Button) → IsNonempty (row ++ b ∷ [])
append-IsNonempty [] b = refl
append-IsNonempty (a ∷ row) b = refl

append_to_last-All :
    (b : Button) (m : Markup) → All IsNonempty m → All IsNonempty (append_to_last b m)
unfolding append_to_last
append_to_last-All b [] h = tt
append_to_last-All b (row ∷ []) h = (append-IsNonempty row b, tt)
append_to_last-All b (row ∷ next ∷ m) (h, k) = (h, append_to_last-All b (next ∷ m) k)

append_to_last-length : (b : Button) (m : Markup) → length (append_to_last b m) ≡ length m
unfolding append_to_last
append_to_last-length b [] = refl
append_to_last-length b (row ∷ []) = refl
append_to_last-length b (row ∷ next ∷ m) = ap suc (append_to_last-length b (next ∷ m))

-- One addition: the button comes last, rows stay without an empty one, and there is one row more
-- if it was asked for or there was none.
abbrev pub IsAdded : Button → Bool → Markup → Markup → Type 0
IsAdded b new_row m n =
    (buttons n ≡ buttons m ++ b ∷ [])
    × (All IsNonempty m → All IsNonempty n)
    × (length n ≡ (if new_row || is_empty m then length m + 1 else length m))

add_built_button-IsAdded :
    (b : Button) (new_row : Bool) (m : Markup) → IsAdded b new_row m (add_built_button b new_row m)
unfolding add_built_button append_to_last
add_built_button-IsAdded b true m = (
  buttons-append m ((b ∷ []) ∷ []),
  λ h. All-append IsNonempty m ((b ∷ []) ∷ []) h (refl, tt),
  length-append m ((b ∷ []) ∷ []),
)
add_built_button-IsAdded b false [] = (refl, λ h. (refl, tt), refl)
add_built_button-IsAdded b false (row ∷ m) = (
  append_to_last-buttons b row m,
  append_to_last-All b (row ∷ m),
  append_to_last-length b (row ∷ m),
)

-- A sequence of additions
abbrev pub Addition : Type 0
Addition = Button × Bool

abbrev pub add_all : List Addition → Markup → Markup
add_all [] m = m
add_all ((b, new_row) ∷ additions) m = add_all additions (add_built_button b new_row m)

abbrev pub added : Addition → Button
added (b, new_row) = b

add_all-buttons :
    (additions : List Addition) (m : Markup)
    → buttons (add_all additions m) ≡ buttons m ++ map added additions
add_all-buttons [] m = sym (append-nil (buttons m))
add_all-buttons ((b, new_row) ∷ additions) m =
    rw
      (
        add_all-buttons additions (add_built_button b new_row m),
        (add_built_button-IsAdded b new_row m).0,
        append_assoc (buttons m) (b ∷ []) (map added additions),
      )
      refl

add_all-All :
    (additions : List Addition) (m : Markup)
    → All IsNonempty m
    → All IsNonempty (add_all additions m)
add_all-All [] m h = h
add_all-All ((b, new_row) ∷ additions) m h =
    add_all-All additions (add_built_button b new_row m)
      ((add_built_button-IsAdded b new_row m).1 h)

-- How many rows the additions open: one for each that asks for a new row or meets an empty markup
abbrev pub opened : (empty : Bool) → List Addition → ℕ
opened empty [] = 0
opened empty ((b, new_row) ∷ additions) =
    let rest = opened false additions in if new_row || empty then rest + 1 else rest

add_built_button-is_empty :
    (b : Button) (new_row : Bool) (m : Markup) → is_empty (add_built_button b new_row m) ≡ false
unfolding add_built_button append_to_last
add_built_button-is_empty b true [] = refl
add_built_button-is_empty b true (row ∷ m) = refl
add_built_button-is_empty b false [] = refl
add_built_button-is_empty b false (row ∷ []) = refl
add_built_button-is_empty b false (row ∷ next ∷ m) = refl

add_all-length :
    (additions : List Addition) (m : Markup)
    → length (add_all additions m) ≡ length m + opened (is_empty m) additions
add_all-length [] m = grind arith
add_all-length ((b, new_row) ∷ additions) m =
    let next = add_all-length additions (add_built_button b new_row m) in
    let one = (add_built_button-IsAdded b new_row m).2 in
    let kept = add_built_button-is_empty b new_row m in ground arith

-- A markup that is built from nothing by additions of buttons refines their sequence: read row by row it has exactly
-- these buttons in the order they were added, none of its rows is empty, and it has a row for the first button and for
-- each later one that asked for a new row.
pub add_all_lem :
    (additions : List Addition)
    → (buttons (add_all additions []) ≡ map added additions)
      × All IsNonempty (add_all additions [])
      × (length (add_all additions []) ≡ opened true additions)
add_all_lem additions = (
  add_all-buttons additions [],
  add_all-All additions [] tt,
  add_all-length additions [] ∙ zero-add (opened true additions),
)
