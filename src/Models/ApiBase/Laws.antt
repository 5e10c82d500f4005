-- ===== src/Models/ApiBase/Laws.antt =====
-- What is left after the removal.
use pybotx.Common.{ℕ, ◌≡◌, refl, ap, Bool, true, false, if◌then◌else◌, arith}
use pybotx.Models.ApiBase.Defs.{
  undefined, plain, list, dict, Values, nil, cons, Entries, end, entry, count_values, count_entries,
  is_kept, remove_values, remove_entries,
}

-- No `Undefined` at any depth.
abbrev mutual
  pub IsDefinedValues : Values → Type 0
  IsDefinedValues nil = Unit
  IsDefinedValues (cons undefined vs) = ⊥
  IsDefinedValues (cons (plain j) vs) = IsDefinedValues vs
  IsDefinedValues (cons (list ws) vs) = IsDefinedValues ws × IsDefinedValues vs
  IsDefinedValues (cons (dict es) vs) = IsDefinedEntries es × IsDefinedValues vs

  pub IsDefinedEntries : Entries → Type 0
  IsDefinedEntries end = Unit
  IsDefinedEntries (entry k undefined es) = ⊥
  IsDefinedEntries (entry k (plain j) es) = IsDefinedEntries es
  IsDefinedEntries (entry k (list ws) es) = IsDefinedValues ws × IsDefinedEntries es
  IsDefinedEntries (entry k (dict ds) es) = IsDefinedEntries ds × IsDefinedEntries es

values_if :
    (b : Bool) (v w : Values)
    → IsDefinedValues v
    → IsDefinedValues w
    → IsDefinedValues (if b then v else w)
values_if true v w h k = h
values_if false v w h k = k

entries_if :
    (b : Bool) (v w : Entries)
    → IsDefinedEntries v
    → IsDefinedEntries w
    → IsDefinedEntries (if b then v else w)
entries_if true v w h k = h
entries_if false v w h k = k

mutual
  unfolding remove_values remove_entries

  remove_values-IsDefinedValues : (vs : Values) → IsDefinedValues (remove_values vs)
  remove_values-IsDefinedValues nil = tt
  remove_values-IsDefinedValues (cons undefined vs) = remove_values-IsDefinedValues vs
  remove_values-IsDefinedValues (cons (plain j) vs) = remove_values-IsDefinedValues vs
  remove_values-IsDefinedValues (cons (list ws) vs) =
      values_if (is_kept (count_values (remove_values ws)) (count_values ws))
        (cons (list (remove_values ws)) (remove_values vs)) (remove_values vs)
        (remove_values-IsDefinedValues ws, remove_values-IsDefinedValues vs)
        (remove_values-IsDefinedValues vs)
  remove_values-IsDefinedValues (cons (dict es) vs) =
      values_if (is_kept (count_entries (remove_entries es)) (count_entries es))
        (cons (dict (remove_entries es)) (remove_values vs)) (remove_values vs)
        (remove_entries-IsDefinedEntries es, remove_values-IsDefinedValues vs)
        (remove_values-IsDefinedValues vs)

  remove_entries-IsDefinedEntries : (es : Entries) → IsDefinedEntries (remove_entries es)
  remove_entries-IsDefinedEntries end = tt
  remove_entries-IsDefinedEntries (entry k undefined es) = remove_entries-IsDefinedEntries es
  remove_entries-IsDefinedEntries (entry k (plain j) es) = remove_entries-IsDefinedEntries es
  remove_entries-IsDefinedEntries (entry k (list ws) es) =
      entries_if (is_kept (count_values (remove_values ws)) (count_values ws))
        (entry k (list (remove_values ws)) (remove_entries es)) (remove_entries es)
        (remove_values-IsDefinedValues ws, remove_entries-IsDefinedEntries es)
        (remove_entries-IsDefinedEntries es)
  remove_entries-IsDefinedEntries (entry k (dict ds) es) =
      entries_if (is_kept (count_entries (remove_entries ds)) (count_entries ds))
        (entry k (dict (remove_entries ds)) (remove_entries es)) (remove_entries es)
        (remove_entries-IsDefinedEntries ds, remove_entries-IsDefinedEntries es)
        (remove_entries-IsDefinedEntries es)

is_kept_same : (n : ℕ) → is_kept n n ≡ true
is_kept_same n = ground arith

mutual
  unfolding remove_values remove_entries

  remove_values_same : (vs : Values) → IsDefinedValues vs → remove_values vs ≡ vs
  remove_values_same nil h = refl
  remove_values_same (cons undefined vs) h = absurd h
  remove_values_same (cons (plain j) vs) h = ap (cons (plain j)) (remove_values_same vs h)
  remove_values_same (cons (list ws) vs) (h, k) =
      rw (remove_values_same ws h, remove_values_same vs k, is_kept_same (count_values ws)) refl
  remove_values_same (cons (dict es) vs) (h, k) =
      rw (remove_entries_same es h, remove_values_same vs k, is_kept_same (count_entries es)) refl

  remove_entries_same : (es : Entries) → IsDefinedEntries es → remove_entries es ≡ es
  remove_entries_same end h = refl
  remove_entries_same (entry k undefined es) h = absurd h
  remove_entries_same (entry k (plain j) es) h = ap (entry k (plain j)) (remove_entries_same es h)
  remove_entries_same (entry k (list ws) es) (h, g) =
      rw (remove_values_same ws h, remove_entries_same es g, is_kept_same (count_values ws)) refl
  remove_entries_same (entry k (dict ds) es) (h, g) =
      rw (remove_entries_same ds h, remove_entries_same es g, is_kept_same (count_entries ds)) refl

-- The cleaned dictionary holds no `Undefined` at any depth, and cleaning it again changes nothing.
pub remove_entries_lem :
    (es : Entries)
    → IsDefinedEntries (remove_entries es)
      × (remove_entries (remove_entries es) ≡ remove_entries es)
remove_entries_lem es = (
  remove_entries-IsDefinedEntries es,
  remove_entries_same (remove_entries es) (remove_entries-IsDefinedEntries es),
)

-- A dictionary without `Undefined` at any depth is left as it is.
pub remove_entries_unchanged : (es : Entries) → IsDefinedEntries es → remove_entries es ≡ es
remove_entries_unchanged = remove_entries_same
