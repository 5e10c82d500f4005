-- ===== src/Client/Stickers/Sorting.antt =====
-- The order of the stickers of a pack.
use mathlib.Core.List.{Perm}
use mathlib.Core.List.Perm
use pybotx.Common.{
  ℕ, ◌≤◌, ◌≡◌, refl, ap, ◌∙◌, subst, arith, leb, Bool, true, false, if◌then◌else◌, List, [], ◌∷◌,
  map, Result, ok, map_result, bind_ok, ok-injective, All,
}
use pybotx.Common.Uuid.{Uuid}
use pybotx.Client.Stickers.Responses.{
  ApiSticker, index_from, Keyed, keyed, insert, sort, sticker_of, sorted_by,
}

abbrev key_of : Keyed → ℕ
key_of (k, s) = k

-- Each number is at most all that follow.
abbrev pub IsNondecreasing : List ℕ → Type 0
IsNondecreasing [] = Unit
IsNondecreasing (k ∷ ks) = All (λ l. k ≤ l) ks × IsNondecreasing ks

-- The place of a sticker in the order
abbrev pub place : List Uuid → ApiSticker → Result ℕ
place order s = index_from 0 s.id order

insert-Perm : (x : Keyed) (ys : List Keyed) → Perm (insert x ys) (x ∷ ys)
unfolding insert
insert-Perm x [] = Perm.refl (x ∷ [])
insert-Perm x (y ∷ ys) = inserted (leb x.0 y.0) (insert x ys) (insert-Perm x ys)
  where
    inserted :
        (b : Bool) (zs : List Keyed)
        → Perm zs (x ∷ ys)
        → Perm (if b then x ∷ y ∷ ys else y ∷ zs) (x ∷ y ∷ ys)
    inserted true zs p = Perm.refl (x ∷ y ∷ ys)
    inserted false zs p = Perm.trans (Perm.cons y p) (Perm.swap x y ys)

sort-Perm : (xs : List Keyed) → Perm (sort xs) xs
unfolding sort
sort-Perm [] = Perm.refl []
sort-Perm (x ∷ xs) = Perm.trans (insert-Perm x (sort xs)) (Perm.cons x (sort-Perm xs))

module _ {κ} (P : Keyed → Type κ) where
  insert-All : (x : Keyed) (ys : List Keyed) → P x → All P ys → All P (insert x ys)
  unfolding insert
  insert-All x [] p h = (p, tt)
  insert-All x (y ∷ ys) p (q, h) = inserted (leb x.0 y.0) (insert x ys) (insert-All x ys p h)
    where
      inserted : (b : Bool) (zs : List Keyed) → All P zs → All P (if b then x ∷ y ∷ ys else y ∷ zs)
      inserted true zs k = (p, (q, h))
      inserted false zs k = (q, k)

  sort-All : (xs : List Keyed) → All P xs → All P (sort xs)
  unfolding sort
  sort-All [] h = tt
  sort-All (x ∷ xs) (p, h) = insert-All x (sort xs) p (sort-All xs h)

abbrev IsBelow : ℕ → Keyed → Type 0
IsBelow n x = n ≤ x.0

abbrev IsSorted : List Keyed → Type 0
IsSorted [] = Unit
IsSorted (x ∷ xs) = All (IsBelow x.0) xs × IsSorted xs

All-IsBelow : (m n : ℕ) (xs : List Keyed) → m ≤ n → All (IsBelow n) xs → All (IsBelow m) xs
All-IsBelow m n [] le h = tt
All-IsBelow m n (x ∷ xs) le (p, h) = (omega arith, All-IsBelow m n xs le h)

insert-IsSorted : (x : Keyed) (ys : List Keyed) → IsSorted ys → IsSorted (insert x ys)
unfolding insert
insert-IsSorted x [] h = (tt, tt)
insert-IsSorted x (y ∷ ys) (p, h) =
    inserted (leb x.0 y.0) refl (insert x ys) (insert-IsSorted x ys h)
      (λ le. insert-All (IsBelow y.0) x ys le p)
  where
    inserted :
        (b : Bool)
        → leb x.0 y.0 ≡ b
        → (zs : List Keyed) → IsSorted zs
        → (y.0 ≤ x.0 → All (IsBelow y.0) zs)
        → IsSorted (if b then x ∷ y ∷ ys else y ∷ zs)
    inserted true e zs s below =
        let le : x.0 ≤ y.0 = ground arith in ((le, All-IsBelow x.0 y.0 ys le p), (p, h))
    inserted false e zs s below = (below (ground arith), s)

sort-IsSorted : (xs : List Keyed) → IsSorted (sort xs)
unfolding sort
sort-IsSorted [] = tt
sort-IsSorted (x ∷ xs) = insert-IsSorted x (sort xs) (sort-IsSorted xs)

keys_below : (n : ℕ) (xs : List Keyed) → All (IsBelow n) xs → All (λ l. n ≤ l) (map key_of xs)
keys_below n [] h = tt
keys_below n (x ∷ xs) (p, h) = (p, keys_below n xs h)

keys-IsNondecreasing : (xs : List Keyed) → IsSorted xs → IsNondecreasing (map key_of xs)
keys-IsNondecreasing [] h = tt
keys-IsNondecreasing (x ∷ xs) (p, h) = (keys_below x.0 xs p, keys-IsNondecreasing xs h)

module _ (order : List Uuid) where
  abbrev IsPlaced : Keyed → Type 0
  IsPlaced x = place order x.1 ≡ ok x.0

  abbrev IsKeying : List ApiSticker → List Keyed → Type 0
  IsKeying stickers pairs = (map sticker_of pairs ≡ stickers) × All IsPlaced pairs

  pairs-IsKeying :
      (stickers : List ApiSticker) (pairs : List Keyed)
      → map_result (keyed order) stickers ≡ ok pairs
      → IsKeying stickers pairs
  pairs-IsKeying [] pairs h = subst (IsKeying []) (ok-injective h) (refl, tt)
  pairs-IsKeying (s ∷ stickers) pairs h = bind_ok (keyed order s) _ h (λ x ex hx.
      bind_ok (map_result (keyed order) stickers) _ hx (λ xs exs hxs.
        bind_ok (place order s) _ ex (λ k ek hk.
          let (m, a) = pairs-IsKeying stickers xs exs in
          subst (IsKeying (s ∷ stickers)) (ap (λ z. z ∷ xs) (ok-injective hk) ∙ ok-injective hxs)
            (ap (λ z. s ∷ z) m, (ek, a)))))

  placed :
      (xs : List Keyed)
      → All IsPlaced xs
      → map_result (place order) (map sticker_of xs) ≡ ok (map key_of xs)
  placed [] h = refl
  placed (x ∷ xs) (e, h) = rw (e, placed xs h) refl

  -- The stickers of a pack that has an order come out as a rearrangement of those in the response, and each one's first
  -- place in the order is at most that of any that follows.
  pub sorted_by_lem :
      (stickers result : List ApiSticker)
      → sorted_by order stickers ≡ ok result
      → Perm result stickers
        × ((places : List ℕ) × (map_result (place order) result ≡ ok places)
            × IsNondecreasing places)
  unfolding sorted_by
  sorted_by_lem stickers result h = bind_ok (map_result (keyed order) stickers) _ h (λ pairs e k.
      let (m, a) = pairs-IsKeying stickers pairs e in
      subst
        (λ r.
          Perm r stickers
          × ((places : List ℕ) × (map_result (place order) r ≡ ok places) × IsNondecreasing places))
        (ok-injective k)
        (
          subst (Perm (map sticker_of (sort pairs))) m (Perm.map sticker_of (sort-Perm pairs)),
          (
            map key_of (sort pairs),
            placed (sort pairs) (sort-All IsPlaced pairs a),
            keys-IsNondecreasing (sort pairs) (sort-IsSorted pairs),
          ),
        ))
