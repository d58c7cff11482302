-- ===== src/Prelude/Sorting.antt =====
-- What `sort_by` keeps, for any test, and its order, for the test of a total preorder.
use mathlib.Core.Bool.{Bool, true, false}
use mathlib.Core.List.{List, [], ◌∷◌}
use mathlib.Core.Path.{◌≡◌, refl}
use d_mobility.Prelude.Lists.{insert_by, sort_by, All, All-mono}

module _ {ℓ} {A : Type ℓ} (le : A → A → Bool) where
  abbrev placed : A → A → List A → Bool → List A
  placed x y ys b = elim b [ true ↦ x ∷ y ∷ ys | false ↦ y ∷ insert_by le x ys ]

  module _ {κ} (P : A → Type κ) where
    pub All-insert_by : (x : A) (ys : List A) → P x → All P ys → All P (insert_by le x ys)
    All-insert_by x [] px h = (px, tt)
    All-insert_by x (y ∷ ys) px h = elim (le x y) as (λ b. All P (placed x y ys b)) [
      | true ↦ (px, h)
      | false ↦ (h.0, All-insert_by x ys px h.1)
    ]

    pub insert_by-All : (x : A) (ys : List A) → All P (insert_by le x ys) → P x × All P ys
    insert_by-All x [] h = h
    insert_by-All x (y ∷ ys) h = go (le x y) h (insert_by-All x ys)
      where
        go :
            (b : Bool)
            → All P (placed x y ys b)
            → (All P (insert_by le x ys) → P x × All P ys)
            → P x × All P (y ∷ ys)
        go true k rest = k
        go false k rest = let (px, h) = rest k.1 in (px, (k.0, h))

    pub All-sort_by : (xs : List A) → All P xs → All P (sort_by le xs)
    All-sort_by [] h = tt
    All-sort_by (x ∷ xs) h = All-insert_by x (sort_by le xs) h.0 (All-sort_by xs h.1)

    pub sort_by-All : (xs : List A) → All P (sort_by le xs) → All P xs
    sort_by-All [] h = tt
    sort_by-All (x ∷ xs) h =
        let (px, k) = insert_by-All x (sort_by le xs) h in (px, sort_by-All xs k)

  -- Each item is before the items behind it.
  abbrev pub IsSorted : List A → Type ℓ
  IsSorted [] = Unit
  IsSorted (x ∷ xs) = All (λ y. le x y ≡ true) xs × IsSorted xs

  module _ (total : (x y : A) → le x y ≡ false → le y x ≡ true)
      (trans : (x y z : A) → le x y ≡ true → le y z ≡ true → le x z ≡ true) where
    insert_by-IsSorted : (x : A) (ys : List A) → IsSorted ys → IsSorted (insert_by le x ys)
    insert_by-IsSorted x [] h = (tt, tt)
    insert_by-IsSorted x (y ∷ ys) h = go (le x y) refl (insert_by-IsSorted x ys h.1)
      where
        go : (b : Bool) → le x y ≡ b → IsSorted (insert_by le x ys) → IsSorted (placed x y ys b)
        go true e k = ((e, All-mono _ _ ys (λ z q. trans x y z e q) h.0), h)
        go false e k = (All-insert_by (λ z. le y z ≡ true) x ys (total x y e) h.0, k)

    pub sort_by-IsSorted : (xs : List A) → IsSorted (sort_by le xs)
    sort_by-IsSorted [] = tt
    sort_by-IsSorted (x ∷ xs) = insert_by-IsSorted x (sort_by le xs) (sort_by-IsSorted xs)
