-- ===== src/Prelude/Lists.antt =====
-- Lists over the native numbers, and lists of texts.
use Prim.Native.Nat.{ℕ, zero, suc, ◌+◌}
use Prim.Native.String.{String}
use mathlib.Core.Bool.{Bool, true, false, ◌||◌, ◌&&◌}
use mathlib.Core.Path.{◌≡◌, refl, subst}
use mathlib.Core.Logic.{◌⊎◌, inl, inr}
use text.Mathlib.TextEquality.{eq_iff}
use mathlib.Core.List.{List, [], ◌∷◌, ◌++◌}
use native.Mathlib.Omega.{arith}
use text.Mathlib.Text.{◌==◌}

-- To split on a computed test and keep the equation.
pub Bool-cases : (b : Bool) → (b ≡ true) ⊎ (b ≡ false)
Bool-cases true = inl refl
Bool-cases false = inr refl

module _ {ℓ} {A : Type ℓ} where
  abbrev pub length : List A → ℕ
  length [] = 0
  length (x ∷ xs) = suc (length xs)

  pub length-append : (xs ys : List A) → length (xs ++ ys) ≡ length xs + length ys
  length-append [] ys = omega arith
  length-append (x ∷ xs) ys = omega (arith, length-append xs ys)

  abbrev pub is_empty : List A → Bool
  is_empty [] = true
  is_empty (x ∷ xs) = false

  -- `all(p(x) for x in xs)` and `any(p(x) for x in xs)`.
  abbrev pub all : (A → Bool) → List A → Bool
  all p [] = true
  all p (x ∷ xs) = p x && all p xs

  abbrev pub any : (A → Bool) → List A → Bool
  any p [] = false
  any p (x ∷ xs) = p x || any p xs

module _ {ℓ} {A : Type ℓ} where
  -- `utils.dedupe_keep_order`, with the markers seen so far: the first of equal items is kept.
  abbrev pub dedupe_from : (A → A → Bool) → List A → List A → List A
  dedupe_from same seen [] = []
  dedupe_from same seen (x ∷ xs) =
      let dropped = dedupe_from same seen xs in
      let kept = x ∷ dedupe_from same (x ∷ seen) xs in
      elim (any (λ y. same y x) seen) [ true ↦ dropped | false ↦ kept ]

  abbrev pub dedupe_keep_order : (A → A → Bool) → List A → List A
  dedupe_keep_order same xs = dedupe_from same [] xs

  -- `sorted(xs, key=...)`, a stable sort by the test of the order.
  abbrev pub insert_by : (A → A → Bool) → A → List A → List A
  insert_by le x [] = x ∷ []
  insert_by le x (y ∷ ys) =
      let rest = y ∷ insert_by le x ys in elim (le x y) [ true ↦ x ∷ y ∷ ys | false ↦ rest ]

  abbrev pub sort_by : (A → A → Bool) → List A → List A
  sort_by le [] = []
  sort_by le (x ∷ xs) = insert_by le x (sort_by le xs)

  abbrev pub filter_by : (A → Bool) → List A → List A
  filter_by p [] = []
  filter_by p (x ∷ xs) = let rest = filter_by p xs in elim (p x) [ true ↦ x ∷ rest | false ↦ rest ]

-- `x in xs` for a list of texts.
abbrev pub contains : String → List String → Bool
contains k xs = any (λ x. x == k) xs

abbrev pub dedupe_texts : List String → List String
dedupe_texts xs = dedupe_keep_order (λ a b. a == b) xs

abbrev pub count_text : String → List String → ℕ
count_text k [] = 0
count_text k (x ∷ xs) =
    let rest = count_text k xs in elim (x == k) [ true ↦ suc rest | false ↦ rest ]

-- `xs.index(k)`, or the length where it is missing; and `xs[n:]`.
abbrev pub index_text : String → List String → ℕ
index_text k [] = 0
index_text k (x ∷ xs) =
    let rest = suc (index_text k xs) in elim (x == k) [ true ↦ 0 | false ↦ rest ]

abbrev pub drop {ℓ} : {A : Type ℓ} → ℕ → List A → List A
drop zero xs = xs
drop (suc n) [] = []
drop (suc n) (x ∷ xs) = drop n xs

-- A predicate of every item.
abbrev pub All {ℓ κ} : {A : Type ℓ} → (A → Type κ) → List A → Type κ
All P [] = Unit
All P (x ∷ xs) = P x × All P xs

pub All-append {ℓ κ} :
    {A : Type ℓ} (P : A → Type κ) (xs ys : List A) → All P xs → All P ys → All P (xs ++ ys)
All-append P [] ys h k = k
All-append P (x ∷ xs) ys h k = (h.0, All-append P xs ys h.1 k)

pub All-mono {ℓ κ μ} :
    {A : Type ℓ} (P : A → Type κ) (Q : A → Type μ) (xs : List A)
    → ((x : A) → P x → Q x)
    → All P xs
    → All Q xs
All-mono P Q [] f h = tt
All-mono P Q (x ∷ xs) f h = (f x h.0, All-mono P Q xs f h.1)

pub any-append {ℓ} :
    {A : Type ℓ} (p : A → Bool) (xs ys : List A) → any p (xs ++ ys) ≡ (any p xs || any p ys)
any-append p [] ys = refl
any-append p (x ∷ xs) ys = ground (arith, any-append p xs ys)

-- The items of a list of texts are different.
abbrev pub IsDistinct : List String → Type 0
IsDistinct [] = Unit
IsDistinct (x ∷ xs) = (contains x xs ≡ false) × IsDistinct xs

-- A text of the list without repetitions is in the list.
pub contains-dedupe_from :
    (k : String) (seen xs : List String)
    → contains k (dedupe_from (λ a b. a == b) seen xs) ≡ true
    → contains k xs ≡ true
contains-dedupe_from k seen [] h = h
contains-dedupe_from k seen (x ∷ xs) h =
    ground (arith, h, contains-dedupe_from k seen xs, contains-dedupe_from k (x ∷ seen) xs)

-- No two items of a list are the same by a test.
abbrev pub IsDistinctBy {ℓ} : {A : Type ℓ} → (A → A → Bool) → List A → Type 0
IsDistinctBy same [] = Unit
IsDistinctBy same (x ∷ xs) = All (λ v. same x v ≡ false) xs × IsDistinctBy same xs

or-false : (a b : Bool) → (a || b) ≡ false → (a ≡ false) × (b ≡ false)
or-false true b h = absurd (cc h)
or-false false b h = (refl, h)

module _ {ℓ} {A : Type ℓ} (same : A → A → Bool) where
  -- An item that no seen one is the same as, and a list of those.
  abbrev pub IsNew : List A → A → Type 0
  IsNew seen v = any (λ y. same y v) seen ≡ false

  pub IsNew-rest : (x : A) (seen xs : List A) → All (IsNew (x ∷ seen)) xs → All (IsNew seen) xs
  IsNew-rest x seen xs h = All-mono (IsNew (x ∷ seen)) (IsNew seen) xs (λ v q. (or-false _ _ q).1) h

  pub IsNew-first :
      (x : A) (seen xs : List A) → All (IsNew (x ∷ seen)) xs → All (λ v. same x v ≡ false) xs
  IsNew-first x seen xs h =
      All-mono (IsNew (x ∷ seen)) (λ v. same x v ≡ false) xs (λ v q. (or-false _ _ q).0) h

  pub dedupe_from-IsNew : (seen xs : List A) → All (IsNew seen) (dedupe_from same seen xs)
  dedupe_from-IsNew seen [] = tt
  dedupe_from-IsNew seen (x ∷ xs) =
      go (any (λ y. same y x) seen) refl (dedupe_from-IsNew seen xs)
        (dedupe_from-IsNew (x ∷ seen) xs)
    where
      go :
          (b : Bool)
          → any (λ y. same y x) seen ≡ b
          → All (IsNew seen) (dedupe_from same seen xs)
          → All (IsNew (x ∷ seen)) (dedupe_from same (x ∷ seen) xs)
          → All (IsNew seen) (elim b [
            | true ↦ dedupe_from same seen xs
            | false ↦ x ∷ dedupe_from same (x ∷ seen) xs
          ])
      go true e dropped kept = dropped
      go false e dropped kept = (e, IsNew-rest x seen _ kept)

  pub dedupe_from-IsDistinctBy : (seen xs : List A) → IsDistinctBy same (dedupe_from same seen xs)
  dedupe_from-IsDistinctBy seen [] = tt
  dedupe_from-IsDistinctBy seen (x ∷ xs) =
      elim (any (λ y. same y x) seen)
        as (λ b. IsDistinctBy same (elim b [
          | true ↦ dedupe_from same seen xs
          | false ↦ x ∷ dedupe_from same (x ∷ seen) xs
        ])) [
          | true ↦ dedupe_from-IsDistinctBy seen xs
          | false ↦ (
            IsNew-first x seen _ (dedupe_from-IsNew (x ∷ seen) xs),
            dedupe_from-IsDistinctBy (x ∷ seen) xs,
          )
        ]

-- A text of the list is still there without the repetitions.
dedupe_from-contains :
    (k : String) (seen xs : List String)
    → contains k xs ≡ true
    → (contains k seen || contains k (dedupe_from (λ a b. a == b) seen xs)) ≡ true
dedupe_from-contains k seen [] h = absurd (cc h)
dedupe_from-contains k seen (x ∷ xs) h = elim (Bool-cases (x == k)) [
  | inl e ↦
      let same = (eq_iff x k).0 e in
      elim (Bool-cases (any (λ y. y == x) seen)) [
        | inl old ↦
            let seen_k = subst (λ (v : String). contains v seen ≡ true) same old in rw seen_k refl
        | inr new ↦ ground (arith, new, e)
      ]
  | inr e ↦
      ground (arith, e, h, dedupe_from-contains k seen xs, dedupe_from-contains k (x ∷ seen) xs)
]

pub dedupe_texts-contains :
    (k : String) (xs : List String) → contains k xs ≡ true → contains k (dedupe_texts xs) ≡ true
dedupe_texts-contains k xs h = dedupe_from-contains k [] xs h

-- A text of a list has what all of them have.
pub contains-All {κ} :
    (P : String → Type κ) (k : String) (xs : List String) → contains k xs ≡ true → All P xs → P k
contains-All P k [] h a = absurd (cc h)
contains-All P k (x ∷ xs) h a = elim (Bool-cases (x == k)) [
  | inl e ↦ subst P ((eq_iff x k).0 e) a.0
  | inr e ↦ contains-All P k xs (rw e at h) a.1
]
