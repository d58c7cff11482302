-- ===== src/Graph/Merge/Lookup.antt =====
-- What a merged dictionary holds under a key, and what an appended list holds.
use d_mobility.Prelude.{
  String, Bool, any, map, any-append, dedupe_from, ◌||◌, ◌≡◌, false, refl, ◌∙◌, sym, ap, true, List,
  [], ◌∷◌, ◌++◌, subst, dedupe_keep_order, Option, none, some, ◌==◌, eq_iff, contains, arith,
  Bool-cases, inl, inr, IsDistinctBy, dedupe_from-IsDistinctBy, if◌then◌else◌,
}
use d_mobility.Graph.Merge.{
  Json, Items, Fields, end, field, items, lookup, store, child_path, deep_merge, merge_fields,
  append_fields, to_list, of_list,
}

lookup-store :
    (j k : String) (v : Json) (fs : Fields)
    → lookup k (store j v fs) ≡ (if j == k then some v else lookup k fs)
lookup-store j k v end = refl
lookup-store j k v (field i w rest) =
    ground (arith, lookup-store j k v rest, eq_iff i j, eq_iff i k, eq_iff j k)

-- No key stands twice in a dictionary.
abbrev pub HasDistinctKeys : Fields → Type 0
HasDistinctKeys end = Unit
HasDistinctKeys (field k v rest) = (lookup k rest ≡ none) × HasDistinctKeys rest

-- What a key is to hold: the old value where it is not updated, the update where it is new, and
-- else their merge.
abbrev pub merged_value :
    (Json → String) → String → String → Option Json → Option Json → Option Json
merged_value marker path key old none = old
merged_value marker path key none (some v) = some v
merged_value marker path key (some w) (some v) = some (deep_merge marker (child_path path key) w v)

module _ (marker : Json → String) (path : String) where
  abbrev step : String → Json → Option Json → Fields → Fields
  step j v old merged = elim old [
    | none ↦ store j v merged
    | some w ↦ store j (deep_merge marker (child_path path j) w v) merged
  ]

  lookup-step :
      (j k : String) (v : Json) (old : Option Json) (merged : Fields)
      → lookup k (step j v old merged)
        ≡ (if j == k then merged_value marker path j old (some v) else lookup k merged)
  lookup-step j k v none merged = lookup-store j k v merged
  lookup-step j k v (some w) merged =
      lookup-store j k (deep_merge marker (child_path path j) w v) merged

  -- Where no key stands twice in an update, a merged dictionary holds under each key the old value
  -- if the update lacks the key, the update's value if the key is new, and else the merge of the
  -- two values under the path of the key.
  pub lookup-merge_fields :
      (key : String) (base updates : Fields)
      → HasDistinctKeys updates
      → lookup key (merge_fields marker path base updates)
        ≡ merged_value marker path key (lookup key base) (lookup key updates)
  unfolding merge_fields deep_merge
  lookup-merge_fields key base end d = refl
  lookup-merge_fields key base (field j v rest) d =
      let old = lookup j base in
      let later = lookup-merge_fields key (step j v old base) rest d.1 in
      let now = lookup-step j key v old base in
      elim (Bool-cases (j == key)) [
        | inl e ↦
            let same : j ≡ key = (eq_iff j key).0 e in
            let last : lookup key rest ≡ none =
              subst (λ (i : String). lookup i rest ≡ none) same d.0 in
            rw e (
              later
              ∙ ap
                  (λ (o : Option Json).
                    merged_value marker path key (lookup key (step j v old base)) o)
                  last
              ∙ (rw e at now)
              ∙ ap (λ (i : String). merged_value marker path i (lookup i base) (some v)) same)
        | inr e ↦ rw e (
            later
            ∙ ap (λ (o : Option Json). merged_value marker path key o (lookup key rest))
                (rw e at now))
      ]

to_list-of_list : (ts : List Json) → to_list (of_list ts) ≡ ts
to_list-of_list [] = refl
to_list-of_list (t ∷ ts) = cc (to_list-of_list ts)

any-marked :
    (marker : Json → String) (k : String) (xs : List Json)
    → any (λ y. marker y == k) xs ≡ contains k (map marker xs)
any-marked marker k [] = refl
any-marked marker k (x ∷ xs) = ap (λ (b : Bool). marker x == k || b) (any-marked marker k xs)

shuffle : (m s u v : Bool) → ((m || s) || u) ≡ ((m || s) || v) → (s || (m || u)) ≡ (s || (m || v))
shuffle true s u v h = refl
shuffle false s u v h = h

-- With the markers seen before, a list without repetitions has the markers of the list.
dedupe_from-markers :
    (marker : Json → String) (k : String) (seen xs : List Json)
    → (contains k (map marker seen)
        || contains k (map marker (dedupe_from (λ a b. marker a == marker b) seen xs)))
      ≡ (contains k (map marker seen) || contains k (map marker xs))
dedupe_from-markers marker k seen [] = refl
dedupe_from-markers marker k seen (x ∷ xs) =
    go (any (λ y. marker y == marker x) seen) (any-marked marker (marker x) seen)
      (dedupe_from-markers marker k seen xs) (dedupe_from-markers marker k (x ∷ seen) xs)
  where
    same : Json → Json → Bool
    same a b = marker a == marker b

    found : List Json → Bool
    found ys = contains k (map marker ys)

    go :
        (b : Bool)
        → b ≡ contains (marker x) (map marker seen)
        → (found seen || found (dedupe_from same seen xs)) ≡ (found seen || found xs)
        → ((marker x == k || found seen) || found (dedupe_from same (x ∷ seen) xs))
          ≡ ((marker x == k || found seen) || found xs)
        → (found seen
            || found (elim b [
              | true ↦ dedupe_from same seen xs
              | false ↦ x ∷ dedupe_from same (x ∷ seen) xs
            ]))
          ≡ (found seen || (marker x == k || found xs))
    go true e d r = elim (Bool-cases (marker x == k)) [
      | inl m ↦
          let here : found seen ≡ true =
            subst (λ (i : String). contains i (map marker seen) ≡ true) ((eq_iff (marker x) k).0 m)
              (sym e) in
          rw here refl
      | inr m ↦ rw m d
    ]
    go false e d r = shuffle (marker x == k) (found seen) _ (found xs) r

-- Where two lists are merged under a path to append to, the list that results holds no two items
-- of one marker, and its markers are those of the first list and those of the second.
pub appended-IsDistinctBy :
    (marker : Json → String) (path : String) (xs ys zs : Items)
    → contains path append_fields ≡ true
    → deep_merge marker path (items xs) (items ys) ≡ items zs
    → IsDistinctBy (λ a b. marker a == marker b) (to_list zs)
      × ((k : String)
          → contains k (map marker (to_list zs))
            ≡ (contains k (map marker (to_list xs)) || contains k (map marker (to_list ys))))
unfolding deep_merge
appended-IsDistinctBy marker path xs ys zs h e =
    let same = λ (a b : Json). marker a == marker b in
    let both = to_list xs ++ to_list ys in
    let appended = dedupe_keep_order same both in
    let result : of_list appended ≡ zs = cc (rw h at e) in
    let listed : appended ≡ to_list zs = sym (to_list-of_list appended) ∙ ap to_list result in
    (
      subst (λ (ts : List Json). IsDistinctBy same ts) listed
          (dedupe_from-IsDistinctBy same [] both),
      λ k.
          ap (λ (ts : List Json). contains k (map marker ts)) (sym listed)
          ∙ dedupe_from-markers marker k [] both
          ∙ sym (any-marked marker k both)
          ∙ any-append (λ y. marker y == k) (to_list xs) (to_list ys)
          ∙ ap (λ (b : Bool). b || any (λ y. marker y == k) (to_list ys))
              (any-marked marker k (to_list xs))
          ∙ ap (λ (b : Bool). contains k (map marker (to_list xs)) || b)
              (any-marked marker k (to_list ys)),
    )
