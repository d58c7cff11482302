-- ===== src/Runtime/Controller/Accounted.antt =====
-- A retry that was executed is counted, and no other count changes.
use text.Mathlib.Text.{starts_with}
use d_mobility.Prelude.{
  ℕ, ◌+◌, ◌≤◌, ◌<◌, String, ◌≡◌, refl, sym, subst, ◌⊎◌, inl, inr, true, false, [], ◌∷◌, Option,
  ◌==◌, leb, strip, or_text, Bool-cases, arith, eq_iff, eq_refl,
}
use d_mobility.Runtime.Controller.Retries.{
  Counts, count_of, put_count, Retried, retry_counts_snapshot, is_retry_family,
  ensure_retry_accounted,
}

count_of-put_count : (key : String) (n : ℕ) (cs : Counts) → count_of key (put_count key n cs) ≡ n
unfolding count_of put_count
count_of-put_count key n [] = rw (eq_refl key) refl
count_of-put_count key n ((k, m) ∷ rest) = elim (Bool-cases (k == key)) [
  | inl e ↦ rw (e, e) refl
  | inr e ↦ rw (e, e) (count_of-put_count key n rest)
]

other_count :
    (key other : String) (n : ℕ) (cs : Counts)
    → (key == other) ≡ false
    → count_of other (put_count key n cs) ≡ count_of other cs
unfolding count_of put_count
other_count key other n [] h = rw h refl
other_count key other n ((k, m) ∷ rest) h = elim (Bool-cases (k == key)) [
  | inl e ↦
      let same = subst (λ (x : String). (x == other) ≡ false) (sym ((eq_iff k key).0 e)) h in
      rw e (rw same refl)
  | inr e ↦ elim (Bool-cases (k == other)) [
    | inl o ↦ rw e (rw o refl)
    | inr o ↦ rw e (rw o (other_count key other n rest h))
  ]
]

-- What the reconciliation leaves: enough retries counted, or both counts set.
abbrev pub IsAccounted : Retried → String → ℕ → Retried → Type 0
IsAccounted s t required s' =
    ((required ≤ count_of t (retry_counts_snapshot s)) × (s' ≡ s))
    ⊎ ((count_of t (retry_counts_snapshot s) < required)
        × (count_of t s'.execution_counts ≡ required)
        × (count_of t s'.workflow_counts ≡ required)
        × ((c : String)
            → ((t == c) ≡ true)
              ⊎ ((count_of c s'.execution_counts ≡ count_of c (retry_counts_snapshot s))
                  × (count_of c s'.workflow_counts ≡ count_of c (retry_counts_snapshot s)))))

-- After a legal retry or rerun of a named capability, the merged counts already held at least one
-- retry more than before, and nothing is changed; or they held fewer, and both counts then hold
-- exactly one more than before for it, and for every other capability what the merged counts hold.
pub ensure_retry_accounted-IsAccounted :
    (s : Retried) (family : String) (target : Option String) (before : Counts)
    → is_retry_family family ≡ true
    → (strip (or_text target "") == "") ≡ false
    → starts_with s.error_summary "illegal_selected_action" ≡ false
    → IsAccounted s
        (strip (or_text target ""))
        (count_of (strip (or_text target "")) before + 1)
        (ensure_retry_accounted s family target before)
unfolding ensure_retry_accounted
ensure_retry_accounted-IsAccounted s family target before f named legal =
    let t = strip (or_text target "") in
    let required = count_of t before + 1 in
    let counts = retry_counts_snapshot s in
    elim (Bool-cases (leb required (count_of t counts))) [
      | inl enough ↦ rw (f, named, legal, enough) (inl (ground (arith, enough), refl))
      | inr short ↦
          rw (f, named, legal, short)
            (inr (
              ground (arith, short),
              count_of-put_count t required counts,
              count_of-put_count t required counts,
              λ c. elim (Bool-cases (t == c)) [
                | inl same ↦ inl same
                | inr other ↦
                    inr
                      (other_count t c required counts other, other_count t c required counts other)
              ],
            ))
    ]
