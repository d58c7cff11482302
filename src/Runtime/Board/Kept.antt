-- ===== src/Runtime/Board/Kept.antt =====
-- What a reset keeps of the completed tasks stays ready: with a capability, all that it depends on
-- is kept.
use d_mobility.Prelude.{
  ℕ, String, ◌≡◌, refl, sym, subst, ◌∙◌, any, Bool, true, not, ◌&&◌, List, [], ◌∷◌, ◌==◌, all,
  contains, ltb, filter_by, index_text, Bool-cases, inl, inr, All, arith, eq_iff,
}
use d_mobility.Runtime.Actions.{capability_sequence, capability_dependencies}
use d_mobility.Runtime.Board.{Task, keeps, done_capabilities}
use d_mobility.Runtime.Board.Next.{IsReady}
use d_mobility.Runtime.Board.Known.{IsKnown}

sequence_cases :
    (P : String → Type 0)
    → All P capability_sequence
    → (c : String) → contains c capability_sequence ≡ true
    → P c
sequence_cases P h c k = go capability_sequence h k
  where
    go : (cs : List String) → All P cs → contains c cs ≡ true → P c
    go [] a m = absurd (cc m)
    go (x ∷ xs) a m = elim (Bool-cases (x == c)) [
      | inl e ↦ subst P ((eq_iff x c).0 e) a.0
      | inr e ↦ go xs a.1 (ground (arith, m, e))
    ]

-- The names that a reset from the index keeps.
abbrev is_before : ℕ → String → Bool
is_before n c = contains c capability_sequence && ltb (index_text c capability_sequence) n

-- What a kept capability depends on is kept.
dependencies_before :
    (n : ℕ) (c : String)
    → contains c capability_sequence ≡ true
    → ltb (index_text c capability_sequence) n ≡ true
    → all (is_before n) (capability_dependencies c) ≡ true
unfolding capability_dependencies
dependencies_before n =
    sequence_cases
      (λ c.
        ltb (index_text c capability_sequence) n ≡ true
        → all (is_before n) (capability_dependencies c) ≡ true)
      (
        λ h. refl,
        (
          λ h. ground (arith, h),
          (
            λ h. ground (arith, h),
            (
              λ h. ground (arith, h),
              (
                λ h. ground (arith, h),
                (λ h. ground (arith, h), (λ h. ground (arith, h), (λ h. ground (arith, h), tt))),
              ),
            ),
          ),
        ),
      )

any-filter_by :
    (p q : Task → Bool) (ts : List Task)
    → ((t : Task) → q t ≡ true → p t ≡ true)
    → any q ts ≡ true
    → any q (filter_by p ts) ≡ true
any-filter_by p q [] f h = h
any-filter_by p q (t ∷ ts) f h = ground (arith, h, f t, any-filter_by p q ts f)

-- A task that completes a capability.
abbrev completes : String → Task → Bool
completes d t = not (t.capability == "") && (t.capability == d)

done_any : (d : String) (ts : List Task) → contains d (done_capabilities ts) ≡ any (completes d) ts
done_any d [] = refl
done_any d (t ∷ ts) = ground (arith, done_any d ts)

done_kept :
    (n : ℕ) (d : String) (ts : List Task)
    → is_before n d ≡ true
    → contains d (done_capabilities ts) ≡ true
    → contains d (done_capabilities (filter_by (keeps n) ts)) ≡ true
done_kept n d ts h k =
    done_any d (filter_by (keeps n) ts)
    ∙ any-filter_by (keeps n) (completes d) ts keeps_it (sym (done_any d ts) ∙ k)
  where
    keeps_it : (t : Task) → completes d t ≡ true → keeps n t ≡ true
    keeps_it t q =
        let same : (t.capability == d) ≡ true = ground (arith, q) in
        subst (λ (c : String). is_before n c ≡ true) (sym ((eq_iff t.capability d).0 same)) h

all_kept :
    (n : ℕ) (ds : List String) (ts : List Task)
    → all (is_before n) ds ≡ true
    → all (λ d. contains d (done_capabilities ts)) ds ≡ true
    → all (λ d. contains d (done_capabilities (filter_by (keeps n) ts))) ds ≡ true
all_kept n [] ts h k = refl
all_kept n (d ∷ ds) ts h k = ground (arith, h, k, done_kept n d ts, all_kept n ds ts)

-- A task that is kept stays ready.
pub keeps-IsReady :
    (n : ℕ) (ts : List Task) (t : Task)
    → IsKnown t × IsReady (done_capabilities ts) t
    → keeps n t ≡ true
    → IsReady (done_capabilities (filter_by (keeps n) ts)) t
keeps-IsReady n ts t ((listed, tabled), ready) k =
    let before = dependencies_before n t.capability listed (ground (arith, k)) in
    all_kept n t.depends_on ts
      (subst (λ (ds : List String). all (is_before n) ds ≡ true) (sym tabled) before) ready
