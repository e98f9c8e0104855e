-- ===== src/Abac/Best.antt =====
-- What evaluateAbac of packages/domain/src/abac.ts chooses, against one pass over the policies.
use trustee_bank.Prelude.{
  ◌≡◌, refl, sym, subst, ap₂, ◌∙◌, inl, inr, Bool, true, false, ◌&&◌, Option, none, some, List, [],
  ◌∷◌, any, All, arith, Bool-cases, Option-cases, if◌then◌else◌,
}
use trustee_bank.Prelude.Int.{ℤ, ◌≤ℤ◌, ltb_ℤ}
use trustee_bank.Abac.{
  AbacPolicyRule, AbacTransaction, matches, filter, insert, sort, find, is_deny, is_require, decide,
  evaluate_abac,
}

-- Of two candidates the one of higher priority, and of equal ones the earlier.
abbrev pub higher : AbacPolicyRule → Option AbacPolicyRule → Option AbacPolicyRule
higher p none = some p
higher p (some q) = if ltb_ℤ p.priority q.priority then some q else some p

-- The kept policy of the highest priority, in one pass.
unfoldable pub best : (AbacPolicyRule → Bool) → List AbacPolicyRule → Option AbacPolicyRule
best keep [] = none
best keep (p ∷ ps) = let rest = best keep ps in if keep p then higher p rest else rest

abbrev Below : ℤ → AbacPolicyRule → Type 0
Below bound p = p.priority ≤ℤ bound

abbrev Descending : List AbacPolicyRule → Type 0
Descending [] = Unit
Descending (p ∷ ps) = All (Below p.priority) ps × Descending ps

insert-All :
    (P : AbacPolicyRule → Type 0) (p : AbacPolicyRule) (qs : List AbacPolicyRule)
    → P p
    → All P qs
    → All P (insert p qs)
unfolding insert
insert-All P p [] new h = (new, h)
insert-All P p (q ∷ qs) new (own, rest) = elim (Bool-cases (ltb_ℤ p.priority q.priority)) [
  | inl low ↦ rw low (own, insert-All P p qs new rest)
  | inr high ↦ rw high (new, (own, rest))
]

weaken :
    (bound top : ℤ) (qs : List AbacPolicyRule)
    → bound ≤ℤ top
    → All (Below bound) qs
    → All (Below top) qs
weaken bound top [] le h = tt
weaken bound top (q ∷ qs) le (own, rest) = (ground arith, weaken bound top qs le rest)

insert-Descending :
    (p : AbacPolicyRule) (qs : List AbacPolicyRule) → Descending qs → Descending (insert p qs)
unfolding insert
insert-Descending p [] h = (tt, tt)
insert-Descending p (q ∷ qs) (own, rest) = elim (Bool-cases (ltb_ℤ p.priority q.priority)) [
  | inl low ↦
      rw low (insert-All (Below q.priority) p qs (ground arith) own, insert-Descending p qs rest)
  | inr high ↦
      rw high ((ground arith, weaken q.priority p.priority qs (ground arith) own), (own, rest))
]

sort-Descending : (ps : List AbacPolicyRule) → Descending (sort ps)
unfolding sort
sort-Descending [] = tt
sort-Descending (p ∷ ps) = insert-Descending p (sort ps) (sort-Descending ps)

-- No policy found among lower ones outranks a policy.
higher-find :
    (keep : AbacPolicyRule → Bool) (p : AbacPolicyRule) (qs : List AbacPolicyRule)
    → All (Below p.priority) qs
    → higher p (find keep qs) ≡ some p
unfolding find
higher-find keep p [] h = refl
higher-find keep p (q ∷ qs) (own, rest) = elim (Bool-cases (keep q)) [
  | inl kept ↦ rw kept (ground arith)
  | inr dropped ↦ rw dropped (higher-find keep p qs rest)
]

find-insert :
    (keep : AbacPolicyRule → Bool) (p : AbacPolicyRule) (qs : List AbacPolicyRule)
    → Descending qs
    → find keep (insert p qs) ≡ (if keep p then higher p (find keep qs) else find keep qs)
unfolding find insert
find-insert keep p [] h = refl
find-insert keep p (q ∷ qs) (own, rest) = elim (Bool-cases (ltb_ℤ p.priority q.priority)) [
  | inl low ↦ rw low (elim (Bool-cases (keep q)) [
    | inl kept ↦ rw kept (rw low (ground arith))
    | inr dropped ↦ rw dropped (find-insert keep p qs rest)
  ])
  | inr high ↦ rw high (elim (Bool-cases (keep p)) [
    | inl kept ↦ rw kept (
        sym (
          higher-find keep p (q ∷ qs)
            (ground arith, weaken q.priority p.priority qs (ground arith) own)))
    | inr dropped ↦ rw dropped refl
  ])
]

find-sort-filter :
    (m keep : AbacPolicyRule → Bool) (ps : List AbacPolicyRule)
    → find keep (sort (filter m ps)) ≡ best (λ p. m p && keep p) ps
unfolding find sort filter best
find-sort-filter m keep [] = refl
find-sort-filter m keep (p ∷ ps) = elim (Bool-cases (m p)) [
  | inl kept ↦ rw kept (
      find-insert keep p (sort (filter m ps)) (sort-Descending (filter m ps))
      ∙ rw (find-sort-filter m keep ps) refl)
  | inr dropped ↦ rw dropped (find-sort-filter m keep ps)
]

-- The decision is the one on the best matching policy that denies and the best matching policy that
-- requires approvals, where one pass finds the best: of the highest priority, and of those the first.
pub evaluate_abac-decide :
    (policies : List AbacPolicyRule) (tx : AbacTransaction)
    → evaluate_abac policies tx
      ≡ decide
          (best (λ p. matches p tx && is_deny p) policies)
          (best (λ p. matches p tx && is_require p) policies)
unfolding evaluate_abac
evaluate_abac-decide policies tx =
    ap₂ decide (find-sort-filter (λ p. matches p tx) is_deny policies)
      (find-sort-filter (λ p. matches p tx) is_require policies)

higher-some :
    (p : AbacPolicyRule) (m : Option AbacPolicyRule) → (q : AbacPolicyRule) × (higher p m ≡ some q)
higher-some p none = (p, refl)
higher-some p (some q) = elim (Bool-cases (ltb_ℤ p.priority q.priority)) [
  | inl low ↦ (q, rw low refl)
  | inr high ↦ (p, rw high refl)
]

-- The policies of a list that are kept have at most a priority.
abbrev pub Outranked : (AbacPolicyRule → Bool) → ℤ → List AbacPolicyRule → Type 0
Outranked keep bound ps = All (λ q. keep q ≡ true → q.priority ≤ℤ bound) ps

raise :
    (keep : AbacPolicyRule → Bool) (bound top : ℤ) (ps : List AbacPolicyRule)
    → bound ≤ℤ top
    → Outranked keep bound ps
    → Outranked keep top ps
raise keep bound top [] le h = tt
raise keep bound top (q ∷ qs) le (own, rest) =
    (λ kept. let below = own kept in ground arith, raise keep bound top qs le rest)

best-Outranked-none :
    (keep : AbacPolicyRule → Bool) (bound : ℤ) (ps : List AbacPolicyRule)
    → best keep ps ≡ none
    → Outranked keep bound ps
unfolding best
best-Outranked-none keep bound [] h = tt
best-Outranked-none keep bound (p ∷ ps) h = elim (Bool-cases (keep p)) [
  | inl kept ↦ let (q, e) = higher-some p (best keep ps) in cc (rw kept at h)
  | inr dropped ↦ (λ kept. cc, best-Outranked-none keep bound ps (rw dropped at h))
]

same_top :
    (keep : AbacPolicyRule → Bool) (ps : List AbacPolicyRule) {p q : AbacPolicyRule}
    → q ≡ p
    → (keep q ≡ true) × Outranked keep q.priority ps
    → (keep p ≡ true) × Outranked keep p.priority ps
same_top keep ps e h = subst (λ r. (keep r ≡ true) × Outranked keep r.priority ps) e h

-- What a pass finds is kept, and no kept policy outranks it.
pub best_outranks :
    (keep : AbacPolicyRule → Bool) (ps : List AbacPolicyRule) (p : AbacPolicyRule)
    → best keep ps ≡ some p
    → (keep p ≡ true) × Outranked keep p.priority ps
unfolding best
best_outranks keep [] p h = cc
best_outranks keep (q ∷ qs) p h = elim (Bool-cases (keep q)) [
  | inr dropped ↦
      let (kept, rest) = best_outranks keep qs p (rw dropped at h) in (kept, (λ k. cc, rest))
  | inl kept ↦ elim (Option-cases (best keep qs)) [
    | inl nothing ↦
        let e : q ≡ p = cc (rw (kept, nothing) at h) in
        same_top keep (q ∷ qs) e
          (kept, (λ k. ground arith, best-Outranked-none keep q.priority qs nothing))
    | inr (r, found) ↦
        let (own, rest) = best_outranks keep qs r found in
        elim (Bool-cases (ltb_ℤ q.priority r.priority)) [
          | inl low ↦
              let e : r ≡ p = cc (rw (kept, found, low) at h) in
              same_top keep (q ∷ qs) e (own, (λ k. ground arith, rest))
          | inr high ↦
              let e : q ≡ p = cc (rw (kept, found, high) at h) in
              same_top keep (q ∷ qs) e
                (kept, (λ k. ground arith, raise keep r.priority q.priority qs (ground arith) rest))
        ]
  ]
]

best-none :
    (keep : AbacPolicyRule → Bool) (ps : List AbacPolicyRule)
    → any keep ps ≡ false
    → best keep ps ≡ none
unfolding best
best-none keep [] h = refl
best-none keep (p ∷ ps) h = elim (Bool-cases (keep p)) [
  | inl kept ↦ ground arith
  | inr dropped ↦ rw dropped (best-none keep ps (rw dropped at h))
]

best-some :
    (keep : AbacPolicyRule → Bool) (ps : List AbacPolicyRule)
    → any keep ps ≡ true
    → (p : AbacPolicyRule) × (best keep ps ≡ some p)
unfolding best
best-some keep [] h = cc
best-some keep (p ∷ ps) h = elim (Bool-cases (keep p)) [
  | inl kept ↦ rw kept (higher-some p (best keep ps))
  | inr dropped ↦ rw dropped (best-some keep ps (rw dropped at h))
]

decide-denied : (m : Option AbacPolicyRule) → (decide none m).denied ≡ false
unfolding decide
decide-denied none = refl
decide-denied (some p) = refl

-- The transaction is denied exactly where some matching policy denies it, whatever the priorities.
pub denied_iff :
    (policies : List AbacPolicyRule) (tx : AbacTransaction)
    → (evaluate_abac policies tx).denied ≡ any (λ p. matches p tx && is_deny p) policies
unfolding decide
denied_iff policies tx =
    rw (evaluate_abac-decide policies tx)
      (elim (Bool-cases (any (λ p. matches p tx && is_deny p) policies)) [
        | inl some_deny ↦
            let (p, found) = best-some (λ p. matches p tx && is_deny p) policies some_deny in
            rw (found, some_deny) refl
        | inr none_deny ↦ rw (best-none _ policies none_deny, none_deny) (decide-denied _)
      ])
