-- ===== src/Paykh/PaymentOrders/Single.antt =====
-- One bank transaction pays at most one order, over histories of calls of payment-orders.service.ts.
use text.Mathlib.Text.{◌==◌ as str_eq}
use text.Mathlib.TextEquality.{eq_iff}
use text.Mathlib.TextPositions.{eq_refl}
use trustee_bank.Prelude.{
  ℕ, ◌≡◌, refl, sym, ap, subst, ◌∙◌, inl, inr, Bool-cases, String, true, false, some, none, [], ◌∷◌,
}
use trustee_bank.Result.{Option-cases}
use trustee_bank.Store.Table.{Table, find_unique, update}
use trustee_bank.Store.Every.{some_injective}
use trustee_bank.Store.Keyed.{Keyed, update-Keyed, find_unique-update_inv}
use trustee_bank.Store.PaykhRows.{PaykhPaymentOrder, PaymentOrderStatus}
use trustee_bank.Paykh.PaymentOrders.{
  order_of, is_paid_by, confirmed_with, with_status, other_order,
}

-- The order that a lookup by transaction finds.
order_of-none :
    (transaction k : String) (t : Table PaykhPaymentOrder) (o : PaykhPaymentOrder)
    → order_of transaction t ≡ none
    → find_unique k t ≡ some o
    → is_paid_by transaction o ≡ false
unfolding order_of find_unique
order_of-none transaction k [] o h found = cc
order_of-none transaction k ((j, p) ∷ t) o h found = elim (Bool-cases (is_paid_by transaction p)) [
  | inl paid ↦ cc (rw paid at h)
  | inr unpaid ↦ elim (Bool-cases (str_eq j k)) [
    | inl here ↦
        subst (λ q. is_paid_by transaction q ≡ false) (some_injective (rw here at found)) unpaid
    | inr there ↦ order_of-none transaction k t o (rw unpaid at h) (rw there at found)
  ]
]

order_of-some :
    (transaction id : String) (t : Table PaykhPaymentOrder)
    → Keyed t
    → order_of transaction t ≡ some id
    → (o : PaykhPaymentOrder) × (find_unique id t ≡ some o) × (is_paid_by transaction o ≡ true)
unfolding order_of find_unique
order_of-some transaction id [] keyed h = cc
order_of-some transaction id ((j, p) ∷ t) (free, keyed) h =
    elim (Bool-cases (is_paid_by transaction p)) [
      | inl paid ↦
          let same : j ≡ id = some_injective (rw paid at h) in
          (p, rw (sym same, eq_refl j) refl, paid)
      | inr unpaid ↦
          let (o, found, pays) = order_of-some transaction id t keyed (rw unpaid at h) in
          elim (Bool-cases (str_eq j id)) [
            | inl here ↦ cc (sym free ∙ ap (λ k. find_unique k t) ((eq_iff j id).0 here), found)
            | inr there ↦ (o, rw there found, pays)
          ]
    ]

-- No transaction pays two orders.
abbrev pub Single : Table PaykhPaymentOrder → Type 0
Single t =
    (transaction a b : String) (o p : PaykhPaymentOrder)
    → find_unique a t ≡ some o
    → find_unique b t ≡ some p
    → is_paid_by transaction o ≡ true
    → is_paid_by transaction p ≡ true
    → a ≡ b

pub record PaysOnce (t : Table PaykhPaymentOrder) : Type 0 where
  pub keyed : Keyed t
  pub single : Single t

-- The row before a patch that keeps the transaction of its row.
before :
    (k : String) (f : PaykhPaymentOrder → PaykhPaymentOrder) (t : Table PaykhPaymentOrder)
    → ((transaction : String) (o : PaykhPaymentOrder)
        → is_paid_by transaction (f o) ≡ is_paid_by transaction o)
    → (transaction a : String) (o : PaykhPaymentOrder) → find_unique a (update k f t) ≡ some o
    → is_paid_by transaction o ≡ true
    → (q : PaykhPaymentOrder) × (find_unique a t ≡ some q) × (is_paid_by transaction q ≡ true)
before k f t same transaction a o found pays =
    let (q, found_q, which) = find_unique-update_inv k a f t o found in
    elim which [
      | inl e ↦ (q, found_q, sym (ap (is_paid_by transaction) e) ∙ pays)
      | inr (here, e) ↦
          (q, found_q, sym (same transaction q) ∙ sym (ap (is_paid_by transaction) e) ∙ pays)
    ]

-- A patch that keeps the transaction of its row.
same-Single :
    (k : String) (f : PaykhPaymentOrder → PaykhPaymentOrder) (t : Table PaykhPaymentOrder)
    → ((transaction : String) (o : PaykhPaymentOrder)
        → is_paid_by transaction (f o) ≡ is_paid_by transaction o)
    → Single t
    → Single (update k f t)
same-Single k f t same h transaction a b o p here there paid_o paid_p =
    let (q, found_q, pays_q) = before k f t same transaction a o here paid_o in
    let (r, found_r, pays_r) = before k f t same transaction b p there paid_p in
    h transaction a b q r found_q found_r pays_q pays_r

-- Naming a transaction that no other order names.
confirm-Single :
    (id transaction : String) (now : ℕ) (t : Table PaykhPaymentOrder)
    → ((k : String) (o : PaykhPaymentOrder)
        → find_unique k t ≡ some o
        → is_paid_by transaction o ≡ true
        → k ≡ id)
    → Single t
    → Single (update id (confirmed_with transaction now) t)
confirm-Single id transaction now t unused h other a b o p here there paid_o paid_p =
    let (q, found_q, which_q) =
      find_unique-update_inv id a (confirmed_with transaction now) t o here in
    let (r, found_r, which_r) =
      find_unique-update_inv id b (confirmed_with transaction now) t p there in
    elim which_q [
      | inl same_o ↦
          let pays_q = sym (ap (is_paid_by other) same_o) ∙ paid_o in
          elim which_r [
            | inl same_p ↦
                h other a b q r found_q found_r pays_q (sym (ap (is_paid_by other) same_p) ∙ paid_p)
            | inr (at_b, new_p) ↦
                let named : transaction ≡ other =
                  (eq_iff transaction other).0 (sym (ap (is_paid_by other) new_p) ∙ paid_p) in
                unused a q found_q (rw named pays_q) ∙ at_b
          ]
      | inr (at_a, new_o) ↦ elim which_r [
        | inr (at_b, new_p) ↦ sym at_a ∙ at_b
        | inl same_p ↦
            let pays_r = sym (ap (is_paid_by other) same_p) ∙ paid_p in
            let named : transaction ≡ other =
              (eq_iff transaction other).0 (sym (ap (is_paid_by other) new_o) ∙ paid_o) in
            sym at_a ∙ sym (unused b r found_r (rw named pays_r))
      ]
    ]

pub status-PaysOnce :
    (k : String) (status : PaymentOrderStatus) (t : Table PaykhPaymentOrder)
    → PaysOnce t
    → PaysOnce (update k (with_status status) t)
status-PaysOnce k status t h = record {
  keyed = update-Keyed k (with_status status) t h.keyed;
  single = same-Single k (with_status status) t (λ transaction o. refl) h.single;
}

own_order : (prior id : String) → other_order (some prior) id ≡ none → prior ≡ id
own_order prior id h = elim (Bool-cases (str_eq prior id)) [
  | inl same ↦ (eq_iff prior id).0 same
  | inr differs ↦ cc (rw differs at h)
]

pub confirm-PaysOnce :
    (id transaction : String) (now : ℕ) (t : Table PaykhPaymentOrder)
    → other_order (order_of transaction t) id ≡ none
    → PaysOnce t
    → PaysOnce (update id (confirmed_with transaction now) t)
confirm-PaysOnce id transaction now t unused h = record {
  keyed = update-Keyed id (confirmed_with transaction now) t h.keyed;
  single =
      confirm-Single id transaction now t
        (λ k o found pays. elim (Option-cases (order_of transaction t)) [
          | inr nothing ↦ cc (order_of-none transaction k t o nothing found, pays)
          | inl (prior, first) ↦
              let (q, found_q, pays_q) = order_of-some transaction prior t h.keyed first in
              h.single transaction k prior o q found found_q pays pays_q
              ∙ own_order prior id (rw first at unused)
        ])
        h.single;
}

-- A paid order is none that is new and unpaid.
older :
    (id : String) (o : PaykhPaymentOrder) (t : Table PaykhPaymentOrder)
    → ((transaction : String) → is_paid_by transaction o ≡ false)
    → (transaction a : String) (p : PaykhPaymentOrder) → find_unique a ((id, o) ∷ t) ≡ some p
    → is_paid_by transaction p ≡ true
    → find_unique a t ≡ some p
unfolding find_unique
older id o t unpaid transaction a p found pays = elim (Bool-cases (str_eq id a)) [
  | inl here ↦
      let same : o ≡ p = some_injective (rw here at found) in
      cc (sym (ap (is_paid_by transaction) same) ∙ unpaid transaction, pays)
  | inr there ↦ rw there at found
]

pub new-PaysOnce :
    (id : String) (o : PaykhPaymentOrder) (t : Table PaykhPaymentOrder)
    → find_unique id t ≡ none
    → ((transaction : String) → is_paid_by transaction o ≡ false)
    → PaysOnce t
    → PaysOnce ((id, o) ∷ t)
unfolding find_unique
new-PaysOnce id o t free unpaid h = record {
  keyed = (free, h.keyed);
  single = λ transaction a b p q here there pays_p pays_q.
      h.single transaction a b p q (older id o t unpaid transaction a p here pays_p)
        (older id o t unpaid transaction b q there pays_q) pays_p pays_q;
}
