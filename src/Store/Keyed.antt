-- ===== src/Store/Keyed.antt =====
-- Tables whose keys stand once, and what a patch does to lookups.
use text.Mathlib.Text.{◌==◌ as str_eq}
use text.Mathlib.TextEquality.{eq_iff}
use trustee_bank.Prelude.{
  ◌≡◌, refl, sym, ◌∙◌, ◌⊎◌, inl, inr, Bool-cases, Option-cases, String, some, none, [], ◌∷◌,
}
use trustee_bank.Store.Table.{
  Table, find_unique, update, find_unique-update_self, find_unique-update_ne,
}
use trustee_bank.Store.Every.{some_injective}

-- Every key stands once.
abbrev pub Keyed {ℓ} : {V : Type ℓ} → Table V → Type ℓ
Keyed [] = Unit
Keyed ((k, v) ∷ t) = (find_unique k t ≡ none) × Keyed t

pub update-none {ℓ} :
    {V : Type ℓ} (k j : String) (f : V → V) (t : Table V)
    → find_unique j t ≡ none
    → find_unique j (update k f t) ≡ none
unfolding find_unique update
update-none k j f [] h = refl
update-none k j f ((i, w) ∷ t) h = elim (Bool-cases (str_eq i j)) [
  | inl here ↦ cc (rw here at h)
  | inr there ↦ elim (Bool-cases (str_eq i k)) [
    | inl patched ↦ rw (patched, there) (rw there at h)
    | inr other ↦ rw (other, there) (update-none k j f t (rw there at h))
  ]
]

pub update-Keyed {ℓ} :
    {V : Type ℓ} (k : String) (f : V → V) (t : Table V) → Keyed t → Keyed (update k f t)
unfolding update
update-Keyed k f [] h = tt
update-Keyed k f ((j, v) ∷ t) (free, rest) = elim (Bool-cases (str_eq j k)) [
  | inl here ↦ rw here (free, rest)
  | inr there ↦ rw there (update-none k j f t free, update-Keyed k f t rest)
]

-- A row found after a patch is the row found before, or that row patched.
pub find_unique-update_inv {ℓ} :
    {V : Type ℓ} (k j : String) (f : V → V) (t : Table V) (w : V)
    → find_unique j (update k f t) ≡ some w
    → (v : V) × (find_unique j t ≡ some v) × ((w ≡ v) ⊎ ((k ≡ j) × (w ≡ f v)))
find_unique-update_inv k j f t w h = elim (Option-cases (find_unique j t)) [
  | inl missing ↦ cc (update-none k j f t missing, h)
  | inr (v, found) ↦ elim (Bool-cases (str_eq k j)) [
    | inl here ↦
        let same : k ≡ j = (eq_iff k j).0 here in
        let own : find_unique j (update k f t) ≡ some (f v) =
          rw (sym same) (find_unique-update_self k f t v (rw same found)) in
        (v, found, inr (same, some_injective (sym h ∙ own)))
    | inr there ↦
        (v, found, inl (some_injective (sym h ∙ find_unique-update_ne k j f t there ∙ found)))
  ]
]
