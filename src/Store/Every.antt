-- ===== src/Store/Every.antt =====
-- A predicate on every row that a lookup finds.
use text.Mathlib.Text.{◌==◌ as str_eq}
use text.Mathlib.TextEquality.{eq_iff}
use trustee_bank.Prelude.{◌≡◌, sym, ◌∙◌, subst, inl, inr, Bool-cases, String, some, ◌∷◌}
use trustee_bank.Store.Table.{
  Table, find_unique, update, find_unique-update_self, find_unique-update_ne,
}

pub some_injective {ℓ} : {A : Type ℓ} {x y : A} → some x ≡ some y → x ≡ y
some_injective h = cc

module _ {ℓ} {V : Type ℓ} where
  abbrev pub Every {κ} : (V → Type κ) → Table V → Type (ℓ ⊔ κ)
  Every P t = (key : String) (v : V) → find_unique key t ≡ some v → P v

  pub put-Every {κ} :
      (P : V → Type κ) (k : String) (v : V) (t : Table V) → P v → Every P t → Every P ((k, v) ∷ t)
  unfolding find_unique
  put-Every P k v t new h key w found = elim (Bool-cases (str_eq k key)) [
    | inl here ↦ subst P (some_injective (rw here at found)) new
    | inr there ↦ h key w (rw there at found)
  ]

  pub update-Every {κ} :
      (P : V → Type κ) (k : String) (f : V → V) (v : V) (t : Table V)
      → find_unique k t ≡ some v
      → P (f v)
      → Every P t
      → Every P (update k f t)
  update-Every P k f v t found new h key w present = elim (Bool-cases (str_eq k key)) [
    | inl here ↦
        let same : k ≡ key = (eq_iff k key).0 here in
        let own : find_unique key (update k f t) ≡ some (f v) =
          rw (sym same) (find_unique-update_self k f t v found) in
        subst P (some_injective (sym own ∙ present)) new
    | inr there ↦ h key w (sym (find_unique-update_ne k key f t there) ∙ present)
  ]

  -- What holds of every row holds of the rows of another table under a weaker predicate.
  pub weaken-Every {κ} :
      (P Q : V → Type κ) (t : Table V) → ((v : V) → P v → Q v) → Every P t → Every Q t
  weaken-Every P Q t weaker h key v found = weaker v (h key v found)
