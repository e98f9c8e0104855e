-- ===== src/Store/Table.antt =====
-- A table with a text key: `findUnique`, `create`, `update` and `findMany` of the database client.
use text.Mathlib.Text.{◌==◌ as str_eq}
use text.Mathlib.TextEquality.{eq_iff}
use trustee_bank.Prelude.{
  String, ◌≡◌, refl, sym, ap, ◌∙◌, Bool, Option, none, some, Bool-cases, inl, inr, List, [], ◌∷◌,
  arith, if◌then◌else◌,
}
use trustee_bank.Prelude.Int.{ℤ, pos, ◌+ℤ◌, int_laws, +ℤ_assoc}

abbrev pub Table {ℓ} : Type ℓ → Type ℓ
Table V = List (String × V)

module _ {ℓ} {V : Type ℓ} where
  unfoldable pub find_unique : String → Table V → Option V
  find_unique k [] = none
  find_unique k ((j, v) ∷ t) = if str_eq j k then some v else find_unique k t

  -- A patch of the row with the key; the key is unique, so the first such row is the only one.
  unfoldable pub update : String → (V → V) → Table V → Table V
  update k f [] = []
  update k f ((j, v) ∷ t) =
      let rest = update k f t in
      (j, if str_eq j k then f v else v) ∷ (if str_eq j k then t else rest)

  -- The sum of a weight over the rows.
  unfoldable pub total_of : (V → ℤ) → Table V → ℤ
  total_of w [] = pos 0
  total_of w ((j, v) ∷ t) = w v +ℤ total_of w t

shift_sum : (x a b c d : ℤ) → a +ℤ b ≡ c +ℤ d → x +ℤ a +ℤ b ≡ x +ℤ c +ℤ d
shift_sum x a b c d h = +ℤ_assoc x a b ∙ ap (λ n. x +ℤ n) h ∙ sym (+ℤ_assoc x c d)

module _ {ℓ} {V : Type ℓ} where
  -- Whether some row passes a test.
  unfoldable pub exists_row : (V → Bool) → Table V → Bool
  exists_row p [] = Bool.false
  exists_row p ((j, v) ∷ t) = if p v then Bool.true else exists_row p t

  first_row :
      (u : V) (rest : Option V) {b : Bool} {v : V}
      → b ≡ Bool.true
      → (if b then some u else rest) ≡ some v
      → u ≡ v
  first_row u rest e h = cc (rw e at h)

  later_row :
      (u : V) (rest : Option V) {b : Bool} {v : V}
      → b ≡ Bool.false
      → (if b then some u else rest) ≡ some v
      → rest ≡ some v
  later_row u rest e h = rw e at h

  pub find_unique-update_self :
      (k : String) (f : V → V) (t : Table V) (v : V)
      → find_unique k t ≡ some v
      → find_unique k (update k f t) ≡ some (f v)
  unfolding find_unique update
  find_unique-update_self k f [] v h = cc
  find_unique-update_self k f ((j, w) ∷ t) v h = elim (Bool-cases (str_eq j k)) [
    | inl here ↦ rw here (ap (λ x. some (f x)) (first_row w (find_unique k t) here h))
    | inr there ↦ rw there (find_unique-update_self k f t v (later_row w (find_unique k t) there h))
  ]

  pub find_unique-update_ne :
      (k j : String) (f : V → V) (t : Table V)
      → str_eq k j ≡ Bool.false
      → find_unique j (update k f t) ≡ find_unique j t
  unfolding find_unique update
  find_unique-update_ne k j f [] h = refl
  find_unique-update_ne k j f ((i, w) ∷ t) h =
      ground (arith, eq_iff i k, eq_iff i j, eq_iff k j, find_unique-update_ne k j f t)

  -- An update moves a sum by the change of the one row.
  pub total_of-update :
      (w : V → ℤ) (k : String) (f : V → V) (t : Table V) (v : V)
      → find_unique k t ≡ some v
      → total_of w (update k f t) +ℤ w v ≡ total_of w t +ℤ w (f v)
  unfolding find_unique update total_of
  total_of-update w k f [] v h = cc
  total_of-update w k f ((j, u) ∷ t) v h = elim (Bool-cases (str_eq j k)) [
    | inl here ↦
        let e : u ≡ v = first_row u (find_unique k t) here h in rw (here, e) (omega int_laws)
    | inr there ↦ rw there (
        shift_sum (w u) (total_of w (update k f t)) (w v) (total_of w t) (w (f v))
          (total_of-update w k f t v (later_row u (find_unique k t) there h)))
  ]

  -- Two patches of one row are one.
  pub update-update :
      (k : String) (f g : V → V) (t : Table V)
      → update k f (update k g t) ≡ update k (λ v. f (g v)) t
  unfolding update
  update-update k f g [] = refl
  update-update k f g ((j, v) ∷ t) = elim (Bool-cases (str_eq j k)) [
    | inl here ↦ rw here refl
    | inr there ↦ rw there (ap (λ rest. (j, v) ∷ rest) (update-update k f g t))
  ]
