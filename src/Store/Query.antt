-- ===== src/Store/Query.antt =====
-- `findFirst` with an order, `findMany` by keys, and the readers of flags and controls.
use text.Mathlib.Text.{◌==◌ as str_eq}
use trustee_bank.Prelude.{
  ℕ, String, Bool, false, ◌||◌, Option, none, some, List, [], ◌∷◌, ◌-◌, ◌/◌, if◌then◌else◌,
}
use trustee_bank.Store.Table.{Table, find_unique}

-- Of the rows that are kept, the first that no later one is newer than.
unfoldable pub latest {ℓ} : {A : Type ℓ} → (A → Bool) → (A → A → Bool) → List A → Option A
latest keep newer [] = none
latest keep newer (x ∷ xs) =
    let rest = latest keep newer xs in
    if keep x
    then elim rest [ none ↦ some x | some y ↦ if newer y x then some y else some x ]
    else rest

abbrev pub includes : List String → String → Bool
includes [] k = false
includes (j ∷ js) k = str_eq j k || includes js k

-- `findMany({ where: { id: { in: ids } } })`
unfoldable pub find_many {ℓ} : {V : Type ℓ} → List String → Table V → List V
find_many ids [] = []
find_many ids ((k, v) ∷ t) = let rest = find_many ids t in if includes ids k then v ∷ rest else rest

-- FeatureFlagsService.isEnabled, with its fallback false; also a control that is set to true.
unfoldable pub is_enabled : String → Table Bool → Bool
is_enabled key flags = elim (find_unique key flags) [ none ↦ false | some v ↦ v ]

-- ClockService.ageSeconds of an instant in milliseconds: zero if it lies ahead.
abbrev pub age_seconds : ℕ → ℕ → ℕ
age_seconds now since = (now - since) / 1000
