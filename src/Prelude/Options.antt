-- ===== src/Prelude/Options.antt =====
-- The tests of a lookup, and `??`.
use mathlib.Core.Bool.{Bool, true, false}
use mathlib.Core.Option.{Option, none, some}

module _ {ℓ} {A : Type ℓ} where
  abbrev pub is_present : Option A → Bool
  is_present none = false
  is_present (some _) = true

  abbrev pub is_absent : Option A → Bool
  is_absent none = true
  is_absent (some _) = false

  -- `option ?? fallback`
  abbrev pub or_default : Option A → A → A
  or_default none fallback = fallback
  or_default (some a) fallback = a
