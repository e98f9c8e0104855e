-- ===== src/Reserve/Adjustments.antt =====
-- `addAdjustment`, `liftAdjustment` and `listAdjustments` of reserve.service.ts.
use text.Mathlib.Text.{◌==◌ as str_eq}
use text.Mathlib.TextPositions.{eq_refl}
use trustee_bank.Prelude.{
  ◌≡◌, refl, ap, ◌∙◌, String, Bool, true, false, not, ◌&&◌, Option, none, some, [], ◌∷◌,
  if◌then◌else◌,
}
use trustee_bank.Prelude.Int.{ℤ, pos, ◌+ℤ◌, +ℤ_zero_left}
use trustee_bank.Prelude.Text.{same_text_iff}
use trustee_bank.Money.{CurrencyCode}
use trustee_bank.Result.{not_found, Subject}
use trustee_bank.Store.Table.{Table, find_unique, update}
use trustee_bank.Store.Query.{includes}
use trustee_bank.Store.Rows.{ReserveAdjustment, Program}
use trustee_bank.Store.Db.{Db}
use trustee_bank.Store.Action.{Env, Action, pure, reads, or_throw, throw_when, writes, ◌>>=◌, ◌>>◌}
use trustee_bank.Reserve.{adjusted}

pub record AdjustmentInput : Type 0 where
  pub program_id : String
  pub kind : String
  pub amount_minor : ℤ
  pub reason : Option String
  pub actor : String

abbrev pub adjustment_row : AdjustmentInput → CurrencyCode → ReserveAdjustment
adjustment_row input currency = record {
  program_id = input.program_id;
  currency = currency;
  kind = input.kind;
  amount_minor = input.amount_minor;
  active = true;
  reason = input.reason;
  created_by = input.actor;
  lifted_by = none;
}

-- The generated identifier, which is new, is an argument.
unfoldable pub add_adjustment : String → AdjustmentInput → Action (String × (String × (ℤ × Bool)))
add_adjustment id input = do
  found ← reads (λ db. find_unique input.program_id db.programs)
  program ← or_throw found (not_found Subject.program)
  throw_when
      (not (
        includes ("RESTRICTED" ∷ "REGULATORY_HOLD" ∷ "OPERATIONAL" ∷ "BANK_CHARGE" ∷ [])
          input.kind))
      (not_found Subject.adjustment_kind)
  writes λ db. record db {
    reserve_adjustments =
        (id, adjustment_row input program.reference_currency) ∷ db.reserve_adjustments;
  }
  pure (id, (input.kind, (input.amount_minor, true)))

abbrev pub lifted : String → ReserveAdjustment → ReserveAdjustment
lifted actor a = record a { active = false; lifted_by = some actor }

-- An `update` of no row throws.
unfoldable pub lift_adjustment : String → String → Action (String × Bool)
lift_adjustment id actor = do
  found ← reads (λ db. find_unique id db.reserve_adjustments)
  a ← or_throw found (not_found Subject.adjustment_kind)
  writes λ db. record db { reserve_adjustments = update id (lifted actor) db.reserve_adjustments }
  pure (id, false)

unfoldable pub active_of : String → Table ReserveAdjustment → Table ReserveAdjustment
active_of program_id [] = []
active_of program_id ((id, a) ∷ t) =
    let rest = active_of program_id t in
    if str_eq a.program_id program_id && a.active then (id, a) ∷ rest else rest

unfoldable pub list_adjustments : String → Action (Table ReserveAdjustment)
unfolding active_of
list_adjustments program_id = reads (λ db. active_of program_id db.reserve_adjustments)

-- A known kind of adjustment.
abbrev pub is_kind : String → Bool
is_kind kind = includes ("RESTRICTED" ∷ "REGULATORY_HOLD" ∷ "OPERATIONAL" ∷ "BANK_CHARGE" ∷ []) kind

adds :
    (id : String) (input : AdjustmentInput) (env : Env) (db : Db) {program : Program}
    → find_unique input.program_id db.programs ≡ some program
    → is_kind input.kind ≡ true
    → (add_adjustment id input env db).1 ≡ record db {
      reserve_adjustments =
          (id, adjustment_row input program.reference_currency) ∷ db.reserve_adjustments;
    }
unfolding add_adjustment
adds id input env db found known = rw (found, known) refl

lifts_new :
    (id actor : String) (a : ReserveAdjustment) (env : Env) (db : Db)
    → (lift_adjustment id actor env (record db {
      reserve_adjustments = (id, a) ∷ db.reserve_adjustments;
    })).1.reserve_adjustments
      ≡ (id, lifted actor a) ∷ db.reserve_adjustments
unfolding lift_adjustment find_unique update
lifts_new id actor a env db = simp (eq_refl id)

adjusted_new :
    (id : String) (input : AdjustmentInput) (c : CurrencyCode) (t : Table ReserveAdjustment)
    → adjusted input.program_id c input.kind ((id, adjustment_row input c) ∷ t)
      ≡ input.amount_minor +ℤ adjusted input.program_id c input.kind t
unfolding adjusted
adjusted_new id input c t =
    rw (eq_refl input.program_id, (same_text_iff c c).1 refl, eq_refl input.kind) refl

none_active : (p q k : Bool) (n : ℤ) → (if p && (q && (false && k)) then n else pos 0) ≡ pos 0
none_active true true k n = refl
none_active true false k n = refl
none_active false q k n = refl

inactive : (p q k : Bool) (n m : ℤ) → (if p && (q && (false && k)) then n else pos 0) +ℤ m ≡ m
inactive p q k n m = rw (none_active p q k n) (+ℤ_zero_left m)

adjusted-lifted :
    (id actor program_id kind : String) (c : CurrencyCode) (a : ReserveAdjustment)
    (t : Table ReserveAdjustment)
    → adjusted program_id c kind ((id, lifted actor a) ∷ t) ≡ adjusted program_id c kind t
unfolding adjusted
adjusted-lifted id actor program_id kind c a t = inactive _ _ (str_eq a.kind kind) _ _

-- An adjustment of a known kind on a program that exists adds its amount, whatever its sign, to what
-- the position deducts for that program, its reference currency and that kind; lifting it takes the
-- amount off again. The second figure is the first one before the call.
pub adjustment_lifts :
    (id : String) (input : AdjustmentInput) (actor : String) (env : Env) (db : Db)
    {program : Program}
    → find_unique input.program_id db.programs ≡ some program
    → is_kind input.kind ≡ true
    → (adjusted input.program_id program.reference_currency input.kind
          (add_adjustment id input env db).1.reserve_adjustments
        ≡ input.amount_minor
          +ℤ adjusted input.program_id program.reference_currency input.kind db.reserve_adjustments)
      × (adjusted input.program_id program.reference_currency input.kind
            (lift_adjustment id actor env (add_adjustment id input env db).1).1.reserve_adjustments
          ≡ adjusted input.program_id program.reference_currency input.kind db.reserve_adjustments)
adjustment_lifts id input actor env db {program} found known =
    let c = program.reference_currency in
    let row = adjustment_row input c in
    rw (adds id input env db found known) (
      adjusted_new id input c db.reserve_adjustments,
      ap (adjusted input.program_id c input.kind) (lifts_new id actor row env db)
          ∙ adjusted-lifted id actor input.program_id input.kind c row db.reserve_adjustments,
    )
