-- ===== src/Peg.antt =====
-- packages/domain/src/peg.ts: whole token units against their backing in the peg currency.
pub mod Laws
use trustee_bank.Prelude.{Bool, not, Option, none, some, if◌then◌else◌}
use trustee_bank.Prelude.Int.{ℤ, pos, ◌*ℤ◌, quot, rem, ltb_ℤ, eqb_ℤ}
use trustee_bank.Prelude.Text.{same_text, to_upper_case}
use trustee_bank.Money.{Money, CurrencyCode, money}
use trustee_bank.Result.{Result, ok, err, Error, throw_if, ◌>>=◌, ◌>>◌}

pub record Peg : Type 0 where
  pub peg_currency : CurrencyCode
  pub denomination_minor : ℤ

unfoldable pub make_peg : CurrencyCode → ℤ → Result Peg
make_peg peg_currency denomination_minor = do
  throw_if (not (ltb_ℤ (pos 0) denomination_minor)) Error.peg_denomination
  ok (record { peg_currency = to_upper_case peg_currency; denomination_minor = denomination_minor })

unfoldable pub backing_for_units : ℤ → Peg → Result Money
backing_for_units units peg = do
  throw_if (ltb_ℤ units (pos 0)) Error.negative_units
  ok (money (units *ℤ peg.denomination_minor) peg.peg_currency)

unfoldable pub units_for_backing : Money → Peg → Result (Option ℤ)
units_for_backing backing peg = do
  throw_if (not (same_text backing.currency peg.peg_currency)) Error.peg_currency
  ok (
      if eqb_ℤ (rem backing.minor peg.denomination_minor) (pos 0)
      then some (quot backing.minor peg.denomination_minor)
      else none)
