-- ===== src/Paykh/Loyalty/Amount.antt =====
-- `resolveAmount` of loyalty.service.ts.
use trustee_bank.Prelude.{Option, none, some}
use trustee_bank.Prelude.Int.{ℤ}
use trustee_bank.Money.{Money, money}
use trustee_bank.Peg.{make_peg, backing_for_units}
use trustee_bank.Result.{Result, ok, err, bad_request, amount_missing, ◌>>=◌}
use trustee_bank.Store.PaykhRows.{PaykhLoyaltyLiability}

-- From token units, or else from an amount in minor units.
unfoldable pub resolve_amount :
    PaykhLoyaltyLiability → Option ℤ → Option ℤ → Result (Money × Option ℤ)
resolve_amount l amount_minor (some units) = do
  peg ← make_peg l.peg_currency l.denomination_minor
  amount ← backing_for_units units peg
  ok (amount, some units)
resolve_amount l (some minor) none = ok (money minor l.peg_currency, none)
resolve_amount l none none = err (bad_request amount_missing)
