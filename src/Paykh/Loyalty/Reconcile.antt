-- ===== src/Paykh/Loyalty/Reconcile.antt =====
-- `reconcile`, `get` and `listLiabilities` of loyalty.service.ts: the ledger against the chain.
use trustee_bank.Prelude.{
  ℕ, String, Bool, not, Option, none, some, if◌then◌else◌, is_present, or_default,
}
use trustee_bank.Prelude.Int.{ℤ, ltb_ℤ, eqb_ℤ}
use trustee_bank.Money.{CurrencyCode}
use trustee_bank.Ledger.LedgerAccountCode.{liability_paykh_loyalty_stablecoin}
use trustee_bank.Store.Table.{Table, find_unique}
use trustee_bank.Store.PaykhRows.{PaykhProgramFund, PaykhLoyaltyLiability}
use trustee_bank.Store.Db.{PaykhEvent}
use trustee_bank.Store.Action.{
  Action, pure, reads, asks, lift, writes, publish_to_paykh, ◌>>=◌, ◌>>◌,
}
use trustee_bank.ReserveLedger.{account_balance}
use trustee_bank.Paykh.Loyalty.Chain.{Gateway, read_supply}
use trustee_bank.Paykh.Loyalty.{require, patch_liability}

abbrev pub drifts : Option ℤ → ℤ → Bool
drifts none outstanding = Bool.false
drifts (some supply) outstanding = not (eqb_ℤ supply outstanding)

abbrev pub drift_status : Bool → String
drift_status drift = if drift then "DRIFT" else "OK"

abbrev pub reconciled : ℤ → String → ℕ → PaykhLoyaltyLiability → PaykhLoyaltyLiability
reconciled supply status now l = record l {
  on_chain_supply_minor = supply;
  reconciliation_status = status;
  last_reconciled_at = some now;
}

pub record ReserveProof : Type 0 where
  pub liability_id : String
  pub currency : CurrencyCode
  pub ledger_outstanding_minor : ℤ
  pub counter_outstanding_minor : ℤ
  pub on_chain_supply_minor : Option ℤ
  pub on_chain_verified : Bool
  pub safeguarded_backing_minor : Option ℤ
  pub fully_backed : Option Bool
  pub reconciliation_status : String
  pub as_of : ℕ

abbrev pub map_option : {A B : Type 0} → (A → B) → Option A → Option B
map_option f none = none
map_option f (some a) = some (f a)

unfoldable pub reconcile : Gateway → String → Action ReserveProof
reconcile gateway id = do
  l ← require id
  fund ← reads (λ db. find_unique l.program_fund_id db.program_funds)
  entries ← reads (λ db. db.ledger_entries)
  outstanding ←
      lift (account_balance entries l.tenant_id liability_paykh_loyalty_stablecoin l.peg_currency)
  supply ← lift (read_supply gateway l)
  let drift = drifts supply outstanding.minor
  let status = drift_status drift
  now ← asks (λ env. env.now)
  writes (patch_liability id (reconciled (or_default supply outstanding.minor) status now))
  publish_to_paykh (
      if drift
      then PaykhEvent.loyalty_reserve_drift id outstanding.minor supply
      else PaykhEvent.loyalty_reconciled id outstanding.minor supply)
  pure (record {
    liability_id = id;
    currency = l.peg_currency;
    ledger_outstanding_minor = outstanding.minor;
    counter_outstanding_minor = l.outstanding_minor;
    on_chain_supply_minor = supply;
    on_chain_verified = is_present supply;
    safeguarded_backing_minor = map_option (λ (f : PaykhProgramFund). f.funded_minor) fund;
    fully_backed =
        map_option (λ (f : PaykhProgramFund). not (ltb_ℤ f.funded_minor l.outstanding_minor)) fund;
    reconciliation_status = status;
    as_of = now;
  })

-- The views of `serialize`: the rows with their identifiers.
unfoldable pub get : String → Action (String × PaykhLoyaltyLiability)
get id = do l ← require id; pure (id, l)

-- The latest first, as the table keeps them.
unfoldable pub list_liabilities : Action (Table PaykhLoyaltyLiability)
list_liabilities = reads (λ db. db.loyalty_liabilities)
