-- ===== src/Paykh/Vault/Findings.antt =====
-- What a release leaves, and what a reconciliation compares.
use trustee_bank.Prelude.{◌≡◌, inl, inr, Bool-cases, List, sym, refl, String, false, some, arith}
use trustee_bank.Prelude.Int.{ℤ, pos, ◌≤ℤ◌, ◌<ℤ◌, ◌-ℤ◌, ltb_ℤ, eqb_ℤ, int_laws}
use trustee_bank.Money.{money}
use trustee_bank.Result.{ok}
use trustee_bank.Ledger.Accounts.{debit_positive, type_of_paykh_loyalty_stablecoin}
use trustee_bank.Store.Table.{find_unique, total_of, find_unique-update_self}
use trustee_bank.Store.PaykhRows.{PaykhProgramFund, PaykhLoyaltyLiability}
use trustee_bank.Store.Db.{Db}
use trustee_bank.Store.Action.{Env}
use trustee_bank.ReserveLedger.Balance.{account_balance-balance}
use trustee_bank.ReserveLedger.Tracking.{Tracks}
use trustee_bank.Paykh.ProgramFunds.{release, released_by}
use trustee_bank.Paykh.Loyalty.Chain.{Gateway, read_supply}
use trustee_bank.Paykh.Loyalty.Reconcile.{reconcile, ReserveProof}
use trustee_bank.Paykh.Vault.{vault}
use trustee_bank.Paykh.Vault.History.{Call, Answers, AllKeepReserved, after_all, stablecoins-Booked}
use trustee_bank.Paykh.Vault.Booked.{Booked, outstanding}

-- Where a fund reserves exactly what is outstanding of its stablecoin, the release of any positive part
-- of it succeeds, and leaves the fund with less reserved than is outstanding.
pub release_uncovers :
    (id lid : String) (amount : ℤ) (actor : String) (env : Env) (db : Db) {f : PaykhProgramFund}
    {l : PaykhLoyaltyLiability}
    → find_unique lid db.loyalty_liabilities ≡ some l
    → find_unique id db.program_funds ≡ some f
    → l.program_fund_id ≡ id
    → f.reserved_minor ≡ l.outstanding_minor
    → pos 0 <ℤ amount
    → amount ≤ℤ f.reserved_minor
    → ((release id amount actor env db).0 ≡ ok (id, f.reserved_minor -ℤ amount))
      × (find_unique lid (release id amount actor env db).1.loyalty_liabilities ≡ some l)
      × ((g : PaykhProgramFund) × (find_unique l.program_fund_id
              (release id amount actor env db).1.program_funds
            ≡ some g)
          × (g.reserved_minor <ℤ l.outstanding_minor))
unfolding release
release_uncovers id lid amount actor env db {f} {l} known found own all_out positive within =
    let within' : ltb_ℤ f.reserved_minor amount ≡ false = ground arith in
    rw (found, within')
      (
        refl,
        known,
        (
          released_by amount f,
          rw own (find_unique-update_self id (released_by amount) db.program_funds f found),
          rw (sym all_out) (omega int_laws),
        ),
      )

differ : (a b : ℤ) → (b ≡ a → ⊥) → eqb_ℤ a b ≡ false
differ a b h = elim (Bool-cases (eqb_ℤ a b)) [
  | inl same ↦ absurd (h (ground arith))
  | inr other ↦ other
]

-- A history of calls that frees no reservation, over a gateway that answers each request, starts where
-- the PAYKH_LOYALTY_STABLECOIN balance of a tenant and a currency is the sum of what is outstanding of
-- the tenant's stablecoins pegged to the currency. Afterwards a reconciliation of one of them, of which
-- the chain holds exactly what is outstanding of it, reports a drift if that is not the sum of what is
-- outstanding of all.
pub reconcile_false_drift :
    (gateway : Gateway) (calls : List (Call × Env)) (id : String) (env : Env) (db : Db)
    {l : PaykhLoyaltyLiability}
    → Answers gateway
    → AllKeepReserved calls
    → Booked l.tenant_id l.peg_currency (vault db)
    → find_unique id (after_all gateway calls db).loyalty_liabilities ≡ some l
    → read_supply gateway l ≡ ok (some l.outstanding_minor)
    → (total_of
            (outstanding l.tenant_id l.peg_currency)
            (after_all gateway calls db).loyalty_liabilities
          ≡ l.outstanding_minor
        → ⊥)
    → (proof : ReserveProof) × ((reconcile gateway id env (after_all gateway calls db)).0
        ≡ ok proof)
      × (proof.on_chain_supply_minor ≡ some proof.counter_outstanding_minor)
      × (proof.reconciliation_status ≡ "DRIFT")
unfolding reconcile Tracks money debit_positive
reconcile_false_drift gateway calls id env db {l} answers keep start known read apart =
    let booked =
      stablecoins-Booked gateway calls db l.tenant_id l.peg_currency answers keep start in
    let after = after_all gateway calls db in
    let drift =
      differ l.outstanding_minor
        (total_of (outstanding l.tenant_id l.peg_currency) after.loyalty_liabilities) apart in
    rw
      (
        known,
        account_balance-balance after.ledger_entries l.tenant_id _ l.peg_currency
            type_of_paykh_loyalty_stablecoin,
        booked,
        read,
        drift,
      )
      (_, refl, refl, refl)
