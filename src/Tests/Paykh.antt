-- ===== src/Tests/Paykh.antt =====
-- Witnesses for the services of PayKH.
use trustee_bank.Prelude.{◌≡◌, ◌≢◌, refl, String, true, false, none, some, List, [], ◌∷◌, arith}
use trustee_bank.Prelude.Int.{ℤ, pos, ◌≤ℤ◌, ◌<ℤ◌, ◌-ℤ◌, ◌+ℤ◌, int_laws}
use trustee_bank.Prelude.Text.{same_text, to_upper_case, upper_code}
use trustee_bank.FundClassification.{FundClassification}
use trustee_bank.Result.{ok}
use trustee_bank.Store.Table.{find_unique, update, total_of}
use trustee_bank.Store.Every.{Every, put-Every}
use trustee_bank.Store.PaykhRows.{
  PaykhProgramFund, PaykhLoyaltyLiability, PaykhMerchant, PaykhPaymentProfile, PaymentProfileStatus,
  PaykhPaymentOrder, PaymentOrderStatus, PaykhSettlement, SettlementStatus,
}
use trustee_bank.Store.Db.{Db, AuditLog}
use trustee_bank.Store.Action.{Env}
use trustee_bank.ReserveLedger.{find_postings, post_entry}
use trustee_bank.ReserveLedger.Balance.{net}
use trustee_bank.ReserveLedger.Tracking.{Tracks}
use trustee_bank.Money
use trustee_bank.Money.{money}
use trustee_bank.Store.Query.{is_enabled}
use trustee_bank.Ledger.Accounts.{ledger_account_type_of}
use trustee_bank.Ledger.Journal.{build_journal_entry, add_postings, assert_posting_well_formed}
use trustee_bank.Ledger.Entries.{
  transfer_entry, paykh_loyalty_issuance_entry, paykh_loyalty_redemption_entry,
  paykh_payment_collection_entry, paykh_merchant_settlement_entry,
}
use trustee_bank.Paykh.Merchants.{require_active}
use trustee_bank.Paykh.Loyalty.Amount.{resolve_amount}
use trustee_bank.Paykh.ProgramFunds.{reserve, release}
use trustee_bank.Paykh.Loyalty.{issue, redeem}
use trustee_bank.Paykh.Loyalty.Chain.{
  Gateway, Execution, Operation, authorize_on_chain, read_supply,
}
use trustee_bank.Paykh.Loyalty.Reconcile.{ReserveProof, reconcile}
use trustee_bank.Paykh.PaymentOrders.{
  CheckPaymentInput, check_payment, settle_payment, compare_payment, take_payment, refuse_duplicate,
  order_of, is_paid_by,
}
use trustee_bank.Paykh.PaymentOrders.Single.{PaysOnce, Single}
use trustee_bank.Paykh.PaymentOrders.History as Orders
use trustee_bank.Store.Keyed.{Keyed}
use trustee_bank.Paykh.Settlements.{create, approve, confirm, maker_of}
use trustee_bank.Paykh.Settlements.FourEyes as Eyes
use trustee_bank.Paykh.Settlements.FourEyes.{Separate}
use trustee_bank.Paykh.Vault.{vault}
use trustee_bank.Paykh.Vault.Covered.{FullyBacked, IsFunded, IsCovered}
use trustee_bank.Paykh.Vault.Booked.{Booked, outstanding}
use trustee_bank.Paykh.Vault.History as Vault
use trustee_bank.Paykh.Vault.Findings.{release_uncovers, reconcile_false_drift}
use trustee_bank.Tests.Sample.{usd, env, db as sample}

abbrev execution : Execution
execution = record {
  simulated = false;
  accepted = true;
  paychain_reference = some "pc1";
  on_chain_tx_hash = some "0x5";
}

abbrev gateway : Gateway
gateway = record {
  sign = λ artifact. record { key_id = "k1"; value = artifact.reference };
  request_issue = λ req. ok execution;
  request_burn = λ req. ok execution;
  read_on_chain_supply = λ code issuer decimals. ok (some (pos 0));
}

abbrev fund : ℤ → PaykhProgramFund
fund reserved = record {
  tenant_id = "t1";
  paykh_program_id = "g1";
  classification = FundClassification.backed_loyalty_stablecoin;
  currency = usd;
  reserve_account_id = "r1";
  funded_minor = pos 900;
  reserved_minor = reserved;
  status = "ACTIVE";
}

abbrev liability : ℤ → PaykhLoyaltyLiability
liability out = record {
  tenant_id = "t1";
  paykh_program_id = "g1";
  program_fund_id = "fund1";
  classification = FundClassification.backed_loyalty_stablecoin;
  currency = usd;
  peg_currency = usd;
  denomination_minor = pos 1;
  decimals = 2;
  stellar_asset_code = some "LOY";
  stellar_issuer = some "G1";
  stellar_distributor = some "G2";
  outstanding_minor = out;
  issued_total_minor = out;
  redeemed_total_minor = pos 0;
  on_chain_supply_minor = pos 0;
  reconciliation_status = "PENDING";
  last_reconciled_at = none;
  status = "ACTIVE";
}

abbrev merchant : PaykhMerchant
merchant = record {
  tenant_id = "t1";
  merchant_code = "m1";
  paykh_merchant_ref = none;
  legal_name = "M";
  country = none;
  kyc_status = "VERIFIED";
  status = "ACTIVE";
  risk_level = "LOW";
  source = "PAYKH";
  last_reported_at = 1;
}

abbrev db_with : ℤ → Db
db_with out = record sample {
  program_funds = ("fund1", fund out) ∷ [];
  loyalty_liabilities = ("l1", liability out) ∷ [];
  merchants = ("m1", merchant) ∷ [];
  feature_flags = ("paykh.loyalty.enabled", true) ∷ [];
  ledger_entries = [];
}

abbrev db : Db
db = db_with (pos 0)

abbrev calls : List (Vault.Call × Env)
calls =
    (
      Vault.Call.issuing "i1" "u1" (record {
        liability_id = "l1";
        customer_ref = "c1";
        amount_minor = some (pos 400);
        units = none;
        actor = "ops";
      }),
      env,
    )
    ∷ (
      Vault.Call.redeeming "x1" "u2" (record {
        liability_id = "l1";
        merchant_id = "m1";
        customer_ref = "c1";
        amount_minor = some (pos 100);
        units = none;
        actor = "ops";
      }),
      env,
    )
    ∷ []

fund_known : (out : ℤ) → find_unique "fund1" (db_with out).program_funds ≡ some (fund out)
unfolding find_unique
fund_known out = refl

liability_known :
    (out : ℤ) → find_unique "l1" (db_with out).loyalty_liabilities ≡ some (liability out)
unfolding find_unique
liability_known out = refl

no_row {ℓ κ} : {V : Type ℓ} (P : V → Type κ) → Every P []
unfolding find_unique
no_row P k v h = cc

db-FullyBacked : FullyBacked (vault db)
unfolding find_unique
db-FullyBacked = record {
  funds_within =
      put-Every IsFunded "fund1" (fund (pos 0)) []
        (record { not_negative = ground arith; within = ground arith }) (no_row IsFunded);
  liabilities_covered =
      put-Every (IsCovered db.program_funds) "l1" (liability (pos 0)) []
        (record {
          fund = fund (pos 0);
          stored = fund_known (pos 0);
          not_negative = ground arith;
          covered = ground arith;
          settled = omega int_laws;
        })
        (no_row (IsCovered db.program_funds));
}

db-Booked : Booked "t1" usd (vault db)
unfolding Tracks find_postings net total_of ◌+ℤ◌ same_text to_upper_case upper_code
db-Booked = refl

answering : Vault.Answers gateway
answering Operation.issue req = (execution, refl)
answering Operation.burn req = (execution, refl)

stablecoins-Booked_example : Booked "t1" usd (vault (Vault.after_all gateway calls db))
stablecoins-Booked_example =
    Vault.stablecoins-Booked gateway calls db "t1" usd answering (tt, (tt, tt)) db-Booked

abbrev reservation_calls : List (Vault.Call × Env)
reservation_calls = (Vault.Call.reserving "fund1" (pos 60) "ops", env) ∷ calls

liability_after :
    find_unique "l1" (Vault.after_all gateway reservation_calls db).loyalty_liabilities
    ≡ some (record (liability (pos 300)) {
      issued_total_minor = pos 400;
      redeemed_total_minor = pos 100;
    })
unfolding Vault.after_all Vault.after issue redeem authorize_on_chain reserve resolve_amount
    is_enabled find_unique update post_entry require_active paykh_loyalty_issuance_entry
    paykh_loyalty_redemption_entry transfer_entry build_journal_entry add_postings
    assert_posting_well_formed same_text to_upper_case upper_code ◌+ℤ◌ ◌-ℤ◌ money Money.zero
    Money.add Money.subtract Money.is_zero Money.is_negative Money.is_positive
    ledger_account_type_of
liability_after = refl

abbrev uncovered_db : Db
uncovered_db = db_with (pos 400)

release_uncovers_example :
    ((release "fund1" (pos 400) "ops" env uncovered_db).0 ≡ ok ("fund1", pos 400 -ℤ pos 400))
    × (find_unique "l1" (release "fund1" (pos 400) "ops" env uncovered_db).1.loyalty_liabilities
        ≡ some (liability (pos 400)))
    × ((g : PaykhProgramFund) × (find_unique "fund1"
            (release "fund1" (pos 400) "ops" env uncovered_db).1.program_funds
          ≡ some g)
        × (g.reserved_minor <ℤ pos 400))
release_uncovers_example =
    release_uncovers "fund1" "l1" (pos 400) "ops" env uncovered_db (liability_known (pos 400))
      (fund_known (pos 400)) refl refl (ground arith) (ground arith)

-- A second stablecoin of the tenant.
abbrev two_db : Db
two_db = record db {
  loyalty_liabilities = ("l1", liability (pos 0)) ∷ ("l2", liability (pos 0)) ∷ [];
}

two-Booked : Booked "t1" usd (vault two_db)
unfolding Tracks find_postings net total_of ◌+ℤ◌ same_text to_upper_case upper_code
two-Booked = refl

second_after :
    find_unique "l2" (Vault.after_all gateway calls two_db).loyalty_liabilities
    ≡ some (liability (pos 0))
unfolding Vault.after_all Vault.after issue redeem authorize_on_chain reserve resolve_amount
    is_enabled find_unique update post_entry require_active paykh_loyalty_issuance_entry
    paykh_loyalty_redemption_entry transfer_entry build_journal_entry add_postings
    assert_posting_well_formed same_text to_upper_case upper_code ◌+ℤ◌ ◌-ℤ◌ money Money.zero
    Money.add Money.subtract Money.is_zero Money.is_negative Money.is_positive
    ledger_account_type_of
second_after = refl

total_after :
    total_of (outstanding "t1" usd) (Vault.after_all gateway calls two_db).loyalty_liabilities
    ≡ pos 300
unfolding Vault.after_all Vault.after issue redeem authorize_on_chain reserve resolve_amount
    is_enabled find_unique update post_entry require_active paykh_loyalty_issuance_entry
    paykh_loyalty_redemption_entry transfer_entry build_journal_entry add_postings
    assert_posting_well_formed same_text to_upper_case upper_code ◌+ℤ◌ ◌-ℤ◌ money Money.zero
    Money.add Money.subtract Money.is_zero Money.is_negative Money.is_positive
    ledger_account_type_of total_of
total_after = refl

supply_read : read_supply gateway (liability (pos 0)) ≡ ok (some (pos 0))
unfolding read_supply
supply_read = refl

reconcile_false_drift_example :
    (proof : ReserveProof) × ((reconcile gateway "l2" env (Vault.after_all gateway calls two_db)).0
      ≡ ok proof)
    × (proof.on_chain_supply_minor ≡ some proof.counter_outstanding_minor)
    × (proof.reconciliation_status ≡ "DRIFT")
reconcile_false_drift_example =
    reconcile_false_drift gateway calls "l2" env two_db answering (tt, (tt, tt)) two-Booked
      second_after supply_read (λ h. cc (total_after, h))

stablecoins_backed_example :
    (f : PaykhProgramFund) × (find_unique "fund1"
        (Vault.after_all gateway reservation_calls db).program_funds
      ≡ some f)
    × (pos 0 ≤ℤ pos 300)
    × (pos 300 ≤ℤ f.reserved_minor)
    × (f.reserved_minor ≤ℤ f.funded_minor)
    × (pos 300 ≡ pos 400 -ℤ pos 100)
stablecoins_backed_example =
    Vault.stablecoins_backed gateway reservation_calls db "l1" _ (ground arith, (tt, (tt, tt)))
      db-FullyBacked liability_after

abbrev profile : PaykhPaymentProfile
profile = record {
  tenant_id = "t1";
  recipient_name = "M";
  recipient_account_masked = "***2";
  bank_name = "B";
  currency = usd;
  khqr_payload = "000201";
  status = PaymentProfileStatus.active;
  verified_at = some 1;
}

abbrev order : PaykhPaymentOrder
order = record {
  tenant_id = "t1";
  profile_id = "pr1";
  amount_minor = pos 250;
  currency = usd;
  payment_reference = "KHQR-1";
  khqr_string = none;
  status = PaymentOrderStatus.awaiting_payment;
  matched_bank_transaction_id = none;
  confirmed_at = none;
  expires_at = 2000000;
}

abbrev order_db : Db
order_db = record sample {
  payment_profiles = ("pr1", profile) ∷ [];
  payment_orders = ("o1", order) ∷ ("o2", order) ∷ [];
}

abbrev payment : CheckPaymentInput
payment = record {
  bank_transaction_id = "b9";
  amount_minor = pos 250;
  currency = usd;
  payment_reference = "KHQR-1";
  recipient_account_masked = "***2";
  reserve_account_id = "r1";
  actor = "ops";
}

abbrev order_calls : List (Orders.Call × Env)
order_calls =
    (Orders.Call.checking "o1" payment, env) ∷ (Orders.Call.checking "o2" payment, env) ∷ []

abbrev paid_order : PaykhPaymentOrder
paid_order = record order {
  status = PaymentOrderStatus.confirmed;
  matched_bank_transaction_id = some "b9";
  confirmed_at = some 1000000;
}

order_paid :
    find_unique "o1" (Orders.after_all order_calls order_db).payment_orders ≡ some paid_order
unfolding Orders.after_all Orders.after check_payment settle_payment compare_payment take_payment
    refuse_duplicate order_of find_unique update post_entry paykh_payment_collection_entry
    transfer_entry build_journal_entry add_postings assert_posting_well_formed same_text
    to_upper_case upper_code ◌+ℤ◌ ◌-ℤ◌ money Money.zero Money.add Money.subtract Money.is_zero
    Money.is_negative Money.is_positive ledger_account_type_of
order_paid = refl

two_keys : Keyed order_db.payment_orders
unfolding find_unique
two_keys = (refl, (refl, tt))

abbrev Unpaid : PaykhPaymentOrder → Type 0
Unpaid o = o.matched_bank_transaction_id ≡ none

all-Unpaid : Every Unpaid order_db.payment_orders
all-Unpaid =
    put-Every Unpaid "o1" order (("o2", order) ∷ []) refl
      (put-Every Unpaid "o2" order [] refl (no_row Unpaid))

not_paid :
    (transaction : String) (o : PaykhPaymentOrder) → Unpaid o → is_paid_by transaction o ≡ false
not_paid transaction o h = rw h refl

none_paid : Single order_db.payment_orders
none_paid transaction a b o p found_o found_p pays_o pays_p =
    cc (not_paid transaction o (all-Unpaid a o found_o), pays_o)

abbrev paid_id : String
paid_id = "o1"

orders-PaysOnce : PaysOnce order_db.payment_orders
orders-PaysOnce = record { keyed = two_keys; single = none_paid }

transaction-PaysOnce_example : paid_id ≡ paid_id
transaction-PaysOnce_example =
    Orders.transaction-PaysOnce order_calls order_db "b9" paid_id paid_id paid_order paid_order
      orders-PaysOnce order_paid order_paid refl refl

abbrev settlement_calls : List (Eyes.Call × Env)
settlement_calls =
    (
      Eyes.Call.creating "s1" (record {
        tenant_id = "t1";
        merchant_id = "m1";
        amount_minor = pos 80;
        currency = usd;
        actor = "maker";
      }),
      env,
    )
    ∷ (Eyes.Call.approving "s1" "checker", env)
    ∷ (Eyes.Call.confirming "s1" "ops", env)
    ∷ []

abbrev paid_settlement : PaykhSettlement
paid_settlement = record {
  tenant_id = "t1";
  merchant_id = "m1";
  amount_minor = pos 80;
  currency = usd;
  status = SettlementStatus.confirmed;
  approved_by_id = some "checker";
  submitted_at = none;
  confirmed_at = some 1000000;
}

settlement_paid :
    find_unique "s1" (Eyes.after_all settlement_calls db).settlements ≡ some paid_settlement
unfolding Eyes.after_all Eyes.after create approve confirm maker_of require_active find_unique
    update post_entry paykh_merchant_settlement_entry transfer_entry build_journal_entry
    add_postings assert_posting_well_formed same_text to_upper_case upper_code ◌+ℤ◌ ◌-ℤ◌ money
    Money.zero Money.add Money.subtract Money.is_zero Money.is_negative Money.is_positive
    ledger_account_type_of
settlement_paid = refl

db-Separate : Separate db.settlements db.audit_logs
unfolding find_unique
db-Separate id s h = cc

settlement_four_eyes_example :
    (maker : AuditLog) × (checker : String) × (maker_of "s1"
        (Eyes.after_all settlement_calls db).audit_logs
      ≡ some maker)
    × (some "checker" ≡ some checker)
    × (maker.actor ≢ checker)
settlement_four_eyes_example =
    Eyes.settlement_four_eyes settlement_calls db "s1" paid_settlement db-Separate settlement_paid
      refl
