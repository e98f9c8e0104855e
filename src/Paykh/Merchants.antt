-- ===== src/Paykh/Merchants.antt =====
-- merchants.service.ts: the mirror of the merchants that PayKH registers. The row's identifier is an
-- argument of a registration, and is used where the tenant's code is new.
use text.Mathlib.Text.{◌==◌ as str_eq}
use trustee_bank.Prelude.{
  ℕ, String, Bool, not, ◌&&◌, Option, none, some, [], ◌∷◌, if◌then◌else◌, or_default,
}
use trustee_bank.Result.{not_found, bad_request, Subject, wrong_status}
use trustee_bank.Store.Table.{Table, find_unique, update}
use trustee_bank.Store.PaykhRows.{PaykhMerchant}
use trustee_bank.Store.Action.{
  Action, pure, reads, asks, or_throw, throw_when, writes, record_audit, ◌>>=◌, ◌>>◌,
}
use trustee_bank.Paykh.{audit_row}

pub record RegisterMerchantInput : Type 0 where
  pub tenant_id : String
  pub merchant_code : String
  pub legal_name : String
  pub country : Option String
  pub paykh_merchant_ref : Option String
  pub kyc_status : Option String
  pub status : Option String
  pub risk_level : Option String
  pub actor : String

-- The key `tenantId_merchantCode`.
abbrev pub has_code : String → String → PaykhMerchant → Bool
has_code tenant_id merchant_code m =
    str_eq m.tenant_id tenant_id && str_eq m.merchant_code merchant_code

unfoldable pub id_of_code : String → String → Table PaykhMerchant → Option String
id_of_code tenant_id merchant_code [] = none
id_of_code tenant_id merchant_code ((id, m) ∷ t) =
    if has_code tenant_id merchant_code m then some id else id_of_code tenant_id merchant_code t

-- The columns of `data`.
abbrev pub reported : RegisterMerchantInput → ℕ → PaykhMerchant → PaykhMerchant
reported input now m = record m {
  legal_name = input.legal_name;
  country = input.country;
  paykh_merchant_ref = input.paykh_merchant_ref;
  kyc_status = or_default input.kyc_status "PENDING";
  status = or_default input.status "ACTIVE";
  risk_level = or_default input.risk_level "LOW";
  last_reported_at = now;
}

abbrev pub new_merchant : RegisterMerchantInput → ℕ → PaykhMerchant
new_merchant input now = record {
  tenant_id = input.tenant_id;
  merchant_code = input.merchant_code;
  paykh_merchant_ref = input.paykh_merchant_ref;
  legal_name = input.legal_name;
  country = input.country;
  kyc_status = or_default input.kyc_status "PENDING";
  status = or_default input.status "ACTIVE";
  risk_level = or_default input.risk_level "LOW";
  source = "PAYKH";
  last_reported_at = now;
}

-- `upsert`: the row with the key is updated, or a new one created.
unfoldable pub upsert :
    String → RegisterMerchantInput → ℕ → Table PaykhMerchant → String × Table PaykhMerchant
unfolding id_of_code
upsert new_id input now table = elim (id_of_code input.tenant_id input.merchant_code table) [
  | some id ↦ (id, update id (reported input now) table)
  | none ↦ (new_id, (new_id, new_merchant input now) ∷ table)
]

-- `require`
abbrev require : String → Action PaykhMerchant
require id = do
  found ← reads (λ db. find_unique id db.merchants)
  or_throw found (not_found Subject.merchant)

-- The view of `serialize`: the row with its identifier.
unfoldable pub register : String → RegisterMerchantInput → Action (String × PaykhMerchant)
register new_id input = do
  now ← asks (λ env. env.now)
  written ← reads (λ db. upsert new_id input now db.merchants)
  writes λ db. record db { merchants = written.1 }
  record_audit (audit_row input.actor "paykh.merchant.registered" "PAYKH_MERCHANT" written.0 none)
  merchant ← require written.0
  pure (written.0, merchant)

pub record StatusReport : Type 0 where
  pub kyc_status : Option String
  pub status : Option String
  pub risk_level : Option String
  pub actor : String

abbrev pub restated : StatusReport → ℕ → PaykhMerchant → PaykhMerchant
restated input now m = record m {
  kyc_status = or_default input.kyc_status m.kyc_status;
  status = or_default input.status m.status;
  risk_level = or_default input.risk_level m.risk_level;
  last_reported_at = now;
}

unfoldable pub update_status : String → StatusReport → Action (String × PaykhMerchant)
update_status id input = do
  m ← require id
  now ← asks (λ env. env.now)
  writes λ db. record db { merchants = update id (restated input now) db.merchants }
  record_audit (audit_row input.actor "paykh.merchant.status_updated" "PAYKH_MERCHANT" id none)
  pure (id, restated input now m)

unfoldable pub get : String → Action (String × PaykhMerchant)
get id = do m ← require id; pure (id, m)

unfoldable pub of_tenant : String → Table PaykhMerchant → Table PaykhMerchant
of_tenant tenant_id [] = []
of_tenant tenant_id ((id, m) ∷ t) =
    let rest = of_tenant tenant_id t in
    if str_eq m.tenant_id tenant_id then (id, m) ∷ rest else rest

unfoldable pub list_by_tenant : String → Action (Table PaykhMerchant)
unfolding of_tenant
list_by_tenant tenant_id = reads (λ db. of_tenant tenant_id db.merchants)

-- A merchant that settlements and redemptions may name.
unfoldable pub require_active : String → Action PaykhMerchant
require_active id = do
  m ← require id
  throw_when (not (str_eq m.status "ACTIVE")) (bad_request wrong_status)
  throw_when (not (str_eq m.kyc_status "VERIFIED")) (bad_request wrong_status)
  pure m
