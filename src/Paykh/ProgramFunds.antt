-- ===== src/Paykh/ProgramFunds.antt =====
-- program-funds.service.ts: safeguarded funding, and reservations of it.
use Prim.Native.String.{◌++◌ as concat}
use text.Mathlib.Text.{◌==◌ as str_eq}
use trustee_bank.Prelude.{String, Bool, not, ◌||◌, ◌&&◌, none, ◌∷◌, if◌then◌else◌, is_present}
use trustee_bank.Prelude.Int.{ℤ, pos, ◌+ℤ◌, ◌-ℤ◌, ltb_ℤ, eqb_ℤ}
use trustee_bank.Money.{Money, CurrencyCode, money}
use trustee_bank.FundClassification.{FundClassification, backing_policy_for}
use trustee_bank.Result.{
  not_found, bad_request, unique_violation, Subject, amount_not_positive, insufficient_funding,
  insufficient_reserved,
}
use trustee_bank.Ledger.Entries.{paykh_program_funding_entry}
use trustee_bank.Store.Table.{Table, find_unique, update, exists_row}
use trustee_bank.Store.PaykhRows.{PaykhProgramFund}
use trustee_bank.Store.Db.{PaykhEvent}
use trustee_bank.Store.Action.{
  Action, pure, reads, lift, or_throw, throw_when, writes, record_audit, publish_to_paykh, ◌>>=◌,
  ◌>>◌,
}
use trustee_bank.ReserveLedger.{post}
use trustee_bank.Paykh.{audit_row, references_of}

pub record CreateProgramFund : Type 0 where
  pub tenant_id : String
  pub paykh_program_id : String
  pub classification : FundClassification
  pub currency : CurrencyCode
  pub reserve_account_id : String
  pub actor : String

-- `require`
abbrev pub require : String → Action PaykhProgramFund
require id = do
  found ← reads (λ db. find_unique id db.program_funds)
  or_throw found (not_found Subject.program_fund)

abbrev pub patch : String → (PaykhProgramFund → PaykhProgramFund) → Action (Unit {0})
patch id f = writes λ db. record db { program_funds = update id f db.program_funds }

-- The unique columns of a new row: `id`, and the tenant with its program.
abbrev pub is_taken : String → CreateProgramFund → Table PaykhProgramFund → Bool
is_taken id input table =
    exists_row
      (λ f. str_eq f.tenant_id input.tenant_id && str_eq f.paykh_program_id input.paykh_program_id)
      table
    || is_present (find_unique id table)

abbrev pub new_fund : CreateProgramFund → PaykhProgramFund
new_fund input = record {
  tenant_id = input.tenant_id;
  paykh_program_id = input.paykh_program_id;
  classification = input.classification;
  currency = input.currency;
  reserve_account_id = input.reserve_account_id;
  funded_minor = pos 0;
  reserved_minor = pos 0;
  status = "ACTIVE";
}

unfoldable pub create : String → CreateProgramFund → Action (String × (FundClassification × String))
create id input = do
  taken ← reads (λ db. is_taken id input db.program_funds)
  throw_when taken unique_violation
  writes λ db. record db { program_funds = (id, new_fund input) ∷ db.program_funds }
  record_audit (audit_row input.actor "paykh.program_fund.created" "PAYKH_PROGRAM_FUND" id none)
  pure (id, (input.classification, "ACTIVE"))

abbrev pub funded_by : ℤ → PaykhProgramFund → PaykhProgramFund
funded_by minor f = record f { funded_minor = f.funded_minor +ℤ minor }

abbrev pub reserved_by : ℤ → PaykhProgramFund → PaykhProgramFund
reserved_by minor f = record f { reserved_minor = f.reserved_minor +ℤ minor }

abbrev pub released_by : ℤ → PaykhProgramFund → PaykhProgramFund
released_by minor f = record f { reserved_minor = f.reserved_minor -ℤ minor }

-- The entry of a funding whose class of funds requires backing.
unfoldable pub book_funding : String → PaykhProgramFund → Money → String → Action (Unit {0})
book_funding id f amount actor = do
  entry ← lift (
      paykh_program_funding_entry amount
        (references_of (concat "paykh-fund:" id) f.tenant_id f.paykh_program_id actor))
  post entry

unfoldable pub fund : String → ℤ → String → Action (String × ℤ)
unfolding book_funding
fund id amount_minor actor = do
  f ← require id
  let amount = money amount_minor f.currency
  throw_when (not (ltb_ℤ (pos 0) amount.minor)) (bad_request amount_not_positive)
  (if (backing_policy_for f.classification).fiat_backing_required
      then book_funding id f amount actor
      else pure tt)
  patch id (funded_by amount.minor)
  publish_to_paykh (PaykhEvent.program_fund_cleared id (f.funded_minor +ℤ amount.minor))
  pure (id, f.funded_minor +ℤ amount.minor)

unfoldable pub reserve : String → ℤ → String → Action (String × (ℤ × ℤ))
reserve id amount actor = do
  f ← require id
  let available = f.funded_minor -ℤ f.reserved_minor
  throw_when (ltb_ℤ available amount) (bad_request insufficient_funding)
  patch id (reserved_by amount)
  record_audit (audit_row actor "paykh.program_fund.reserved" "PAYKH_PROGRAM_FUND" id none)
  let reserved = f.reserved_minor +ℤ amount
  let remaining = f.funded_minor -ℤ reserved
  (if eqb_ℤ remaining (pos 0)
      then publish_to_paykh (PaykhEvent.program_fund_exhausted id)
      else pure tt)
  pure (id, (reserved, remaining))

unfoldable pub release : String → ℤ → String → Action (String × ℤ)
release id amount actor = do
  f ← require id
  throw_when (ltb_ℤ f.reserved_minor amount) (bad_request insufficient_reserved)
  patch id (released_by amount)
  record_audit (audit_row actor "paykh.program_fund.released" "PAYKH_PROGRAM_FUND" id none)
  pure (id, f.reserved_minor -ℤ amount)

-- The view of `get`: the row with its identifier.
unfoldable pub get : String → Action (String × PaykhProgramFund)
get id = do f ← require id; pure (id, f)

pub record FundBalance : Type 0 where
  pub id : String
  pub classification : FundClassification
  pub currency : CurrencyCode
  pub funded_minor : ℤ
  pub reserved_minor : ℤ
  pub available_minor : ℤ

unfoldable pub balance : String → Action FundBalance
balance id = do
  f ← require id
  pure (record {
    id = id;
    classification = f.classification;
    currency = f.currency;
    funded_minor = f.funded_minor;
    reserved_minor = f.reserved_minor;
    available_minor = f.funded_minor -ℤ f.reserved_minor;
  })
