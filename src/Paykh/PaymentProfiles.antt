-- ===== src/Paykh/PaymentProfiles.antt =====
-- payment-profiles.service.ts: the recipients of payments. Generated identifiers are arguments. The
-- test that the payload is not blank takes `trim` as a parameter.
use text.Mathlib.Text.{◌==◌ as str_eq}
use trustee_bank.Prelude.{
  ℕ, String, Bool, true, false, not, Option, none, some, [], ◌∷◌, if◌then◌else◌,
}
use trustee_bank.Money.{CurrencyCode}
use trustee_bank.Result.{not_found, bad_request, Subject, wrong_status, payload_missing}
use trustee_bank.Store.Table.{Table, find_unique, update}
use trustee_bank.Store.PaykhRows.{PaykhPaymentProfile, PaymentProfileStatus}
use trustee_bank.Store.Db.{PaykhEvent}
use trustee_bank.Store.Action.{
  Action, pure, reads, asks, or_throw, throw_when, writes, record_audit, publish_to_paykh, ◌>>=◌,
  ◌>>◌,
}
use trustee_bank.Paykh.{audit_row}

pub record SubmitPaymentProfile : Type 0 where
  pub tenant_id : String
  pub recipient_name : String
  pub recipient_account_masked : String
  pub bank_name : String
  pub currency : CurrencyCode
  pub khqr_payload : String
  pub actor : String

abbrev pub Reply : Type 0
Reply = String × PaymentProfileStatus

-- `require`
abbrev pub require : String → Action PaykhPaymentProfile
require id = do
  found ← reads (λ db. find_unique id db.payment_profiles)
  or_throw found (not_found Subject.payment_profile)

abbrev pub patch : String → (PaykhPaymentProfile → PaykhPaymentProfile) → Action (Unit {0})
patch id f = writes λ db. record db { payment_profiles = update id f db.payment_profiles }

abbrev pub audit : String → String → String → Option String → Action (Unit {0})
audit actor action id reason =
    record_audit (audit_row actor action "PAYKH_PAYMENT_PROFILE" id reason)

abbrev pub submitted_row : SubmitPaymentProfile → PaykhPaymentProfile
submitted_row input = record {
  tenant_id = input.tenant_id;
  recipient_name = input.recipient_name;
  recipient_account_masked = input.recipient_account_masked;
  bank_name = input.bank_name;
  currency = input.currency;
  khqr_payload = input.khqr_payload;
  status = PaymentProfileStatus.submitted;
  verified_at = none;
}

unfoldable pub submit : (String → String) → String → SubmitPaymentProfile → Action Reply
submit trim id input = do
  throw_when (str_eq (trim input.khqr_payload) "") (bad_request payload_missing)
  writes λ db. record db { payment_profiles = (id, submitted_row input) ∷ db.payment_profiles }
  audit input.actor "paykh.payment_profile.submitted" id none
  pure (id, PaymentProfileStatus.submitted)

abbrev pub is_verifiable : PaymentProfileStatus → Bool
is_verifiable PaymentProfileStatus.submitted = true
is_verifiable PaymentProfileStatus.verifying = true
is_verifiable _ = false

abbrev pub is_approved : PaymentProfileStatus → Bool
is_approved PaymentProfileStatus.approved = true
is_approved _ = false

abbrev pub verified : ℕ → PaykhPaymentProfile → PaykhPaymentProfile
verified now p = record p { status = PaymentProfileStatus.approved; verified_at = some now }

unfoldable pub verify : String → String → Action Reply
verify id actor = do
  p ← require id
  throw_when (not (is_verifiable p.status)) (bad_request wrong_status)
  now ← asks (λ env. env.now)
  patch id (verified now)
  audit actor "paykh.payment_profile.verified" id none
  publish_to_paykh (PaykhEvent.profile_verified id p.tenant_id)
  pure (id, PaymentProfileStatus.approved)

abbrev pub with_status : PaymentProfileStatus → PaykhPaymentProfile → PaykhPaymentProfile
with_status status p = record p { status = status }

unfoldable pub activate : String → String → Action Reply
activate id actor = do
  p ← require id
  throw_when (not (is_approved p.status)) (bad_request wrong_status)
  patch id (with_status PaymentProfileStatus.active)
  audit actor "paykh.payment_profile.activated" id none
  pure (id, PaymentProfileStatus.active)

unfoldable pub suspend : String → String → String → Action Reply
suspend id actor reason = do
  p ← require id
  patch id (with_status PaymentProfileStatus.suspended)
  audit actor "paykh.payment_profile.suspended" id (some reason)
  publish_to_paykh (PaykhEvent.profile_suspended id)
  pure (id, PaymentProfileStatus.suspended)

-- The view of `get`: the row with its identifier.
unfoldable pub get : String → Action (String × PaykhPaymentProfile)
get id = do p ← require id; pure (id, p)

unfoldable pub of_tenant : String → Table PaykhPaymentProfile → Table PaykhPaymentProfile
of_tenant tenant_id [] = []
of_tenant tenant_id ((id, p) ∷ t) =
    let rest = of_tenant tenant_id t in
    if str_eq p.tenant_id tenant_id then (id, p) ∷ rest else rest

unfoldable pub list_by_tenant : String → Action (Table PaykhPaymentProfile)
unfolding of_tenant
list_by_tenant tenant_id = reads (λ db. of_tenant tenant_id db.payment_profiles)
