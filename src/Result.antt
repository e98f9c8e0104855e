-- ===== src/Result.antt =====
-- What a call of the program throws, and the result of a call that may throw.
use trustee_bank.Prelude.{Option, none, some, ◌⊎◌, inl, inr, Bool, true, false, ◌≡◌, refl, List}

-- Why the mint guard blocks a mint: MintBlockReason of packages/reserves/src/mint-guard.ts.
pub data MintBlockReason : Type 0 where
  insufficient_capacity reserve_data_stale bank_connectivity_unavailable : MintBlockReason
  reconciliation_unresolved compliance_hold asset_minting_suspended : MintBlockReason
  program_suspended account_restricted deposit_not_cleared approval_incomplete : MintBlockReason
  liability_feed_stale proof_of_reserve_expired mint_feature_disabled : MintBlockReason
  non_positive_amount currency_mismatch : MintBlockReason

-- The subject of a NotFoundException.
pub data Subject : Type 0 where
  program mint_authorization checker_user approval_record trustee_account deposit : Subject
  funding_instruction redemption payment_profile payment_order program_fund settlement : Subject
  loyalty_liability merchant adjustment_kind reserve_snapshot bank_connection attestation : Subject
  reconciliation_run : Subject

-- The check behind a BadRequestException.
pub data BadRequest : Type 0 where
  amount_not_positive wrong_status not_trustee_bank_user missing_approval : BadRequest
  authorization_expired amount_mismatch currency_mismatch feature_disabled : BadRequest
  insufficient_funding insufficient_reserved signature_rejected order_expired : BadRequest
  payment_mismatch not_fiat_backed amount_missing insufficient_outstanding payload_missing :
      BadRequest
  mint_blocked : List MintBlockReason → BadRequest

pub data Error : Type 0 where
  -- packages/domain
  currency_mismatch empty_sum peg_denomination negative_units peg_currency : Error
  -- packages/ledger
  invalid_posting unbalanced_journal unknown_account_prefix : Error
  -- packages/reserves
  ratio_currency negative_buffer : Error
  -- the exceptions of apps/trustee-api, and the database's refusal of a second row with one key or
  -- of a reference to no row
  not_found : Subject → Error
  bad_request : BadRequest → Error
  forbidden conflict unique_violation foreign_key_violation feature_off : Error
  -- an argument that the platform or the database client does not read, and a call of an outside
  -- system that fails
  unreadable_argument unanswered : Error

pub data Result {ℓ} (T : Type ℓ) : Type ℓ where
  ok : T → Result T
  err : Error → Result T

-- `if (b) throw e`
abbrev pub throw_if : Bool → Error → Result (Unit {0})
throw_if true e = err e
throw_if false e = ok tt

infixl 5 ◌>>=◌ ◌>>◌
-- What follows a call runs only where the call returned.
abbrev pub ◌>>=◌ {ℓ κ} : {S : Type ℓ} {T : Type κ} → Result S → (S → Result T) → Result T
err e >>= next = err e
ok s >>= next = next s

abbrev pub ◌>>◌ {ℓ} : {T : Type ℓ} → Result (Unit {0}) → Result T → Result T
checked >> next = checked >>= λ _. next

-- A successful bind, taken apart.
pub >>=-eq-ok {ℓ κ} :
    {S : Type ℓ} {T : Type κ} (call : Result S) (next : S → Result T) {t : T}
    → (call >>= next) ≡ ok t
    → (s : S) × (call ≡ ok s) × (next s ≡ ok t)
>>=-eq-ok (err e) next h = cc
>>=-eq-ok (ok s) next h = (s, refl, h)

-- The cases of a lookup and of a call.
pub Option-cases {ℓ} : {A : Type ℓ} (m : Option A) → ((a : A) × (m ≡ some a)) ⊎ (m ≡ none)
Option-cases none = inr refl
Option-cases (some a) = inl (a, refl)

pub Result-cases {ℓ} : {A : Type ℓ} (m : Result A) → ((a : A) × (m ≡ ok a)) ⊎ (e : _) × (m ≡ err e)
Result-cases (ok a) = inl (a, refl)
Result-cases (err e) = inr (e, refl)
