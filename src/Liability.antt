-- ===== src/Liability.antt =====
-- apps/trustee-api/src/modules/liability/liability.service.ts: the feed of signed supply snapshots.
-- The registered public key and `verifyPayload` of packages/cryptography are parameters.
pub mod Sequence
use text.Mathlib.Text.{◌==◌ as str_eq}
use trustee_bank.Prelude.{ℕ, String, Bool, true, false, not, Option, none, some, ◌∷◌, is_absent}
use trustee_bank.Prelude.Int.{ℤ, ltb_ℤ}
use trustee_bank.Result.{bad_request, conflict, foreign_key_violation, signature_rejected}
use trustee_bank.Store.Table.{find_unique}
use trustee_bank.Store.Query.{latest, is_enabled}
use trustee_bank.Store.Rows.{Signature, SupplyReport, LiabilitySnapshot, Program}
use trustee_bank.Store.Db.{Db}
use trustee_bank.Store.Action.{Action, pure, throw, reads, throw_when, writes, ◌>>=◌, ◌>>◌}

pub record LiabilitySnapshotInput : Type 0 where
  pub program_id : String
  pub report : SupplyReport
  pub circulating_minor : ℤ
  pub sequence : ℤ
  pub snapshot_timestamp : ℕ
  pub signature : Option Signature

-- `orderBy: { sequence: 'desc' }`
abbrev pub newer : LiabilitySnapshot → LiabilitySnapshot → Bool
newer s t = ltb_ℤ t.sequence s.sequence

abbrev pub of_program : String → LiabilitySnapshot → Bool
of_program program_id s = str_eq s.program_id program_id

-- `latest && sequence <= latest.sequence`
abbrev pub is_stale : Option LiabilitySnapshot → ℤ → Bool
is_stale none sequence = false
is_stale (some s) sequence = not (ltb_ℤ s.sequence sequence)

-- `signature?.keyId ?? 'unsigned'` with `signature?.value ?? ''`
abbrev pub stored_signature : Option Signature → Signature
stored_signature none = record { key_id = "unsigned"; value = "" }
stored_signature (some s) = s

abbrev pub snapshot_row : LiabilitySnapshotInput → Bool → LiabilitySnapshot
snapshot_row input verified = record {
  program_id = input.program_id;
  report = input.report;
  circulating_minor = input.circulating_minor;
  sequence = input.sequence;
  snapshot_timestamp = input.snapshot_timestamp;
  signature = stored_signature input.signature;
  signature_verified = verified;
}

module _ {Key : Type 0} (public_key : Option Key)
    (verify_payload : Key → LiabilitySnapshotInput → Signature → Bool) where
  -- The test of the signature where a key and a signature are there; without them the feed is
  -- refused if signatures are required, and trusted otherwise.
  unfoldable pub check_signature :
      Option Key → Option Signature → LiabilitySnapshotInput → Action Bool
  check_signature (some key) (some signature) input = do
    let verified = verify_payload key (record input { signature = none }) signature
    throw_when (not verified) (bad_request signature_rejected)
    pure verified
  check_signature _ _ input = do
    required ← reads (λ db. is_enabled "liability.signature.required" db.feature_flags)
    throw_when required (bad_request signature_rejected)
    pure true

  unfoldable pub ingest : String → LiabilitySnapshotInput → Action (String × Bool)
  unfolding check_signature
  ingest id input = do
    found ← reads (λ db. latest (of_program input.program_id) newer db.liability_snapshots)
    throw_when (is_stale found input.sequence) conflict
    verified ← check_signature public_key input.signature input
    program ← reads (λ db. find_unique input.program_id db.programs)
    throw_when (is_absent program) foreign_key_violation
    writes λ db. record db {
      liability_snapshots = snapshot_row input verified ∷ db.liability_snapshots;
    }
    pure (id, verified)
