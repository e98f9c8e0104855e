-- ===== src/Reserve/Snapshots.antt =====
-- `createSnapshot` and the reads of snapshots of reserve.service.ts. The signer and the hash of the
-- content are parameters.
use text.Mathlib.Text.{◌==◌ as str_eq}
use trustee_bank.Prelude.{ℕ, String, Option, none, some, List, [], ◌∷◌, ltb, if◌then◌else◌}
use trustee_bank.Prelude.Int.{ℤ, pos, ltb_ℤ}
use trustee_bank.Money.{CurrencyCode}
use trustee_bank.Result.{not_found, Subject}
use trustee_bank.Store.Table.{find_unique}
use trustee_bank.Store.Query.{latest}
use trustee_bank.Store.Rows.{Signature, Program, ReserveSnapshot}
use trustee_bank.Store.Db.{OutboxEvent}
use trustee_bank.Store.Action.{Action, pure, reads, asks, or_throw, writes, publish, ◌>>=◌, ◌>>◌}
use trustee_bank.Reserve.{ReservePosition, position}

-- What a snapshot's signature covers.
pub record SnapshotContent : Type 0 where
  pub program_id : String
  pub asset_id : String
  pub reference_currency : CurrencyCode
  pub timestamp : ℕ
  pub eligible_reserve_minor : ℤ
  pub circulating_liability_minor : ℤ
  pub required_reserve_minor : ℤ
  pub surplus_minor : ℤ
  pub reserve_ratio_bps : Option ℤ
  pub data_sources : List String

-- `position` as a call.
abbrev pub read_position : String → Action ReservePosition
read_position program_id env db = (position env.now db program_id, db)

-- `program`
abbrev pub require_program : String → Action Program
require_program id = do
  found ← reads (λ db. find_unique id db.programs)
  or_throw found (not_found Subject.program)

abbrev pub content_of : String → String → ℕ → ReservePosition → SnapshotContent
content_of program_id asset_id now p = record {
  program_id = program_id;
  asset_id = asset_id;
  reference_currency = p.currency;
  timestamp = now;
  eligible_reserve_minor = p.eligible_reserve.minor;
  circulating_liability_minor = p.reserve_obligation.minor;
  required_reserve_minor = p.required_reserve.minor;
  surplus_minor = p.surplus.minor;
  reserve_ratio_bps = p.reserve_ratio_bps;
  data_sources = "reserve-subledger" ∷ "paychain-liability-feed" ∷ [];
}

abbrev pub snapshot_row : String → ℕ → SnapshotContent → Signature → String → ReserveSnapshot
snapshot_row id now c signature hash = record {
  id = id;
  program_id = c.program_id;
  asset_id = c.asset_id;
  reference_currency = c.reference_currency;
  eligible_reserve_minor = c.eligible_reserve_minor;
  excluded_amount_minor = pos 0;
  circulating_liability_minor = c.circulating_liability_minor;
  pending_redemption_minor = pos 0;
  required_reserve_minor = c.required_reserve_minor;
  reserve_ratio_bps = c.reserve_ratio_bps;
  surplus_minor = c.surplus_minor;
  reconciliation_status = if ltb_ℤ c.surplus_minor (pos 0) then "SHORTFALL" else "OK";
  data_sources = c.data_sources;
  signature = signature;
  content_hash = hash;
  created_at = now;
}

-- The generated identifier is an argument.
unfoldable pub create_snapshot :
    (SnapshotContent → Signature)
    → (SnapshotContent → String)
    → String
    → String
    → Action (String × Option ℤ)
create_snapshot sign hash id program_id = do
  p ← read_position program_id
  program ← require_program program_id
  now ← asks (λ env. env.now)
  let content = content_of program_id program.asset_id now p
  let row = snapshot_row id now content (sign content) (hash content)
  writes λ db. record db { reserve_snapshots = row ∷ db.reserve_snapshots }
  publish (
      OutboxEvent.reserve_snapshot_created id program_id p.reserve_ratio_bps (record {
        snapshot_id = id;
        tenant_id = program.issuer_id;
        asset_id = program.asset_id;
        reserve_balance = p.eligible_reserve.minor;
        currency = p.currency;
        as_of = now;
      }))
  (if ltb_ℤ p.surplus.minor (pos 0)
      then publish (OutboxEvent.reserve_shortfall_detected program_id p.surplus.minor)
      else pure tt)
  pure (id, p.reserve_ratio_bps)

-- The views of `serializeSnapshot`: the rows.
unfoldable pub latest_snapshot : String → Action ReserveSnapshot
latest_snapshot program_id = do
  found ← reads (λ db.
      latest (λ (s : ReserveSnapshot). str_eq s.program_id program_id)
        (λ s t. ltb t.created_at s.created_at) db.reserve_snapshots)
  or_throw found (not_found Subject.reserve_snapshot)

unfoldable pub find_snapshot : String → List ReserveSnapshot → Option ReserveSnapshot
find_snapshot id [] = none
find_snapshot id (s ∷ ss) = if str_eq s.id id then some s else find_snapshot id ss

unfoldable pub get_snapshot : String → Action ReserveSnapshot
get_snapshot id = do
  found ← reads (λ db. find_snapshot id db.reserve_snapshots)
  or_throw found (not_found Subject.reserve_snapshot)

unfoldable pub ratio : String → Action (String × (Option ℤ × ℕ))
ratio program_id = do
  p ← read_position program_id
  now ← asks (λ env. env.now)
  pure (program_id, (p.reserve_ratio_bps, now))
