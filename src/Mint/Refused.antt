-- ===== src/Mint/Refused.antt =====
-- What a refused approval of mint.service.ts leaves.
use text.Mathlib.Text.{◌==◌ as str_eq}
use Prim.Native.String.{◌++◌ as concat}
use trustee_bank.Prelude.{◌≡◌, ◌⊎◌, String, some, List}
use trustee_bank.Result.{Result, Error, ok, err, bad_request, MintBlockReason, mint_blocked}
use trustee_bank.Store.Table.{find_unique}
use trustee_bank.Store.Rows.{MintAuthorization, MintAuthorizationStatus}
use trustee_bank.Store.Db.{Db}
use trustee_bank.Mint.{Reply}

-- The guard has blocked the approval: the authorization is rejected, and nothing is booked.
abbrev pub Blocked : String → Error → Db → Db → Type 0
Blocked id e db after =
    ((reasons : List MintBlockReason) × (e ≡ bad_request (mint_blocked reasons)))
    × ((row : MintAuthorization) × (find_unique id after.mint_authorizations ≡ some row)
        × (row.status ≡ MintAuthorizationStatus.rejected))
    × (after.ledger_entries ≡ db.ledger_entries)
    × (after.mint_confirmations ≡ db.mint_confirmations)

-- What a call that throws may leave.
abbrev Refuses : String → Db → Result Reply × Db → Type 0
Refuses id db outcome =
    ((r : Reply) × (outcome.0 ≡ ok r))
    ⊎ ((e : Error) × (outcome ≡ (err e, db)))
    ⊎ ((e : Error) × (outcome.0 ≡ err e) × Blocked id e db outcome.1)
