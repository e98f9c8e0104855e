-- ===== src/Mint/Calls.antt =====
-- The calls of mint.service.ts as one type, and histories of calls.
use trustee_bank.Prelude.{is_present, Bool, false, ◌&&◌, ◌≡◌, some, String, List, [], ◌∷◌}
use trustee_bank.Store.Table.{find_unique}
use trustee_bank.Store.Rows.{MintAuthorization, MintAuthorizationStatus}
use trustee_bank.Store.Db.{Db}
use trustee_bank.Store.Action.{Env, Action}
use trustee_bank.Mint.{
  read_height, Reply, RequestMintAuthorization, MintConfirmationInput, request, review, approve,
  reject, revoke, expire, confirm,
}

pub data Call : Type 0 where
  requesting : String → String → RequestMintAuthorization → Call
  reviewing : String → String → String → Call
  approving : String → String → String → Call
  rejecting : String → String → String → Call
  revoking : String → String → String → Call
  expiring : String → String → Call
  confirming : String → MintConfirmationInput → Call

unfoldable pub run : Call → Action Reply
run (Call.requesting id nonce input) = request id nonce input
run (Call.reviewing approval_id id maker_id) = review approval_id id maker_id
run (Call.approving id checker_id reason) = approve id checker_id reason
run (Call.rejecting id checker_id reason) = reject id checker_id reason
run (Call.revoking id actor reason) = revoke id actor reason
run (Call.expiring id actor) = expire id actor
run (Call.confirming id input) = confirm id input

-- The database after a call, whether or not the call throws.
abbrev pub after : Call → Env → Db → Db
after call env db = (run call env db).1

unfoldable pub after_all : List (Call × Env) → Db → Db
after_all [] db = db
after_all ((call, env) ∷ calls) db = after_all calls (after call env db)

-- Whether the platform reads the height and the time of a confirmation.
abbrev pub is_readable : Env → MintConfirmationInput → Bool
is_readable env input =
    is_present (read_height env.big_int input.ledger_height)
    && is_present (env.date input.confirmed_at)

-- The call is a confirmation whose height or time cannot be read.
abbrev pub ConfirmsUnreadable : Call → Env → Type 0
ConfirmsUnreadable (Call.confirming id input) env = is_readable env input ≡ false
ConfirmsUnreadable _ env = ⊥

-- The call rejects an authorization that is issued.
abbrev pub RejectsIssued : Call → Db → Type 0
RejectsIssued (Call.rejecting id checker_id reason) db =
    (auth : MintAuthorization) × (find_unique id db.mint_authorizations ≡ some auth)
    × (auth.status ≡ MintAuthorizationStatus.issued)
RejectsIssued _ db = ⊥
