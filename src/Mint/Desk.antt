-- ===== src/Mint/Desk.antt =====
-- The abstract machine behind mint.service.ts: the authorizations, the confirmations and the ledger
-- entries, and the steps that an authorization takes.
use trustee_bank.Prelude.{ℕ, ◌≤◌, ◌≡◌, ◌≢◌, String, List, ◌∷◌, none, some}
use trustee_bank.Money.{Money, money}
use trustee_bank.Result.{ok}
use trustee_bank.Ledger.Journal.{JournalEntry, JournalReferences}
use trustee_bank.Ledger.Entries.{mint_reservation_entry, mint_release_entry}
use trustee_bank.Store.Table.{Table, find_unique, update}
use trustee_bank.Store.Rows.{
  MintAuthorization, MintAuthorizationStatus, MintConfirmation, LedgerEntry,
}
use trustee_bank.Store.Db.{Db}
use trustee_bank.ReserveLedger.{entry_row}

pub record Desk : Type 0 where
  pub authorizations : Table MintAuthorization
  pub confirmations : Table MintConfirmation
  pub entries : List LedgerEntry

abbrev pub desk : Db → Desk
desk db = record {
  authorizations = db.mint_authorizations;
  confirmations = db.mint_confirmations;
  entries = db.ledger_entries;
}

-- How far an authorization has come; 3 is the end.
abbrev pub stage : MintAuthorizationStatus → ℕ
stage MintAuthorizationStatus.draft = 0
stage MintAuthorizationStatus.pending_maker = 0
stage MintAuthorizationStatus.pending_checker = 1
stage MintAuthorizationStatus.approved = 1
stage MintAuthorizationStatus.issued = 2
stage MintAuthorizationStatus.consumed = 3
stage MintAuthorizationStatus.expired = 3
stage MintAuthorizationStatus.revoked = 3
stage MintAuthorizationStatus.rejected = 3

-- The terms that no step changes.
pub record SameTerms (a b : MintAuthorization) : Type 0 where
  pub same_program : a.program_id ≡ b.program_id
  pub same_amount : a.amount_minor ≡ b.amount_minor
  pub same_currency : a.currency ≡ b.currency

abbrev pub amount_of : MintAuthorization → Money
amount_of auth = money auth.amount_minor auth.currency

-- A row of the desk before and after a change.
pub record Changes (d : Desk) (id : String) (f : MintAuthorization → MintAuthorization)
    : Type 0 where
  pub row : MintAuthorization
  pub found : find_unique id d.authorizations ≡ some row
  pub same_terms : SameTerms row (f row)

pub data Step : Desk → Desk → Type 0 where
  idle : {d : Desk} → Step d d
  requested :
      {d : Desk} (id : String) (auth : MintAuthorization)
      → find_unique id d.authorizations ≡ none
      → stage auth.status ≡ 0
      → Step d (record d { authorizations = (id, auth) ∷ d.authorizations })
  -- A move that touches no issued authorization, and issues none.
  moved :
      {d : Desk} (id : String) (f : MintAuthorization → MintAuthorization) (c : Changes d id f)
      → stage c.row.status ≤ stage (f c.row).status
      → stage c.row.status ≢ 2
      → stage (f c.row).status ≢ 2
      → Step d (record d { authorizations = update id f d.authorizations })
  -- An issue, with its reservation.
  reserved :
      {d : Desk} (id : String) (f : MintAuthorization → MintAuthorization) (c : Changes d id f)
      → stage c.row.status ≡ 1
      → stage (f c.row).status ≡ 2
      → (references : JournalReferences) (entry : JournalEntry)
      → references.program_id ≡ c.row.program_id
      → mint_reservation_entry (amount_of c.row) references ≡ ok entry
      → Step d (record d {
        authorizations = update id f d.authorizations;
        entries = entry_row entry ∷ d.entries;
      })
  -- The end of an issued authorization, with its release.
  released :
      {d : Desk} (id : String) (f : MintAuthorization → MintAuthorization) (c : Changes d id f)
      → stage c.row.status ≡ 2
      → stage (f c.row).status ≡ 3
      → (references : JournalReferences) (entry : JournalEntry)
      → references.program_id ≡ c.row.program_id
      → mint_release_entry (amount_of c.row) references ≡ ok entry
      → Step d (record d {
        authorizations = update id f d.authorizations;
        entries = entry_row entry ∷ d.entries;
      })
  -- The end by a confirmation, which is the first of its authorization.
  confirmed :
      {d : Desk} (id : String) (f : MintAuthorization → MintAuthorization) (c : Changes d id f)
      → stage c.row.status ≡ 2
      → stage (f c.row).status ≡ 3
      → (references : JournalReferences) (entry : JournalEntry) (confirmation : MintConfirmation)
      → references.program_id ≡ c.row.program_id
      → mint_release_entry (amount_of c.row) references ≡ ok entry
      → find_unique id d.confirmations ≡ none
      → confirmation.amount_minor ≡ c.row.amount_minor
      → Step d (record d {
        authorizations = update id f d.authorizations;
        confirmations = (id, confirmation) ∷ d.confirmations;
        entries = entry_row entry ∷ d.entries;
      })

-- The move that strands a reservation: an issued authorization ends, and nothing is released.
pub record Strands (d e : Desk) : Type 0 where
  pub id : String
  pub f : MintAuthorization → MintAuthorization
  pub change : Changes d id f
  pub was_issued : stage change.row.status ≡ 2
  pub now_ended : stage (f change.row).status ≡ 3
  pub result : e ≡ record d { authorizations = update id f d.authorizations }

-- The slip of a confirmation that cannot be stored: its release is booked, and the authorization
-- stays issued.
pub record Slips (d e : Desk) : Type 0 where
  pub id : String
  pub row : MintAuthorization
  pub found : find_unique id d.authorizations ≡ some row
  pub still_issued : stage row.status ≡ 2
  pub references : JournalReferences
  pub entry : JournalEntry
  pub own : references.program_id ≡ row.program_id
  pub built : mint_release_entry (amount_of row) references ≡ ok entry
  pub result : e ≡ record d { entries = entry_row entry ∷ d.entries }

-- An authorization that has come to its end.
abbrev pub HasEnded : Desk → String → Type 0
HasEnded d id =
    (auth : MintAuthorization) × (find_unique id d.authorizations ≡ some auth)
    × (stage auth.status ≡ 3)

-- Every confirmation is of an authorization that has ended.
abbrev pub ConfirmedEnded : Desk → Type 0
ConfirmedEnded d =
    (id : String) (confirmation : MintConfirmation)
    → find_unique id d.confirmations ≡ some confirmation
    → HasEnded d id
