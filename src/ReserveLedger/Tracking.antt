-- ===== src/ReserveLedger/Tracking.antt =====
-- An account that tracks a table: its balance is the sum of a weight over the rows.
use text.Mathlib.Text.{◌==◌ as str_eq}
use trustee_bank.Prelude.{◌≡◌, sym, ap₂, ◌∙◌, String, Bool, ◌&&◌, some, List, ◌∷◌, if◌then◌else◌}
use trustee_bank.Prelude.Int.{ℤ, pos, ◌+ℤ◌, int_laws, parts_of, +ℤ_zero_left}
use trustee_bank.Prelude.Text.{same_text}
use trustee_bank.Money.{Money, CurrencyCode}
use trustee_bank.Result.{ok}
use trustee_bank.Ledger.Journal.{JournalEntry, JournalReferences}
use trustee_bank.Ledger.Journal.Build.{build-eq-ok_iff}
use trustee_bank.Ledger.Entries.{transfer_entry}
use trustee_bank.Ledger.Entries.Transfer.{transfer_input, transfer-effect, moved}
use trustee_bank.Store.Table.{Table, find_unique, update, total_of, total_of-update}
use trustee_bank.Store.Rows.{LedgerEntry}
use trustee_bank.ReserveLedger.{entry_row}
use trustee_bank.ReserveLedger.Balance.{balance, balance-entry, contribution}

-- What a template's entry adds to an account.
pub transfer-contribution :
    (description from to : String) (amount : Money) (references : JournalReferences) (d : Bool)
    (program_id account : String) (currency : CurrencyCode) {entry : JournalEntry}
    → transfer_entry description from to amount references ≡ ok entry
    → contribution d program_id account currency entry ≡ (
        if str_eq references.program_id program_id && same_text amount.currency currency
        then moved from to amount d account
        else pos 0)
unfolding transfer_entry
transfer-contribution description from to amount references d program_id account currency {entry}
      h =
    let same =
      ((build-eq-ok_iff (transfer_input description from to amount references) entry).0 h).1 in
    rw (same, transfer-effect from to amount d account)

pub shift : (x c t t' w w' : ℤ) → t' +ℤ w ≡ t +ℤ w' → c +ℤ w ≡ w' → x ≡ t → c +ℤ x ≡ t'
shift x c t t' w w' by change before =
    omega (int_laws, parts_of by, parts_of change, parts_of before)

module _ {ℓ} {V : Type ℓ} (weight : V → ℤ) (d : Bool) (program_id account : String)
    (currency : CurrencyCode) where
  unfoldable pub Tracks : List LedgerEntry → Table V → Type 0
  Tracks entries t = balance d program_id account currency entries ≡ total_of weight t

  -- An entry with the change of one row.
  pub Tracks-entry-update :
      (entry : JournalEntry) (entries : List LedgerEntry) (k : String) (f : V → V) (t : Table V)
      (v : V)
      → find_unique k t ≡ some v
      → contribution d program_id account currency entry +ℤ weight v ≡ weight (f v)
      → Tracks entries t
      → Tracks (entry_row entry ∷ entries) (update k f t)
  unfolding Tracks
  Tracks-entry-update entry entries k f t v found change h =
      balance-entry d program_id account currency entry entries
      ∙ shift _ _ _ _ _ _ (total_of-update weight k f t v found) change h

  -- A change of one row that keeps its weight.
  pub Tracks-update :
      (entries : List LedgerEntry) (k : String) (f : V → V) (t : Table V) (v : V)
      → find_unique k t ≡ some v
      → weight v ≡ weight (f v)
      → Tracks entries t
      → Tracks entries (update k f t)
  unfolding Tracks
  Tracks-update entries k f t v found same h =
      sym (+ℤ_zero_left _)
      ∙ shift _ (pos 0) _ _ _ _ (total_of-update weight k f t v found) (+ℤ_zero_left _ ∙ same) h

  -- An entry with a new row.
  pub Tracks-entry-new :
      (entry : JournalEntry) (entries : List LedgerEntry) (k : String) (v : V) (t : Table V)
      → contribution d program_id account currency entry ≡ weight v
      → Tracks entries t
      → Tracks (entry_row entry ∷ entries) ((k, v) ∷ t)
  unfolding Tracks total_of
  Tracks-entry-new entry entries k v t change h =
      balance-entry d program_id account currency entry entries ∙ ap₂ (λ a b. a +ℤ b) change h

  -- A new row without weight.
  pub Tracks-new :
      (entries : List LedgerEntry) (k : String) (v : V) (t : Table V)
      → weight v ≡ pos 0
      → Tracks entries t
      → Tracks entries ((k, v) ∷ t)
  unfolding Tracks total_of
  Tracks-new entries k v t none h = rw none (sym (+ℤ_zero_left _ ∙ sym h))

  -- An entry that does not touch the account.
  pub Tracks-entry :
      (entry : JournalEntry) (entries : List LedgerEntry) (t : Table V)
      → contribution d program_id account currency entry ≡ pos 0
      → Tracks entries t
      → Tracks (entry_row entry ∷ entries) t
  unfolding Tracks
  Tracks-entry entry entries t none h =
      balance-entry d program_id account currency entry entries ∙ rw none (+ℤ_zero_left _ ∙ h)
