-- ===== src/Mint/Earmark.antt =====
-- The PENDING_MINT account against the issued authorizations, along the steps of the desk.
use text.Mathlib.Text.{◌==◌ as str_eq}
use trustee_bank.Prelude.{
  ◌≡◌, sym, ap, ◌∙◌, String, Bool, true, false, ◌&&◌, ◌==◌, ◌∷◌, arith, if◌then◌else◌,
}
use trustee_bank.Prelude.Int.{ℤ, pos, neg, ◌+ℤ◌, int_laws, parts_of, +ℤ_zero_left, +ℤ_zero_right}
use trustee_bank.Prelude.Text.{same_text, to_upper_case}
use trustee_bank.Money.{CurrencyCode, money}
use trustee_bank.Result.{ok}
use trustee_bank.Ledger.LedgerAccountCode.{liability_pending_mint}
use trustee_bank.Ledger.Journal.{JournalEntry, JournalReferences}
use trustee_bank.Ledger.Entries.{mint_reservation_entry, mint_release_entry}
use trustee_bank.Store.Table.{Table, update, total_of, total_of-update}
use trustee_bank.Store.Rows.{MintAuthorization}
use trustee_bank.ReserveLedger.{entry_row}
use trustee_bank.ReserveLedger.Balance.{balance, balance-entry, contribution}
use trustee_bank.ReserveLedger.Tracking.{transfer-contribution, shift}
use trustee_bank.Mint.Desk.{Desk, Step, stage, Changes, SameTerms, amount_of, Strands, Slips}

excess : (x t t' w w' : ℤ) → t' +ℤ w ≡ t +ℤ w' → w' ≡ pos 0 → x ≡ t → x ≡ t' +ℤ w
excess x t t' w w' by ended before = omega (int_laws, parts_of by, parts_of ended, parts_of before)

restore : (x y c n : ℤ) → x ≡ c +ℤ y → c +ℤ n ≡ pos 0 → x +ℤ n ≡ y
restore x y c n by zero = omega (int_laws, parts_of by, parts_of zero)

module _ (program_id : String) (currency : CurrencyCode) where
  -- Whether an authorization is of the program and the currency.
  abbrev pub concerns : MintAuthorization → Bool
  concerns auth =
      str_eq auth.program_id program_id && same_text (to_upper_case auth.currency) currency

  -- What an authorization earmarks: its amount while it is issued.
  abbrev pub earmark : MintAuthorization → ℤ
  earmark auth =
      if stage auth.status == 2 then (if concerns auth then auth.amount_minor else pos 0) else pos 0

  abbrev pub pending_mint : Desk → ℤ
  pending_mint d = balance false program_id liability_pending_mint currency d.entries

  abbrev pub issued_total : Desk → ℤ
  issued_total d = total_of earmark d.authorizations

  reservation-contribution :
      (auth : MintAuthorization) (references : JournalReferences) (entry : JournalEntry)
      → references.program_id ≡ auth.program_id
      → mint_reservation_entry (amount_of auth) references ≡ ok entry
      → contribution false program_id liability_pending_mint currency entry
        ≡ (if concerns auth then auth.amount_minor else pos 0)
  unfolding mint_reservation_entry money
  reservation-contribution auth references entry own h =
      transfer-contribution _ _ _ (amount_of auth) references false program_id
        liability_pending_mint currency h
      ∙ rw own (ap (λ n. if concerns auth then n else pos 0) (omega int_laws))

  release-contribution :
      (auth : MintAuthorization) (references : JournalReferences) (entry : JournalEntry)
      → references.program_id ≡ auth.program_id
      → mint_release_entry (amount_of auth) references ≡ ok entry
      → contribution false program_id liability_pending_mint currency entry
        ≡ (if concerns auth then neg auth.amount_minor else pos 0)
  unfolding mint_release_entry money
  release-contribution auth references entry own h =
      transfer-contribution _ _ _ (amount_of auth) references false program_id
        liability_pending_mint currency h
      ∙ rw own (ap (λ n. if concerns auth then n else pos 0) (omega int_laws))

  -- The earmark of a row that is not issued, and of one that is.
  earmark_none : (a : MintAuthorization) → (stage a.status ≡ 2 → ⊥) → earmark a ≡ pos 0
  earmark_none a h = ground arith

  earmark_issued :
      (a : MintAuthorization)
      → stage a.status ≡ 2
      → earmark a ≡ (if concerns a then a.amount_minor else pos 0)
  earmark_issued a h = ground arith

  same_earmark :
      (a b : MintAuthorization)
      → SameTerms a b
      → (if concerns b then b.amount_minor else pos 0)
        ≡ (if concerns a then a.amount_minor else pos 0)
  same_earmark a b s = rw (sym s.same_program, sym s.same_amount, sym s.same_currency)

  total_of_new :
      (auth : MintAuthorization) (t : Table MintAuthorization) (id : String)
      → earmark auth ≡ pos 0
      → total_of earmark ((id, auth) ∷ t) ≡ total_of earmark t
  unfolding total_of
  total_of_new auth t id h = rw h (+ℤ_zero_left _)

  cancel : (b : Bool) (n : ℤ) → (if b then neg n else pos 0) +ℤ (if b then n else pos 0) ≡ pos 0
  cancel true n = omega int_laws
  cancel false n = omega int_laws

  unfoldable pub Earmarked : Desk → Type 0
  Earmarked d = pending_mint d ≡ issued_total d

  -- A change of one row, with an entry of the right contribution.
  follows :
      {d : Desk} {id : String} {f : MintAuthorization → MintAuthorization} (c : Changes d id f)
      (entry : JournalEntry)
      → contribution false program_id liability_pending_mint currency entry +ℤ earmark c.row
        ≡ earmark (f c.row)
      → Earmarked d
      → balance false program_id liability_pending_mint currency (entry_row entry ∷ d.entries)
        ≡ total_of earmark (update id f d.authorizations)
  unfolding Earmarked
  follows {d} {id} {f} c entry change h =
      balance-entry false program_id liability_pending_mint currency entry d.entries
      ∙ shift _ _ _ _ _ _ (total_of-update earmark id f d.authorizations c.row c.found) change h

  -- An ended row: its release takes off what it earmarked.
  release_change :
      {d : Desk} {id : String} {f : MintAuthorization → MintAuthorization} (c : Changes d id f)
      → stage c.row.status ≡ 2
      → stage (f c.row).status ≡ 3
      → (references : JournalReferences) (entry : JournalEntry)
      → references.program_id ≡ c.row.program_id
      → mint_release_entry (amount_of c.row) references ≡ ok entry
      → contribution false program_id liability_pending_mint currency entry +ℤ earmark c.row
        ≡ earmark (f c.row)
  release_change {f = f} c from to references entry own built =
      rw
        (
          release-contribution c.row references entry own built,
          earmark_issued c.row from,
          earmark_none (f c.row) (λ q. omega arith),
        )
        (cancel (concerns c.row) c.row.amount_minor)

  -- The step keeps the balance of PENDING_MINT equal to the sum of the issued amounts.
  pub step-Earmarked : {d e : Desk} → Step d e → Earmarked d → Earmarked e
  unfolding Earmarked
  step-Earmarked Step.idle h = h
  step-Earmarked (Step.requested {d} id auth fresh new) h =
      h ∙ sym (total_of_new auth d.authorizations id (earmark_none auth (λ q. omega arith)))
  step-Earmarked (Step.moved {d} id f c up from to) h =
      sym (+ℤ_zero_left _)
      ∙ shift _ (pos 0) _ _ _ _ (total_of-update earmark id f d.authorizations c.row c.found)
          (rw (earmark_none c.row from, earmark_none (f c.row) to) (omega int_laws)) h
  step-Earmarked (Step.reserved id f c from to references entry own built) h =
      follows c entry
        (rw
          (
            reservation-contribution c.row references entry own built,
            earmark_none c.row (λ q. omega arith),
            earmark_issued (f c.row) to,
          )
          (+ℤ_zero_right _ ∙ sym (same_earmark c.row (f c.row) c.same_terms)))
        h
  step-Earmarked (Step.released id f c from to references entry own built) h =
      follows c entry (release_change c from to references entry own built) h
  step-Earmarked (Step.confirmed id f c from to references entry confirmation own built first same)
        h =
      follows c entry (release_change c from to references entry own built) h

  -- After a stranding move the balance exceeds the sum of the issued amounts by the stranded amount.
  pub Strands-exceeds :
      {d e : Desk} (s : Strands d e)
      → Earmarked d
      → pending_mint e
        ≡ issued_total e +ℤ (if concerns s.change.row then s.change.row.amount_minor else pos 0)
  unfolding Earmarked
  Strands-exceeds {d} s h =
      let c = s.change in
      rw (s.result, sym (earmark_issued c.row s.was_issued))
        (excess _ _ _ _ _ (total_of-update earmark s.id s.f d.authorizations c.row c.found)
          (earmark_none (s.f c.row) (λ q. omega arith)) h)

  -- After a slip the balance falls short of the sum of the issued amounts by the amount of the row.
  pub Slips-falls :
      {d e : Desk} (s : Slips d e)
      → Earmarked d
      → pending_mint e +ℤ (if concerns s.row then s.row.amount_minor else pos 0) ≡ issued_total e
  unfolding Earmarked
  Slips-falls {d} s h = rw s.result (
      restore _ _ _ _
        (balance-entry false program_id liability_pending_mint currency s.entry d.entries
          ∙ ap (λ n. n +ℤ pending_mint d)
              (release-contribution s.row s.references s.entry s.own s.built))
        (cancel (concerns s.row) s.row.amount_minor)
      ∙ h)
