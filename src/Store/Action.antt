-- ===== src/Store/Action.antt =====
-- A call of a service: it reads the environment, and reads and writes the database. Each `await` on
-- the database takes effect at once, and what was written before a throw stays written. Calls do not
-- interleave: a call runs to its end before the next one starts.
use trustee_bank.Prelude.{ℕ, String, Bool, Option, none, some, ◌∷◌, if◌then◌else◌}
use trustee_bank.Prelude.Int.{ℤ}
use trustee_bank.Money.{CurrencyCode}
use trustee_bank.Result.{Result, Error, ok, err}
use trustee_bank.Store.Rows.{Signature}
use trustee_bank.Store.Db.{Db, AuditLog, OutboxEvent, PaykhEvent}

-- What a mint authorization's signature covers.
pub record MintPayload : Type 0 where
  pub authorization_id : String
  pub program_id : String
  pub asset_id : String
  pub amount_minor : ℤ
  pub currency : CurrencyCode
  pub nonce : String
  pub issued_at : ℕ
  pub expires_at : ℕ
  pub single_use : Bool

-- What a call takes from outside: the clock in milliseconds, the tolerances that the process read from
-- its environment, the age of the last live bank read, the signing service for its purpose
-- MINT_AUTHORIZATION, and what the platform reads a text as: an integer, or an instant, if anything.
pub record Env : Type 0 where
  pub now : ℕ
  pub max_reserve_snapshot_age_s : ℕ
  pub max_bank_connectivity_age_s : ℕ
  pub max_liability_feed_age_s : ℕ
  pub max_proof_of_reserve_age_s : Option ℕ
  pub mint_auth_ttl_s : ℕ
  pub bank_check_age_seconds : Option ℕ
  pub sign : MintPayload → Signature
  pub big_int : String → Option ℤ
  pub date : String → Option ℕ

abbrev pub Action : Type 0 → Type 0
Action A = Env → Db → Result A × Db

module _ {A : Type 0} where
  abbrev pub pure : A → Action A
  pure a env db = (ok a, db)

  abbrev pub throw : Error → Action A
  throw e env db = (err e, db)

  abbrev pub reads : (Db → A) → Action A
  reads f env db = (ok (f db), db)

  abbrev pub asks : (Env → A) → Action A
  asks f env db = (ok (f env), db)

  -- A call of a pure function of the packages, which may throw.
  abbrev pub lift : Result A → Action A
  lift r env db = (r, db)

  -- `if (!row) throw e`
  abbrev pub or_throw : Option A → Error → Action A
  or_throw none e = throw e
  or_throw (some a) e = pure a

infixl 5 ◌>>=◌ ◌>>◌
abbrev pub continue : {A B : Type 0} → Env → Result A → Db → (A → Action B) → Result B × Db
continue env (ok a) db f = f a env db
continue env (err e) db f = (err e, db)

abbrev pub ◌>>=◌ : {A B : Type 0} → Action A → (A → Action B) → Action B
◌>>=◌ m f env db = let (r, db') = m env db in continue env r db' f

abbrev pub ◌>>◌ : {A B : Type 0} → Action A → Action B → Action B
m >> k = m >>= λ _. k

abbrev pub throw_when : Bool → Error → Action (Unit {0})
throw_when b e env db = (if b then err e else ok tt, db)

abbrev pub writes : (Db → Db) → Action (Unit {0})
writes f env db = (ok tt, f db)

-- AuditService.record: one more row, and no way to change one.
abbrev pub record_audit : AuditLog → Action (Unit {0})
record_audit row = writes λ db. record db { audit_logs = row ∷ db.audit_logs }

-- EventsService.publish
abbrev pub publish : OutboxEvent → Action (Unit {0})
publish event = writes λ db. record db { outbox = event ∷ db.outbox }

-- EventsService.publishToPaykh
abbrev pub publish_to_paykh : PaykhEvent → Action (Unit {0})
publish_to_paykh event = publish (OutboxEvent.paykh event)
