-- ===== src/Model/Txn.antt =====
-- A transaction reads `NOW()` and the database, and ends with a result and the new database or with
-- an exception, which rolls it back. A task is a sequence of transactions: what was committed before
-- an exception stays.
use nurix_takehome.Common.{ℕ, Bool}
use nurix_takehome.Model.Rows.{Db}

pub data Error : Type 0 where
  unauthorized_column non_terminal_outcome unique_violation : Error
  invalid_schedule value_error key_error type_error data_error provider_error : Error

pub data Result {ℓ} (A : Type ℓ) : Type ℓ where
  ok : A → Result A
  err : Error → Result A

abbrev pub Txn : Type 0 → Type 0
Txn A = ℕ → Db → Result (A × Db)

abbrev pub pure : {A : Type 0} → A → Txn A
pure a now d = ok (a, d)

abbrev pub throw : {A : Type 0} → Error → Txn A
throw e now d = err e

abbrev pub gets : {A : Type 0} → (ℕ → Db → A) → Txn A
gets f now d = ok (f now d, d)

infixl 5 ◌>>=◌ ◌>>◌
abbrev pub ◌>>=◌ : {A B : Type 0} → Txn A → (A → Txn B) → Txn B
◌>>=◌ m f now d = elim (m now d) [ ok (a, d') ↦ f a now d' | err e ↦ err e ]

abbrev pub ◌>>◌ : {B : Type 0} → Txn (Unit {0}) → Txn B → Txn B
m >> k = m >>= λ _. k

-- The process: its database, the clock, and the flag of the scheduler's wake event.
pub record World : Type 0 where
  pub db : Db
  pub clock : ℕ
  pub wake : Bool

abbrev pub Task : Type 0 → Type 0
Task A = World → Result A × World

abbrev pub settle : {A : Type 0} → Result (A × Db) → World → Result A × World
settle r w = elim r [ ok (a, d) ↦ (ok a, record w { db = d }) | err e ↦ (err e, w) ]

-- `async with pool.acquire() as conn, conn.transaction(): ...`
unfoldable pub commit : {A : Type 0} → Txn A → Task A
commit m w = settle (m w.clock w.db) w

-- The database that a transaction leaves: the new one if it commits, the old one if it raises.
abbrev pub after : {A : Type 0} → Result (A × Db) → Db → Db
after r d = elim r [ ok (a, d') ↦ d' | err e ↦ d ]
