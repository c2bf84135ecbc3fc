-- ===== src/Broker/Session.antt =====
-- A broker method: it reads and writes the database, the permission file, the clock and the supply
-- of identifiers, and it may raise. What stood before a raise stays, except inside a transaction.
use growth_clockwork.Prelude.{ℕ, suc, String, Bool, Option, none, some, List, if◌then◌else◌}
use growth_clockwork.Json.{Json}
use growth_clockwork.Broker.Tables.{Db}

-- `BrokerError` with its message, `sqlite3.IntegrityError`, and any other exception by its class.
pub data Error : Type 0 where
  broker_error : String → Error
  integrity_error : Error
  uncaught : String → Error

pub data Result {ℓ} (A : Type ℓ) : Type ℓ where
  ok : A → Result A
  err : Error → Result A

-- What Python's library supplies: `hashlib.sha256(...).hexdigest()`, the `n`-th `uuid.uuid4()` and
-- the `n`-th `int(clock())` of the process.
pub record Env : Type 0 where
  pub sha256 : List ℕ → String
  pub uuid : ℕ → String
  pub clock : ℕ → ℕ

-- `config` is the parsed permission file, `none` where it cannot be read or parsed.
pub record State : Type 0 where
  pub db : Db
  pub config : Option Json
  pub uuids : ℕ
  pub ticks : ℕ

abbrev pub Action : Type 0 → Type 0
Action A = State → Result A × State

module _ {A : Type 0} where
  abbrev pub pure : A → Action A
  pure a s = (ok a, s)

  abbrev pub raise : Error → Action A
  raise e s = (err e, s)

  abbrev pub gets : (State → A) → Action A
  gets f s = (ok (f s), s)

  abbrev pub some_or_error : Option A → Error → Result A
  some_or_error none e = err e
  some_or_error (some a) e = ok a

  abbrev pub or_raise : Option A → Error → Action A
  or_raise o e s = (some_or_error o e, s)

infixl 5 ◌>>=◌ ◌>>◌
abbrev pub ◌>>=◌ : {A B : Type 0} → Action A → (A → Action B) → Action B
◌>>=◌ m f s = let (r, s') = m s in elim r [ ok a ↦ f a s' | err e ↦ (err e, s') ]

abbrev pub ◌>>◌ : {A B : Type 0} → Action A → Action B → Action B
m >> k = m >>= λ _. k

-- `if not b: raise BrokerError(message)`
abbrev pub require : Bool → String → Action (Unit {0})
require b message s = (if b then ok tt else err (broker_error message), s)

-- One SQL statement; where a constraint fails, it changes nothing.
abbrev pub statement : Option Db → Result (Unit {0})
statement none = err integrity_error
statement (some d) = ok tt

abbrev pub after : Option Db → Db → Db
after none d = d
after (some d') d = d'

abbrev pub execute : (Db → Option Db) → Action (Unit {0})
execute f s = (statement (f s.db), record s { db = after (f s.db) s.db })

-- BEGIN IMMEDIATE, then COMMIT, or ROLLBACK where the body raises.
abbrev pub transaction : {A : Type 0} → Action A → Action A
transaction m s =
    let (r, s') = m s in elim r [ ok a ↦ (ok a, s') | err e ↦ (err e, record s' { db = s.db }) ]

module _ (env : Env) where
  abbrev pub uuid4 : Action String
  uuid4 s = (ok (env.uuid s.uuids), record s { uuids = suc s.uuids })

  abbrev pub now : Action ℕ
  now s = (ok (env.clock s.ticks), record s { ticks = suc s.ticks })
