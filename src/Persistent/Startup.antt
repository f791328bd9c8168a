-- ===== src/Persistent/Startup.antt =====
-- BankingSystemPersistent::initialize (banking_system_persistent.cpp), over the connection, the
-- statements of the schema and the operations `db` of the persistence layer.
use cloud_storage_system.Base.{ℕ, ◌≡◌, refl, Bool, true, false, Option, some, ◌>>=◌, if◌then◌else◌}
use cloud_storage_system.Base.Text.{Text}
use cloud_storage_system.Postgres
use cloud_storage_system.Postgres.{
  Libpq, PostgresConnection, new_connection, Outcome, returns, blocks, connect,
}
use cloud_storage_system.Postgres.Blocking.{connect-blocks}
use cloud_storage_system.Interface.{BankingSystem}
use cloud_storage_system.Persistence.{Connection}
use cloud_storage_system.Persistence.Schema.{initialize_schema}
use cloud_storage_system.Persistent.Store.{Store}
use cloud_storage_system.Persistent.Saving.{Persistent, Config}
use cloud_storage_system.Persistent.Operations.{load_from_database}

-- What initialize leaves: whether persistence_ is set, and the state with the connection as its store.
abbrev pub Started : Type 0 → Type 0 → Type 0
Started S D = Bool × Persistent S (PostgresConnection D)

abbrev started :
    {S D : Type 0}
    → Bool
    → Persistent S (PostgresConnection D)
    → Bool
    → Option (Outcome (Started S D) Bool)
started persistence p ok = some (returns (persistence, p) ok)

abbrev attached :
    {S D : Type 0} → Persistent S D → PostgresConnection D → Persistent S (PostgresConnection D)
attached p d = record { memory = p.memory; store = d; cache = p.cache }

module _ {S D : Type 0} (bank : BankingSystem S) (pq : Libpq D)
    (conn : Connection (PostgresConnection D)) (db : Store (PostgresConnection D)) (fuel : ℕ)
    (file : Option Text) (config : Config) where
  -- Past the connection: the schema, from the file where it opens, and the data.
  unfoldable pub initialize_persistence :
      Persistent S (PostgresConnection D) → Option (Outcome (Started S D) Bool)
  initialize_persistence p = initialize_schema conn fuel file p.store >>= λ (d, created).
      let p' = record p { store = d } in
      if created
      then (let (p'', loaded) =
            load_from_database bank db (record config { persistence = true }) p' in
          started true p'' loaded)
      else started true p' false

  unfoldable pub initialize : Postgres.Config → Persistent S D → Option (Outcome (Started S D) Bool)
  initialize db_config p = elim (connect pq (new_connection db_config p.store)) [
    | blocks ↦ some blocks
    | returns d connected ↦
        if connected
        then initialize_persistence (attached p d)
        else started false (attached p d) false
  ]

  -- Whatever the configuration, the schema file and the database, initialize never returns, since
  -- connect waits for a mutex that its own thread holds.
  pub initialize-blocks :
      (db_config : Postgres.Config) (p : Persistent S D) → initialize db_config p ≡ some blocks
  unfolding initialize
  initialize-blocks db_config p =
      rw ((connect-blocks pq (new_connection db_config p.store)).0, initialize) refl
