-- ===== src/Postgres/Blocking.antt =====
-- What the mutex of PostgresConnection does to its operations.
use cloud_storage_system.Base.{
  Bool, false, ◌||◌, if◌then◌else◌, Bool-cases, ◌≡◌, refl, ◌∙◌, true, false, Option, none, List, [],
  ◌∷◌, inl, inr, if_elim, ap,
}
use cloud_storage_system.Base.Text.{Text}
use cloud_storage_system.Postgres.{
  checked, unlock, Libpq, Config, PostgresConnection, new_connection, returns, blocks, Call, ◌>>=◌,
  ◌>>◌, give, locked, run_exec, execute_query, execute_query_with_result, run_params,
  execute_parameterized_query, begin_transaction, end_transaction, commit_transaction,
  rollback_transaction, disconnect, set_session, open_connection, connect, connection_string,
  open_guard,
}

-- The calls of the class, in any order; what they answer does not matter here.
pub data PgCall : Type 0 where
  connects : PgCall
  disconnects : PgCall
  queries : Text → PgCall
  fetches : Text → PgCall
  executes : Text → List (Option Text) → PgCall
  begins : PgCall
  commits : PgCall
  rolls_back : PgCall

module _ {D A B : Type 0} (m : Call D A) (k : A → Call D B) {s : PostgresConnection D} where
  >>=-blocks : m s ≡ blocks → (m >>= k) s ≡ blocks
  >>=-blocks e = ap (λ o. elim o [ returns s' a ↦ k a s' | blocks ↦ blocks ]) e

  >>=-returns : {s' : PostgresConnection D} {a : A} → m s ≡ returns s' a → (m >>= k) s ≡ k a s'
  >>=-returns e = ap (λ o. elim o [ returns s' a ↦ k a s' | blocks ↦ blocks ]) e

module _ {D : Type 0} (pq : Libpq D) where
  -- What a call does while its own thread holds the mutex.
  abbrev within : PostgresConnection D → PostgresConnection D
  within s = record s { held = true }

  open_connection-within : (s : PostgresConnection D) → open_connection pq (within s) ≡ blocks
  unfolding open_connection set_session execute_query disconnect locked
  open_connection-within s =
      if_elim (λ o. o ≡ blocks) (pq.connect_db (connection_string s.config) s.database).1 _ _
        (λ _. refl) (λ _. refl)

  begin_transaction-blocks : (s : PostgresConnection D) → begin_transaction pq s ≡ blocks
  unfolding begin_transaction execute_query locked
  begin_transaction-blocks s = if_elim (λ o. o ≡ blocks) s.held _ _ (λ _. refl) (λ _. refl)

  -- Whatever libpq answers, and whatever the state, a call of connect never returns, and neither
  -- does the begin of a transaction nor the constructor of a TransactionGuard.
  pub connect-blocks :
      (s : PostgresConnection D)
      → (connect pq s ≡ blocks) × (begin_transaction pq s ≡ blocks) × (open_guard pq s ≡ blocks)
  unfolding connect open_guard disconnect locked
  connect-blocks s = (
    if_elim (λ o. o ≡ blocks) s.held _ _ (λ _. refl)
        (λ _.
          ap unlock (
            if_elim (λ o. o ≡ blocks) s.connection _ _ (λ _. refl)
              (λ _. open_connection-within s))),
    begin_transaction-blocks s,
    >>=-blocks (begin_transaction pq) _ (begin_transaction-blocks s),
  )

  unfoldable pub perform : PgCall → Call D (Unit {0})
  perform connects = connect pq >> give tt
  perform disconnects = disconnect pq
  perform (queries query) = execute_query pq query >> give tt
  perform (fetches query) = execute_query_with_result pq query >> give tt
  perform (executes query values) = execute_parameterized_query pq query values >> give tt
  perform begins = begin_transaction pq >> give tt
  perform commits = commit_transaction pq >> give tt
  perform rolls_back = rollback_transaction pq >> give tt

  unfoldable pub perform_all : List PgCall → Call D (Unit {0})
  perform_all [] = give tt
  perform_all (c ∷ cs) = perform c >> perform_all cs

  -- Whether one of the calls locks the mutex that it holds.
  unfoldable pub locks_twice : PgCall → Bool
  locks_twice connects = true
  locks_twice begins = true
  locks_twice _ = false

  unfoldable pub any_locks_twice : List PgCall → Bool
  any_locks_twice [] = false
  any_locks_twice (c ∷ cs) = locks_twice c || any_locks_twice cs

  perform-new :
      (c : PgCall) (config : Config) (d : D)
      → perform c (new_connection config d)
        ≡ (if locks_twice c then blocks else returns (new_connection config d) tt)
  unfolding perform locked disconnect execute_query execute_query_with_result
      execute_parameterized_query run_exec run_params checked commit_transaction
      rollback_transaction end_transaction locks_twice
  perform-new connects config d =
      >>=-blocks (connect pq) _ (connect-blocks (new_connection config d)).0
  perform-new disconnects config d = refl
  perform-new (queries query) config d = refl
  perform-new (fetches query) config d = refl
  perform-new (executes query values) config d = refl
  perform-new begins config d =
      >>=-blocks (begin_transaction pq) _ (begin_transaction-blocks (new_connection config d))
  perform-new commits config d = refl
  perform-new rolls_back config d = refl

  -- Any calls on a new connection, one after the other, never return if connect or the begin of a
  -- transaction is among them; otherwise they all return and leave the connection and the database as
  -- they were. In that state every statement is refused, with parameters or without.
  pub perform_all-refused :
      (cs : List PgCall) (config : Config) (d : D) (query : Text) (values : List (Option Text))
      → let s = new_connection config d in
        (perform_all cs s ≡ (if any_locks_twice cs then blocks else returns s tt))
        × (execute_query pq query s ≡ returns s false)
        × (execute_parameterized_query pq query values s ≡ returns s none)
  unfolding perform_all any_locks_twice locked execute_query run_exec checked
      execute_parameterized_query run_params
  perform_all-refused [] config d query values = (refl, refl, refl)
  perform_all-refused (c ∷ cs) config d query values = elim (Bool-cases (locks_twice c)) [
    | inl y ↦ (
      >>=-blocks (perform c) (λ _. perform_all cs) (perform-new c config d ∙ rw y refl) ∙ rw y refl,
      refl,
      refl,
    )
    | inr n ↦ (
      >>=-returns (perform c) (λ _. perform_all cs) (perform-new c config d ∙ rw n refl)
          ∙ (perform_all-refused cs config d query values).0
          ∙ rw n refl,
      refl,
      refl,
    )
  ]
