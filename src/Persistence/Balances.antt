-- ===== src/Persistence/Balances.antt =====
-- Balance events, merges and the analytics of BankingPersistence (database/banking_persistence.cpp).
use cloud_storage_system.Base.{
  ℕ, zero, suc, Bool, true, false, Option, none, some, List, [], ◌∷◌, ◌>>=◌,
}
use cloud_storage_system.Base.Int.{ℤ, pos, leb_ℤ}
use cloud_storage_system.Base.Text.{Text, to_string}
use cloud_storage_system.Base.Text.Stoi.{stoi}
use cloud_storage_system.Base.Dict.{Dict, insert}
use cloud_storage_system.Persistent.Store.{BalanceEvent}
use cloud_storage_system.Persistence.{Connection, cell, accepted, read_result, read_first}
use cloud_storage_system.Persistence.Statements.{
  insert_event, select_events, select_sum, insert_merge, deactivate, select_merge, select_spenders,
  select_creations,
}

unfoldable pub event_of_row : List Text → Option BalanceEvent
event_of_row row = do
  timestamp ← stoi (cell 0 row)
  balance_delta ← stoi (cell 1 row)
  some (record { timestamp = timestamp; balance_delta = balance_delta; event_type = cell 2 row })

-- SUM of no rows is NULL, which reads as the empty text.
unfoldable pub sum_of_row : List Text → Option ℤ
sum_of_row row = elim (cell 0 row) [ [] ↦ some (pos 0) | c ∷ cs ↦ stoi (c ∷ cs) ]

unfoldable pub named_number : List Text → Option (Text × ℤ)
named_number row = do number ← stoi (cell 1 row); some (cell 0 row, number)

-- creation_times[account_id] = created_at, for the rows in their order.
unfoldable pub collect_times : List (Text × ℤ) → Dict ℤ → Dict ℤ
collect_times [] m = m
collect_times ((account_id, created_at) ∷ rest) m =
    collect_times rest (insert account_id created_at m)

module _ {D : Type 0} (conn : Connection D) where
  unfoldable pub save_balance_event : Text → BalanceEvent → D → D × Bool
  save_balance_event account_id event d = accepted (
      conn.query_params insert_event
        (some account_id
          ∷ some (to_string event.timestamp)
          ∷ some (to_string event.balance_delta)
          ∷ some event.event_type
          ∷ [])
        d)

  unfoldable pub get_balance_events : Text → ℤ → ℤ → D → D × List BalanceEvent
  get_balance_events account_id start_time end_time d =
      let (d', result) =
        conn.query_params select_events
          (some account_id ∷ some (to_string start_time) ∷ some (to_string end_time) ∷ []) d in
      (d', read_result event_of_row result)

  unfoldable pub save_account_merge : Text → Text → ℤ → ℤ → D → D × Bool
  save_account_merge child_account_id parent_account_id merge_timestamp balance_transferred d =
      let (d', result) =
        conn.query_params insert_merge
          (some child_account_id
            ∷ some parent_account_id
            ∷ some (to_string merge_timestamp)
            ∷ some (to_string balance_transferred)
            ∷ [])
          d in
      elim result [
        | none ↦ (d', false)
        | some _ ↦ accepted (conn.query_params deactivate (some child_account_id ∷ []) d')
      ]

  unfoldable pub get_account_merge_info : Text → D → D × Option (Text × ℤ)
  get_account_merge_info account_id d =
      let (d', result) = conn.query_params select_merge (some account_id ∷ []) d in
      (d', read_first named_number result)

  -- On fuel; there is no result where the fuel runs out.
  unfoldable pub resolve_account_at_time : ℕ → Text → ℤ → D → Option (D × Text)
  resolve_account_at_time zero account_id time_at d = none
  resolve_account_at_time (suc f) account_id time_at d =
      let (d', merge_info) = get_account_merge_info account_id d in
      elim merge_info [
        | none ↦ some (d', account_id)
        | some (parent, merged_at) ↦ elim (leb_ℤ merged_at time_at) [
          | true ↦ resolve_account_at_time f parent time_at d'
          | false ↦ some (d', account_id)
        ]
      ]

  unfoldable pub balance_of_events : Text → ℤ → D → D × Option ℤ
  balance_of_events resolved_account time_at d =
      let (d', result) =
        conn.query_params select_sum (some resolved_account ∷ some (to_string time_at) ∷ []) d in
      (d', read_first sum_of_row result)

  unfoldable pub get_balance_at_time : ℕ → Text → ℤ → D → Option (D × Option ℤ)
  get_balance_at_time fuel account_id time_at d =
      resolve_account_at_time fuel account_id time_at d >>= λ (d', resolved_account).
      some (balance_of_events resolved_account time_at d')

  unfoldable pub get_top_spenders : ℤ → D → D × List (Text × ℤ)
  get_top_spenders limit d =
      let (d', result) = conn.query_params select_spenders (some (to_string limit) ∷ []) d in
      (d', read_result named_number result)

  unfoldable pub get_account_creation_times : D → D × Dict ℤ
  get_account_creation_times d =
      let (d', result) = conn.query select_creations d in
      (d', collect_times (read_result named_number result) [])
