-- ===== src/Persistence/Statements.antt =====
-- The SQL statements of banking_persistence.cpp, with one blank for each stretch of white space.
use cloud_storage_system.Base.{◌++◌}
use cloud_storage_system.Base.Text.{Text, text}

unfoldable pub insert_account : Text
insert_account =
    text "INSERT INTO accounts (account_id, balance) VALUES ($1, $2) ON CONFLICT "
    ++ text "(account_id) DO NOTHING"

unfoldable pub insert_creation : Text
insert_creation =
    text "INSERT INTO balance_events (account_id, timestamp, balance_delta, "
    ++ text "event_type) VALUES ($1, CURRENT_TIMESTAMP, $2, 'CREATION')"

unfoldable pub select_active : Text
select_active = text "SELECT 1 FROM accounts WHERE account_id = $1 AND is_active = TRUE"

unfoldable pub select_balance : Text
select_balance = text "SELECT balance FROM accounts WHERE account_id = $1 AND is_active = TRUE"

unfoldable pub update_balance : Text
update_balance =
    text "UPDATE accounts SET balance = $2, updated_at = CURRENT_TIMESTAMP WHERE "
    ++ text "account_id = $1 AND is_active = TRUE"

unfoldable pub insert_transaction : Text
insert_transaction =
    text "INSERT INTO transactions ( id, account_id, transaction_type, amount, "
    ++ (text "balance_before, balance_after, timestamp, reference_id, description, "
        ++ (text "metadata ) VALUES ( COALESCE($1, uuid_generate_v4()), $2, "
            ++ text "$3::transaction_type, $4, $5, $6, TO_TIMESTAMP($7), $8, $9, $10::jsonb )"))

unfoldable pub select_transactions : Text
select_transactions =
    text "SELECT id, account_id, transaction_type::text, amount, balance_before, "
    ++ (text "balance_after, EXTRACT(epoch FROM timestamp)::int as timestamp, "
        ++ (text "COALESCE(reference_id, '') as reference_id, COALESCE(description, '') as "
            ++ (text "description FROM transactions WHERE account_id = $1 ORDER BY timestamp DESC "
                ++ text "LIMIT $2 OFFSET $3")))

unfoldable pub select_outgoing : Text
select_outgoing =
    text "SELECT COALESCE(SUM(amount), 0)::int as total_outgoing FROM transactions "
    ++ (text "WHERE account_id = $1 AND transaction_type IN ('WITHDRAWAL', "
        ++ text "'TRANSFER_SEND', 'PAYMENT_PROCESSED')")

unfoldable pub insert_payment : Text
insert_payment =
    text "INSERT INTO scheduled_payments ( payment_id, account_id, amount, "
    ++ (text "due_timestamp, creation_order ) VALUES ($1, $2, $3, TO_TIMESTAMP($4), $5) ON "
        ++ text "CONFLICT (payment_id) DO NOTHING")

unfoldable pub select_payment : Text
select_payment =
    text "SELECT payment_id, account_id, amount, EXTRACT(epoch FROM "
    ++ (text "due_timestamp)::int as due_timestamp, EXTRACT(epoch FROM created_at)::int as "
        ++ (text "created_at, is_canceled, is_processed, CASE WHEN processing_timestamp IS NOT "
            ++ (text "NULL THEN EXTRACT(epoch FROM processing_timestamp)::int ELSE 0 END as "
                ++ (text "processing_timestamp, creation_order FROM scheduled_payments WHERE "
                    ++ text "payment_id = $1"))))

unfoldable pub set_processed : Text
set_processed =
    text "UPDATE scheduled_payments SET is_processed = TRUE, processing_timestamp = "
    ++ text "TO_TIMESTAMP($2) WHERE payment_id = $1 AND NOT is_processed"

unfoldable pub set_canceled : Text
set_canceled =
    text "UPDATE scheduled_payments SET is_canceled = TRUE WHERE payment_id = $1 AND "
    ++ text "NOT is_processed AND NOT is_canceled"

unfoldable pub select_due : Text
select_due =
    text "SELECT payment_id, account_id, amount, EXTRACT(epoch FROM "
    ++ (text "due_timestamp)::int as due_timestamp, EXTRACT(epoch FROM created_at)::int as "
        ++ (text "created_at, is_canceled, is_processed, creation_order FROM "
            ++ (text "scheduled_payments WHERE due_timestamp <= TO_TIMESTAMP($1) AND NOT "
                ++ text "is_canceled AND NOT is_processed ORDER BY creation_order")))

unfoldable pub insert_event : Text
insert_event =
    text "INSERT INTO balance_events (account_id, timestamp, balance_delta, "
    ++ text "event_type) VALUES ($1, TO_TIMESTAMP($2), $3, $4)"

unfoldable pub select_events : Text
select_events =
    text "SELECT EXTRACT(epoch FROM timestamp)::int as timestamp, balance_delta, "
    ++ (text "event_type FROM balance_events WHERE account_id = $1 AND timestamp >= "
        ++ text "TO_TIMESTAMP($2) AND timestamp <= TO_TIMESTAMP($3) ORDER BY timestamp")

unfoldable pub select_sum : Text
select_sum =
    text "SELECT SUM(balance_delta) as balance FROM balance_events WHERE account_id = "
    ++ text "$1 AND timestamp <= TO_TIMESTAMP($2)"

unfoldable pub insert_merge : Text
insert_merge =
    text "INSERT INTO account_merges (child_account_id, parent_account_id, "
    ++ text "merge_timestamp, balance_transferred) VALUES ($1, $2, TO_TIMESTAMP($3), $4)"

unfoldable pub deactivate : Text
deactivate = text "UPDATE accounts SET is_active = FALSE WHERE account_id = $1"

unfoldable pub select_merge : Text
select_merge =
    text "SELECT parent_account_id, EXTRACT(epoch FROM merge_timestamp)::int as "
    ++ (text "merge_timestamp FROM account_merges WHERE child_account_id = $1 ORDER BY "
        ++ text "merge_timestamp DESC LIMIT 1")

unfoldable pub select_spenders : Text
select_spenders =
    text "SELECT account_id, total_outgoing FROM account_summary WHERE is_active = "
    ++ text "TRUE ORDER BY total_outgoing DESC, account_id ASC LIMIT $1"

unfoldable pub select_creations : Text
select_creations =
    text "SELECT account_id, EXTRACT(epoch FROM created_at)::int as created_at FROM "
    ++ text "accounts"

unfoldable pub insert_alert : Text
insert_alert =
    text "INSERT INTO fraud_alerts ( account_id, transaction_id, risk_score, "
    ++ (text "risk_factors, recommendation, confidence_level ) VALUES ($1, $2, $3, $4, $5, "
        ++ text "$6)")

unfoldable pub insert_system_event : Text
insert_system_event =
    text "INSERT INTO system_events (event_type, severity, message, component, "
    ++ text "correlation_id) VALUES ($1, $2, $3, $4, $5)"
