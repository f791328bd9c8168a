-- ===== src/Persistence/Schema/Tests.antt =====
-- A schema file with the body of a function, as database/schema.sql has them.
use cloud_storage_system.Base.{◌≡◌, refl, true, none, some, List, [], ◌∷◌, ◌++◌, arith}
use cloud_storage_system.Base.Text.{Text, text}
use cloud_storage_system.Persistence.{Connection}
use cloud_storage_system.Persistence.Schema.{execute_statements}
use cloud_storage_system.Persistence.Schema.Pieces.{pieces, carry_out, execute_statements-carry_out}

-- It keeps the statements that it is sent.
abbrev listening : Connection (List Text)
listening = record {
  query = λ query d. (d, none);
  query_params = λ query values d. (d, none);
  command = λ command d. (d ++ command ∷ [], true);
  begin_transaction = λ d. (d, true);
  commit_transaction = λ d. (d, true);
  rollback_transaction = λ d. (d, true);
}

abbrev schema_sql : Text
schema_sql = text "AS $$ BEGIN f(); RETURN NEW; END; $$ ; --"

-- The body is cut at its semicolons.
schema_pieces :
    pieces [] schema_sql
    ≡ text "AS $$ BEGIN f()" ∷ text " RETURN NEW" ∷ text " END" ∷ text " $$ " ∷ []
unfolding pieces
schema_pieces = refl

execute_statements-carry_out_example :
    execute_statements listening 99 schema_sql []
    ≡ some (carry_out listening (pieces [] schema_sql) [])
execute_statements-carry_out_example =
    execute_statements-carry_out listening 99 schema_sql [] (omega arith)
