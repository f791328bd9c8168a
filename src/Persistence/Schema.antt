-- ===== src/Persistence/Schema.antt =====
-- initializeSchema and executeSchemaFile (database/banking_persistence.cpp).
pub mod Pieces
mod Tests
use cloud_storage_system.Base.{
  ℕ, zero, suc, Bool, true, false, ◌||◌, ◌&&◌, Option, none, some, List, [], ◌∷◌, leb, ◌==◌,
  if◌then◌else◌, ◌>>=◌,
}
use cloud_storage_system.Base.Text.{Text, text}
use cloud_storage_system.Persistence.{Connection, log_system_event}

-- std::isalnum on the bytes of ASCII.
unfoldable pub is_alnum : ℕ → Bool
is_alnum c =
    (leb b'0' c && leb c b'9') || ((leb b'A' c && leb c b'Z') || (leb b'a' c && leb c b'z'))

-- `!stmt.empty() && std::any_of(stmt.begin(), stmt.end(), ::isalnum)`
unfoldable pub has_alnum : Text → Bool
has_alnum [] = false
has_alnum (c ∷ cs) = is_alnum c || has_alnum cs

-- What stands before the first semicolon, and what is left when both are erased.
unfoldable pub cut : Text → Option (Text × Text)
cut [] = none
cut (c ∷ cs) =
    if c == b';' then some ([], cs) else (cut cs >>= λ (stmt, rest). some (c ∷ stmt, rest))

module _ {D : Type 0} (conn : Connection D) where
  -- The loop of executeSchemaFile, on fuel.
  unfoldable pub execute_statements : ℕ → Text → D → Option (D × Bool)
  execute_statements zero schema_sql d = none
  execute_statements (suc f) schema_sql d = elim (cut schema_sql) [
    | none ↦ some (d, true)
    | some (stmt, rest) ↦ elim (has_alnum stmt) [
      | true ↦
          (let (d', ok) = conn.command stmt d in
            elim ok [ true ↦ execute_statements f rest d' | false ↦ some (d', false) ])
      | false ↦ execute_statements f rest d
    ]
  ]

  -- The contents of the file, where it opens.
  unfoldable pub execute_schema_file : ℕ → Option Text → D → Option (D × Bool)
  execute_schema_file fuel none d = some (d, false)
  execute_schema_file fuel (some schema_sql) d = execute_statements fuel schema_sql d

  unfoldable pub initialize_schema : ℕ → Option Text → D → Option (D × Bool)
  initialize_schema fuel file d = execute_schema_file fuel file d >>= λ (d', executed).
      if executed
      then (let (d'', _) =
            log_system_event conn (text "DATABASE_INIT") (text "INFO")
              (text "Database schema initialized successfully") (text "persistence") [] d' in
          some (d'', true))
      else some (d', false)
