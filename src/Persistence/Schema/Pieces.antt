-- ===== src/Persistence/Schema/Pieces.antt =====
-- The statements of a schema file, in one pass, and the loop of executeSchemaFile against them.
use cloud_storage_system.Base.{
  ℕ, zero, suc, ◌<◌, ◌≡◌, refl, subst, if_elim, Bool, true, false, Option, none, some, List, [],
  ◌∷◌, ◌++◌, arith, ◌==◌, if◌then◌else◌, ◌>>=◌, Bool-cases, Option-cases, inl, inr,
}
use mathlib.Core.List.{append-nil, append_assoc}
use cloud_storage_system.Base.Lists.{length}
use cloud_storage_system.Base.Text.{Text}
use cloud_storage_system.Persistence.{Connection}
use cloud_storage_system.Persistence.Schema.{has_alnum, cut, execute_statements}

-- The texts that end at a semicolon, `stmt` being what was read of the first; what stands behind the
-- last semicolon is none.
unfoldable pub pieces : Text → Text → List Text
pieces stmt [] = []
pieces stmt (c ∷ cs) =
    let ended = stmt ∷ pieces [] cs in
    let longer = pieces (stmt ++ c ∷ []) cs in if c == b';' then ended else longer

-- Those with a letter or a digit are carried out, one after the other, until one fails.
module _ {D : Type 0} (conn : Connection D) where
  pub carry_out : List Text → D → D × Bool
  carry_out [] d = (d, true)
  carry_out (stmt ∷ rest) d = elim (has_alnum stmt) [
    | true ↦
        (let (d', ok) = conn.command stmt d in
          elim ok [ true ↦ carry_out rest d' | false ↦ (d', false) ])
    | false ↦ carry_out rest d
  ]

-- The pieces by the first semicolon.
abbrev pieces_by_cut : Text → Option (Text × Text) → List Text
pieces_by_cut stmt none = []
pieces_by_cut stmt (some (first, rest)) = (stmt ++ first) ∷ pieces [] rest

pieces_by_cut-grow :
    (stmt : Text) (c : ℕ) (o : Option (Text × Text))
    → pieces_by_cut (stmt ++ c ∷ []) o
      ≡ pieces_by_cut stmt (o >>= λ (first, rest). some (c ∷ first, rest))
pieces_by_cut-grow stmt c none = refl
pieces_by_cut-grow stmt c (some (first, rest)) = rw (append_assoc stmt (c ∷ []) first) refl

pieces-cut : (stmt sql : Text) → pieces stmt sql ≡ pieces_by_cut stmt (cut sql)
unfolding pieces cut
pieces-cut stmt [] = refl
pieces-cut stmt (c ∷ cs) = elim (Bool-cases (c == b';')) [
  | inl y ↦ rw (y, append-nil stmt) refl
  | inr n ↦ rw (n, pieces-cut (stmt ++ c ∷ []) cs) (pieces_by_cut-grow stmt c (cut cs))
]

-- What is left is shorter.
abbrev LeavesLess : Text → Option (Text × Text) → Type 0
LeavesLess sql none = Unit
LeavesLess sql (some (_, rest)) = length rest < length sql

LeavesLess-step :
    (c : ℕ) (cs : Text) (o : Option (Text × Text))
    → LeavesLess cs o
    → LeavesLess (c ∷ cs) (o >>= λ (first, rest). some (c ∷ first, rest))
LeavesLess-step c cs none h = tt
LeavesLess-step c cs (some (first, rest)) h = omega arith

cut-LeavesLess : (sql : Text) → LeavesLess sql (cut sql)
unfolding cut
cut-LeavesLess [] = tt
cut-LeavesLess (c ∷ cs) =
    if_elim (LeavesLess (c ∷ cs)) (c == b';') _ _ (λ _. omega arith)
      (λ _. LeavesLess-step c cs (cut cs) (cut-LeavesLess cs))

-- With a fuel above the length of the file, executeSchemaFile carries out the pieces that end at a
-- semicolon and have a letter or a digit, in their order, up to the first that fails, and answers
-- whether all succeeded. Quotes and comments do not matter to it.
pub execute_statements-carry_out :
    {D : Type 0} (conn : Connection D) (fuel : ℕ) (schema_sql : Text) (d : D)
    → length schema_sql < fuel
    → execute_statements conn fuel schema_sql d ≡ some (carry_out conn (pieces [] schema_sql) d)
unfolding execute_statements carry_out
execute_statements-carry_out conn zero sql d h = absurd (omega arith)
execute_statements-carry_out conn (suc f) sql d h = elim (Option-cases (cut sql)) [
  | inl e ↦ rw (pieces-cut [] sql, e, execute_statements) refl
  | inr ((stmt, rest), e) ↦
      let less = subst (LeavesLess sql) e (cut-LeavesLess sql) in
      rw (pieces-cut [] sql, e, execute_statements)
        (ground (
          arith,
          execute_statements-carry_out conn f rest d,
          execute_statements-carry_out conn f rest (conn.command stmt d).0,
        ))
]
