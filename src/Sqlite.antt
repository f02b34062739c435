-- ===== src/Sqlite.antt =====
-- The SQLite database of src/lib.rs as its two actors see it: two tables, and a connection that
-- runs one statement at a time. The engine itself (rusqlite) is a parameter: what a statement means
-- is a function on the tables, and the engine either runs it whole or reports an error and leaves
-- the tables as they were. `Sqlite.Memory` has an engine that does so.
pub mod Memory
use xaeroflux.Prelude.{String, ◌≡◌, ◌≢◌, ◌⊎◌, Bool, Option, none, some, List}
use xaeroflux.Prelude.Int.{ℤ}
use xaeroflux.Event.{Event}

-- A row of `group_peers`; its primary key is the pair of the first two columns.
pub record PeerRow : Type 0 where
  pub group_id : String
  pub peer_id : String
  pub first_seen : ℤ
  pub last_seen : ℤ
  pub is_online : Bool

-- The tables of `ensure_schema`. `events` has the primary key `id`.
pub record Tables : Type 0 where
  pub events : List Event
  pub group_peers : List PeerRow

-- A statement: its result, and the tables after it.
abbrev pub Statement : Type 0 → Type 0
Statement R = Tables → R × Tables

-- What is assumed of rusqlite: a statement runs as a whole, or fails and changes nothing.
pub record Sqlite : Type 1 where
  pub Connection : Type 0
  pub tables : Connection → Tables
  pub execute : {R : Type 0} → Statement R → Connection → Option R × Connection
  pub execute_lem :
      {R : Type 0} (stmt : Statement R) (c : Connection)
      → (((execute stmt c).0 ≡ none) × (tables (execute stmt c).1 ≡ tables c))
        ⊎ (((execute stmt c).0 ≡ some (stmt (tables c)).0)
            × (tables (execute stmt c).1 ≡ (stmt (tables c)).1))

-- An engine on which no statement fails.
pub record NeverFails (S : Sqlite) : Type 1 where
  pub runs : {R : Type 0} (stmt : Statement R) (c : S.Connection) → (S.execute stmt c).0 ≢ none
