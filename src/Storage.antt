-- ===== src/Storage.antt =====
-- The `events` table and `StorageActor` of src/lib.rs. The channel to the network is what a step
-- hands on: `network_tx.send` fails only once the network actor is gone, and that is only logged.
pub mod Insert
use xaeroflux.Prelude.{ℕ, Option, none, some, [], ◌∷◌, ◌++◌, ltb, contains, if◌then◌else◌}
use xaeroflux.Event.{Event, ids}
use xaeroflux.Sqlite.{Statement, Sqlite}

-- INSERT OR IGNORE INTO events: the rows changed, and the tables. The primary key is the id.
unfoldable pub insert_event : Event → Statement ℕ
insert_event e t =
    if contains (ids t.events) e.id then (0, t) else (1, record t { events = t.events ++ e ∷ [] })

module _ (S : Sqlite) where
  open S use {Connection, execute}

  -- The branches on the statement's outcome.
  abbrev pub if_inserted : Option ℕ → Event → Option Event
  if_inserted none e = none
  if_inserted (some rows) e = if ltb 0 rows then some e else none

  -- One round of the loop of `StorageActor::run`: what goes to the network actor.
  unfoldable pub store_event : Event → Connection → Option Event × Connection
  unfolding insert_event
  store_event e c = let (rows, c') = execute (insert_event e) c in (if_inserted rows e, c')
