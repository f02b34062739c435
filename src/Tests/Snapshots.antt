-- ===== src/Tests/Snapshots.antt =====
-- The snapshots of a provider (Snapshot/) after a few events.
use xaeroflux.Prelude.{
  ℕ, String, ◌≡◌, refl, true, false, none, some, List, [], ◌∷◌, arith, if◌then◌else◌, string_dec,
}
use xaeroflux.Prelude.Int.{pos}
use xaeroflux.Prelude.Dict.{lookup, insert}
use xaeroflux.Event.{Event}
use xaeroflux.Json.{get_str}
use xaeroflux.Snapshot.Records.{WorkspaceData, ChatData}
use xaeroflux.Snapshot.Provider.{
  Decoders, apply_typed, add_workspace, update_snapshot, update_from_event, update_all,
  get_snapshot, empty_snapshot,
}
use xaeroflux.Snapshot.Contents.{AllWellFormed, update_all-AllWellFormed}
use xaeroflux.Snapshot.Recent.{last_100, push_all, push_all-last_100}
use xaeroflux.Snapshot.Requester.{needs_snapshot, mark_synced}
use xaeroflux.Snapshot.Decisions.{needs_snapshot_ahead}
use xaeroflux.Tests.Fixtures.{Value, flat}

abbrev design : WorkspaceData
design = record { id = "w1"; group_id = "g1"; name = "Design"; created_at = pos 3 }

abbrev hi : ChatData
hi = record {
  id = "c1";
  workspace_id = "w1";
  message = "hi";
  author = "ann";
  parent_id = none;
  timestamp = pos 4;
}

abbrev decoders : Decoders Value
decoders = record {
  group = λ v. none;
  workspace = λ v. some design;
  file = λ v. none;
  chat = λ v. some hi;
}

-- The payload is the type of the event, for the test's JSON.
abbrev event_of : String → ℕ → Event
event_of payload ts = record { id = payload; payload = payload; source = "p"; ts = ts }

abbrev history : List (String × Event)
history =
    ("g1", event_of "WorkspaceCreated" 5)
    ∷ ("g1", event_of "WorkspaceCreated" 6)
    ∷ ("g2", event_of "ChatSent" 7)
    ∷ ("g1", event_of "Unknown" 4)
    ∷ []

-- The second workspace has the id of the first, and the time is the last event's.
get_snapshot_test :
    get_snapshot (update_all flat decoders history []) "g1"
    ≡ some (record (empty_snapshot "g1") { workspaces = design ∷ []; snapshot_ts = 4 })
unfolding get_snapshot update_all update_from_event update_snapshot lookup insert string_dec get_str
    apply_typed add_workspace
get_snapshot_test = refl

update_all-AllWellFormed_example : AllWellFormed (update_all flat decoders history [])
update_all-AllWellFormed_example = update_all-AllWellFormed flat decoders history [] tt

push_all-last_100_example : push_all [] (hi ∷ hi ∷ []) ≡ last_100 (hi ∷ hi ∷ [])
push_all-last_100_example = push_all-last_100 (hi ∷ hi ∷ [])

needs_snapshot_ahead_example :
    needs_snapshot false 1000 (mark_synced "g1" 1001 []) "g1" ≡ (if false then none else some true)
needs_snapshot_ahead_example =
    needs_snapshot_ahead false 1000 1001 "g1" [] (omega arith) (omega arith)
