-- ===== src/Snapshot/Provider.antt =====
-- `SnapshotProvider` of src/snapshot.rs. What serde makes of a JSON value at the four derived types
-- is a parameter.
use xaeroflux.Prelude.{
  ℕ, ◌+◌, ◌%◌, ◌^◌, String, Option, none, some, List, [], ◌∷◌, ◌++◌, leb, length, contains, ◌==◌,
  if◌then◌else◌,
}
use xaeroflux.Prelude.Int.{ℤ, pos}
use xaeroflux.Prelude.Dict.{Dict, lookup, insert}
use xaeroflux.Event.{Event}
use xaeroflux.Json.{Json, get_str}
use xaeroflux.Snapshot.Records.{
  SnapshotMessage, snapshot_available, GroupData, WorkspaceData, BoardData, FileData, ChatData,
  GroupSnapshot,
}

-- `serde_json::from_value` at these types.
pub record Decoders (V : Type 0) : Type 0 where
  pub group : V → Option GroupData
  pub workspace : V → Option WorkspaceData
  pub file : V → Option FileData
  pub chat : V → Option ChatData

-- The ids of the items of a snapshot.
abbrev pub workspace_ids : List WorkspaceData → List String
workspace_ids [] = []
workspace_ids (w ∷ ws) = w.id ∷ workspace_ids ws

abbrev pub board_ids : List BoardData → List String
board_ids [] = []
board_ids (b ∷ bs) = b.id ∷ board_ids bs

abbrev pub file_ids : List FileData → List String
file_ids [] = []
file_ids (f ∷ fs) = f.id ∷ file_ids fs

-- The snapshot of a group that no event has touched.
abbrev pub empty_snapshot : String → GroupSnapshot
empty_snapshot group_id = record {
  group = record { id = group_id; name = ""; icon = ""; color = ""; created_at = pos 0 };
  workspaces = [];
  boards = [];
  files = [];
  recent_chats = [];
  snapshot_ts = 0;
}

-- The branches of the match on the event's type, on what the payload decodes to.
unfoldable pub set_group : Option GroupData → GroupSnapshot → GroupSnapshot
set_group none s = s
set_group (some group) s = record s { group = group }

unfoldable pub add_workspace : Option WorkspaceData → GroupSnapshot → GroupSnapshot
add_workspace none s = s
add_workspace (some ws) s =
    if contains (workspace_ids s.workspaces) ws.id
    then s
    else record s { workspaces = s.workspaces ++ ws ∷ [] }

abbrev pub created_at_or_zero : Option ℤ → ℤ
created_at_or_zero none = pos 0
created_at_or_zero (some t) = t

unfoldable pub add_board :
    Option String → Option String → Option String → ℤ → GroupSnapshot → GroupSnapshot
add_board (some id) (some ws_id) (some name) created_at s =
    if contains (board_ids s.boards) id then s else record s {
      boards =
          s.boards
          ++ record {
            id = id;
            workspace_id = ws_id;
            name = name;
            board_mode = "freeform";
            created_at = created_at;
          }
            ∷ [];
    }
add_board _ _ _ created_at s = s

unfoldable pub add_file : Option FileData → GroupSnapshot → GroupSnapshot
add_file none s = s
add_file (some file) s =
    if contains (file_ids s.files) file.id then s else record s { files = s.files ++ file ∷ [] }

-- `remove(0)` of a list that is not empty.
abbrev pub rest_of : List ChatData → List ChatData
rest_of [] = []
rest_of (c ∷ cs) = cs

-- Only the last 100 chats are kept.
unfoldable pub push_chat : List ChatData → ChatData → List ChatData
push_chat chats chat = (if leb 100 (length chats) then rest_of chats else chats) ++ chat ∷ []

unfoldable pub add_chat : Option ChatData → GroupSnapshot → GroupSnapshot
add_chat none s = s
add_chat (some chat) s = record s { recent_chats = push_chat s.recent_chats chat }

-- `entry(group_id).or_insert_with(…)`
abbrev pub snapshot_or_empty : String → Option GroupSnapshot → GroupSnapshot
snapshot_or_empty group_id none = empty_snapshot group_id
snapshot_or_empty group_id (some s) = s

module _ (J : Json) (D : Decoders J.Value) where
  -- `parsed.get("created_at").and_then(|v| v.as_i64())`
  abbrev pub then_i64 : Option J.Value → Option ℤ
  then_i64 none = none
  then_i64 (some v) = J.as_i64 v

  -- The match on the type of the event.
  unfoldable pub apply_typed : String → J.Value → GroupSnapshot → GroupSnapshot
  apply_typed event_type parsed s =
      if event_type == "GroupCreated"
      then set_group (D.group parsed) s
      else if event_type == "WorkspaceCreated"
      then add_workspace (D.workspace parsed) s
      else if event_type == "BoardCreated"
      then add_board (get_str J parsed "id") (get_str J parsed "workspace_id")
          (get_str J parsed "name") (created_at_or_zero (then_i64 (J.get parsed "created_at"))) s
      else if event_type == "FileAvailable"
      then add_file (D.file parsed) s
      else if event_type == "ChatSent"
      then add_chat (D.chat parsed) s
      else s

  abbrev pub apply_type : Option String → J.Value → GroupSnapshot → GroupSnapshot
  apply_type none parsed s = s
  apply_type (some event_type) parsed s = apply_typed event_type parsed s

  abbrev pub apply_parsed : Option J.Value → GroupSnapshot → GroupSnapshot
  apply_parsed none s = s
  apply_parsed (some parsed) s = apply_type (get_str J parsed "type") parsed s

  -- What an event does to its group's snapshot.
  unfoldable pub update_snapshot : Event → GroupSnapshot → GroupSnapshot
  update_snapshot event s = record (apply_parsed (J.from_str event.payload) s) {
    snapshot_ts = event.ts;
  }

  unfoldable pub update_from_event : String → Event → Dict GroupSnapshot → Dict GroupSnapshot
  update_from_event group_id event snapshots =
      insert group_id
        (update_snapshot event (snapshot_or_empty group_id (lookup group_id snapshots))) snapshots

module _ (J : Json) (D : Decoders J.Value) where
  -- The events of a run, each with its group, in order.
  unfoldable pub update_all : List (String × Event) → Dict GroupSnapshot → Dict GroupSnapshot
  update_all [] d = d
  update_all ((g, e) ∷ events) d = update_all events (update_from_event J D g e d)

unfoldable pub get_snapshot : Dict GroupSnapshot → String → Option GroupSnapshot
get_snapshot snapshots group_id = lookup group_id snapshots

-- Sums of u32, as a release build computes them.
unfoldable pub item_count : GroupSnapshot → ℕ
item_count s =
    (1
      + length s.workspaces % 2 ^ 32
      + length s.boards % 2 ^ 32
      + length s.files % 2 ^ 32
      + length s.recent_chats % 2 ^ 32)
    % 2 ^ 32

abbrev pub answer : String → String → Option GroupSnapshot → Option SnapshotMessage
answer node_id group_id none = none
answer node_id group_id (some s) =
    some (snapshot_available group_id node_id (item_count s) s.snapshot_ts)

-- `node_id` is the provider's.
unfoldable pub handle_request : String → Dict GroupSnapshot → String → Option SnapshotMessage
handle_request node_id snapshots group_id = answer node_id group_id (lookup group_id snapshots)
