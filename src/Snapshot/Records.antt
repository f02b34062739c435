-- ===== src/Snapshot/Records.antt =====
-- The messages and the data of src/snapshot.rs. An i64 is a ℤ, an unsigned number a ℕ.
use xaeroflux.Prelude.{ℕ, String, Option, List}
use xaeroflux.Prelude.Int.{ℤ}

pub data SnapshotMessage : Type 0 where
  -- group_id, requester_node_id, since_ts
  request_snapshot : String → String → ℕ → SnapshotMessage
  -- group_id, provider_node_id, item_count, latest_ts
  snapshot_available : String → String → ℕ → ℕ → SnapshotMessage

pub record GroupData : Type 0 where
  pub id : String
  pub name : String
  pub icon : String
  pub color : String
  pub created_at : ℤ

pub record WorkspaceData : Type 0 where
  pub id : String
  pub group_id : String
  pub name : String
  pub created_at : ℤ

pub record BoardData : Type 0 where
  pub id : String
  pub workspace_id : String
  pub name : String
  pub board_mode : String
  pub created_at : ℤ

pub record FileData : Type 0 where
  pub id : String
  pub group_id : String
  pub workspace_id : Option String
  pub board_id : Option String
  pub name : String
  pub hash : String
  pub size : ℕ
  pub created_at : ℤ

pub record ChatData : Type 0 where
  pub id : String
  pub workspace_id : String
  pub message : String
  pub author : String
  pub parent_id : Option String
  pub timestamp : ℤ

pub record GroupSnapshot : Type 0 where
  pub group : GroupData
  pub workspaces : List WorkspaceData
  pub boards : List BoardData
  pub files : List FileData
  pub recent_chats : List ChatData
  pub snapshot_ts : ℕ
