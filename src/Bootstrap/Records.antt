-- ===== src/Bootstrap/Records.antt =====
-- The events of groups and the raw events of src/bin/xaeroflux_bootstrap.rs. `F` stands for f64, which
-- the program only passes on.
use xaeroflux.Prelude.{ℕ, ◌-◌, ◌%◌, ◌^◌, String, Bool, Option, List}
use xaeroflux.Prelude.Int.{ℤ, pos, negsuc}

pub record Group : Type 0 where
  pub id : String
  pub name : String
  pub icon : String
  pub color : String
  pub created_at : ℤ

pub record Workspace : Type 0 where
  pub id : String
  pub group_id : String
  pub name : String
  pub created_at : ℤ

pub data NetworkEvent (F : Type 0) : Type 0 where
  -- source, group_id
  group_snapshot_available : String → String → NetworkEvent F
  group_created : Group → NetworkEvent F
  -- id, name
  group_renamed : String → String → NetworkEvent F
  -- id
  group_deleted : String → NetworkEvent F
  -- id
  group_dissolved : String → NetworkEvent F
  workspace_created : Workspace → NetworkEvent F
  -- id, name
  workspace_renamed : String → String → NetworkEvent F
  -- id
  workspace_deleted : String → NetworkEvent F
  -- id
  workspace_dissolved : String → NetworkEvent F
  -- id, workspace_id, name, created_at
  board_created : String → String → String → ℤ → NetworkEvent F
  -- id, name
  board_renamed : String → String → NetworkEvent F
  -- id
  board_deleted : String → NetworkEvent F
  -- id
  board_dissolved : String → NetworkEvent F
  -- id, group_id, workspace_id, board_id, name, hash, size, source_peer, created_at
  file_available :
      String
      → Option String
      → Option String
      → Option String
      → String
      → String
      → ℕ
      → String
      → ℤ
      → NetworkEvent F
  -- id, workspace_id, message, author, parent_id, timestamp
  chat_sent : String → String → String → String → Option String → ℤ → NetworkEvent F
  -- id
  chat_deleted : String → NetworkEvent F
  -- id, board_id, element_type, x, y, width, height, z_index, style_json, content_json, created_at, updated_at
  whiteboard_element_added :
      String
      → String
      → String
      → F
      → F
      → F
      → F
      → ℤ
      → Option String
      → Option String
      → ℤ
      → ℤ
      → NetworkEvent F
  -- id, board_id, element_type, x, y, width, height, z_index, style_json, content_json, updated_at
  whiteboard_element_updated :
      String
      → String
      → String
      → F
      → F
      → F
      → F
      → ℤ
      → Option String
      → Option String
      → ℤ
      → NetworkEvent F
  -- id, board_id
  whiteboard_element_deleted : String → String → NetworkEvent F
  -- board_id
  whiteboard_cleared : String → NetworkEvent F
  -- id, board_id, cell_type, cell_order, content
  notebook_cell_added : String → String → String → ℤ → Option String → NetworkEvent F
  -- id, board_id, cell_type, cell_order, content, output, collapsed, height, metadata_json
  notebook_cell_updated :
      String
      → String
      → String
      → ℤ
      → Option String
      → Option String
      → Bool
      → Option F
      → Option String
      → NetworkEvent F
  -- id, board_id
  notebook_cell_deleted : String → String → NetworkEvent F
  -- board_id, cell_ids
  notebook_cells_reordered : String → List String → NetworkEvent F
  -- board_id, mode
  board_mode_changed : String → String → NetworkEvent F
  -- board_id, labels, rating, contains_model, contains_skills
  board_metadata_updated : String → List String → ℤ → Option String → List String → NetworkEvent F
  -- board_id, labels
  board_labels_updated : String → List String → NetworkEvent F
  -- board_id, rating
  board_rated : String → ℤ → NetworkEvent F
  -- node_id, display_name, avatar_hash
  profile_updated : String → String → Option String → NetworkEvent F

-- `ts` and `captured_at` are u64.
pub record RawEvent : Type 0 where
  pub id : String
  pub group_id : String
  pub workspace_id : String
  pub source : String
  pub content_kind : String
  pub external_id : String
  pub content : String
  pub author_id : String
  pub author_name : String
  pub url : String
  pub title : Option String
  pub thread_id : Option String
  pub parent_id : Option String
  pub ts : ℕ
  pub captured_at : ℕ

-- `n as u64` of an i64.
unfoldable pub as_u64 : ℤ → ℕ
as_u64 (pos n) = n % 2 ^ 64
as_u64 (negsuc n) = 2 ^ 64 - 1 - n % 2 ^ 64
