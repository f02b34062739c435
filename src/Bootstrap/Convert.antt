-- ===== src/Bootstrap/Convert.antt =====
-- `convert_network_event` of src/bin/xaeroflux_bootstrap.rs. `gen_id()` and `current_ts()` are arguments.
mod Arms
use xaeroflux.Prelude.{ℕ, String, Option, none, some}
use xaeroflux.Bootstrap.Records.{
  NetworkEvent, group_created, group_renamed, workspace_created, board_created, chat_sent,
  file_available, whiteboard_element_added, notebook_cell_added, notebook_cell_updated, RawEvent,
}
use xaeroflux.Bootstrap.Scope.{ScopeTracker, track_workspace, track_board, text_or}
pub use Arms.{Printer, content_json}
unfoldable pub use Arms.{
  group_or_topic, convert_group_created, convert_group_renamed, convert_workspace_created,
  convert_board_created, convert_chat_sent, convert_file_available, convert_whiteboard_element,
  convert_cell,
}

module _ (P : Printer) (new_id : String) (now : ℕ) where
  -- `topic` is the group id of the event's topic.
  unfoldable pub convert_network_event :
      {F : Type 0} → NetworkEvent F → String → ScopeTracker → Option RawEvent × ScopeTracker
  unfolding convert_board_created convert_chat_sent convert_cell
  convert_network_event (group_created g) topic t = (some (convert_group_created P new_id now g), t)
  convert_network_event (group_renamed id name) topic t =
      (some (convert_group_renamed P new_id now id name), t)
  convert_network_event (workspace_created ws) topic t =
      (some (convert_workspace_created P new_id now ws), track_workspace ws.id ws.group_id t)
  convert_network_event (board_created id workspace_id name created_at) topic t =
      let t' = track_board id workspace_id t in
      (some (convert_board_created P new_id now id workspace_id name created_at topic t'), t')
  convert_network_event (chat_sent id workspace_id message author parent_id timestamp) topic t = (
    some
        (convert_chat_sent P new_id now id workspace_id message author parent_id timestamp topic t),
    t,
  )
  convert_network_event
        (file_available id group_id workspace_id board_id name hash size source_peer created_at)
        topic t =
      (
        some (
            convert_file_available P new_id now id group_id workspace_id board_id name hash size
              source_peer created_at topic),
        t,
      )
  convert_network_event
        (whiteboard_element_added id board_id element_type x y width height z_index style_json
          content created_at updated_at)
        topic t =
      (
        some
            (convert_whiteboard_element P new_id now id board_id element_type content created_at t),
        t,
      )
  convert_network_event (notebook_cell_added id board_id cell_type cell_order content) topic t =
      (convert_cell P new_id now id board_id (text_or "" content) t, t)
  convert_network_event
        (notebook_cell_updated id board_id cell_type cell_order content output collapsed height
          metadata_json)
        topic t =
      (convert_cell P new_id now id board_id (text_or "" content) t, t)
  convert_network_event _ topic t = (none, t)
