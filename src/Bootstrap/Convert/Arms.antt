-- ===== src/Bootstrap/Convert/Arms.antt =====
-- The arms of `convert_network_event` of src/bin/xaeroflux_bootstrap.rs that give a raw event, one by one. JSON's
-- values and its printer are a parameter.
use Prim.Native.String.{◌++◌ as ◌<>◌}
use xaeroflux.Prelude.{ℕ, String, Option, none, some, List, [], ◌∷◌, if◌then◌else◌}
use xaeroflux.Prelude.Int.{ℤ}
use xaeroflux.Prelude.Dict.{Dict, insert}
use xaeroflux.Bootstrap.Texts.{is_blank}
use xaeroflux.Bootstrap.Records.{Group, Workspace, RawEvent, as_u64}
use xaeroflux.Bootstrap.Scope.{ScopeTracker, get_group_for_workspace, text_or, get_scope_for_board}

-- serde_json: the values of texts, optional texts and numbers, and an object's text.
pub record Printer : Type 1 where
  pub Value : Type 0
  pub text : String → Value
  pub optional : Option String → Value
  pub number : ℕ → Value
  pub print : Dict Value → String

module _ (P : Printer) where
  -- The entries of the map, in the order of their insertion.
  abbrev from_pairs : List (String × P.Value) → Dict P.Value → Dict P.Value
  from_pairs [] m = m
  from_pairs ((k, v) ∷ pairs) m = from_pairs pairs (insert k v m)

  unfoldable pub content_json : List (String × P.Value) → String
  content_json pairs = P.print (from_pairs pairs [])

-- What the raw events of all kinds have in common: no author, url, title, thread or parent.
abbrev raw_event : String → ℕ → RawEvent
raw_event new_id now = record {
  id = new_id;
  group_id = "";
  workspace_id = "";
  source = "cyan";
  content_kind = "";
  external_id = "";
  content = "";
  author_id = "";
  author_name = "";
  url = "";
  title = none;
  thread_id = none;
  parent_id = none;
  ts = now;
  captured_at = now;
}

-- The group of a workspace, or else the topic's.
unfoldable pub group_or_topic : String → String → ScopeTracker → String
group_or_topic topic workspace_id t = text_or topic (get_group_for_workspace t workspace_id)

module _ (P : Printer) (new_id : String) (now : ℕ) where
  unfoldable pub convert_group_created : Group → RawEvent
  convert_group_created g = record (raw_event new_id now) {
    group_id = g.id;
    content_kind = "cyan_group";
    external_id = g.id;
    content = content_json P (
        ("action", P.text "created")
        ∷ ("name", P.text g.name)
        ∷ ("icon", P.text g.icon)
        ∷ ("color", P.text g.color)
        ∷ []);
    title = some ("Group created: " <> g.name);
    ts = as_u64 g.created_at;
  }

  unfoldable pub convert_group_renamed : String → String → RawEvent
  convert_group_renamed id name = record (raw_event new_id now) {
    group_id = id;
    content_kind = "cyan_group";
    external_id = id;
    content = content_json P (("action", P.text "renamed") ∷ ("name", P.text name) ∷ []);
    title = some ("Group renamed: " <> name);
  }

  unfoldable pub convert_workspace_created : Workspace → RawEvent
  convert_workspace_created ws = record (raw_event new_id now) {
    group_id = ws.group_id;
    workspace_id = ws.id;
    content_kind = "cyan_workspace";
    external_id = ws.id;
    content = content_json P (("action", P.text "created") ∷ ("name", P.text ws.name) ∷ []);
    title = some ("Workspace created: " <> ws.name);
    ts = as_u64 ws.created_at;
  }

  unfoldable pub convert_board_created :
      String → String → String → ℤ → String → ScopeTracker → RawEvent
  unfolding group_or_topic
  convert_board_created id workspace_id name created_at topic t = record (raw_event new_id now) {
    group_id = group_or_topic topic workspace_id t;
    workspace_id = workspace_id;
    source = "cyan_board";
    content_kind = "cyan_board";
    external_id = id;
    content =
        content_json P
          (("action", P.text "created") ∷ ("name", P.text name) ∷ ("board_id", P.text id) ∷ []);
    title = some ("Board created: " <> name);
    ts = as_u64 created_at;
  }

  unfoldable pub convert_chat_sent :
      String → String → String → String → Option String → ℤ → String → ScopeTracker → RawEvent
  convert_chat_sent id workspace_id message author parent_id timestamp topic t =
      record (raw_event new_id now) {
        group_id = group_or_topic topic workspace_id t;
        workspace_id = workspace_id;
        source = "cyan_chat";
        content_kind = "cyan_chat";
        external_id = id;
        content = message;
        author_id = author;
        author_name = author;
        parent_id = parent_id;
        ts = as_u64 timestamp;
      }

  unfoldable pub convert_file_available :
      String
      → Option String
      → Option String
      → Option String
      → String
      → String
      → ℕ
      → String
      → ℤ
      → String
      → RawEvent
  convert_file_available id group_id workspace_id board_id name hash size source_peer created_at
        topic =
      record (raw_event new_id now) {
        group_id = text_or topic group_id;
        workspace_id = text_or "" workspace_id;
        source = "cyan_file";
        content_kind = "cyan_file";
        external_id = id;
        content = content_json P (
            ("filename", P.text name)
            ∷ ("hash", P.text hash)
            ∷ ("size", P.number size)
            ∷ ("board_id", P.optional board_id)
            ∷ ("source_peer", P.text source_peer)
            ∷ []);
        author_id = source_peer;
        author_name = source_peer;
        title = some name;
        ts = as_u64 created_at;
      }

  unfoldable pub convert_whiteboard_element :
      String → String → String → Option String → ℤ → ScopeTracker → RawEvent
  convert_whiteboard_element id board_id element_type content created_at t =
      let (group_id, workspace_id) = get_scope_for_board t board_id in
      record (raw_event new_id now) {
        group_id = group_id;
        workspace_id = workspace_id;
        source = "cyan_whiteboard";
        content_kind = "cyan_whiteboard_element";
        external_id = id;
        content = content_json P (
            ("action", P.text "added")
            ∷ ("board_id", P.text board_id)
            ∷ ("element_type", P.text element_type)
            ∷ ("content", P.optional content)
            ∷ []);
        thread_id = some board_id;
        ts = as_u64 created_at;
      }

  -- What makes no raw event, or one with the given scope.
  unfoldable pub convert_cell : String → String → String → ScopeTracker → Option RawEvent
  convert_cell id board_id content t =
      let (group_id, workspace_id) = get_scope_for_board t board_id in
      if is_blank content
      then none
      else some (record (raw_event new_id now) {
        group_id = group_id;
        workspace_id = workspace_id;
        source = "cyan_notebook";
        content_kind = "cyan_notebook_cell";
        external_id = id;
        content = content;
        thread_id = some board_id;
      })
