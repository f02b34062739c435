-- ===== src/Bootstrap/Scope.antt =====
-- `ScopeTracker` of src/bin/xaeroflux_bootstrap.rs: the group of each workspace, and the workspace of
-- each board.
use xaeroflux.Prelude.{String, Option, none, some, []}
use xaeroflux.Prelude.Dict.{Dict, lookup, insert}

pub record ScopeTracker : Type 0 where
  pub workspace_to_group : Dict String
  pub board_to_workspace : Dict String

-- `ScopeTracker::new`
abbrev pub no_scopes : ScopeTracker
no_scopes = record { workspace_to_group = []; board_to_workspace = [] }

unfoldable pub track_workspace : String → String → ScopeTracker → ScopeTracker
track_workspace workspace_id group_id t = record t {
  workspace_to_group = insert workspace_id group_id t.workspace_to_group;
}

unfoldable pub track_board : String → String → ScopeTracker → ScopeTracker
track_board board_id workspace_id t = record t {
  board_to_workspace = insert board_id workspace_id t.board_to_workspace;
}

unfoldable pub get_group_for_workspace : ScopeTracker → String → Option String
get_group_for_workspace t workspace_id = lookup workspace_id t.workspace_to_group

-- `unwrap_or_else` of a text.
abbrev pub text_or : String → Option String → String
text_or other none = other
text_or other (some s) = s

-- The group and the workspace of a board.
unfoldable pub get_scope_for_board : ScopeTracker → String → String × String
get_scope_for_board t board_id =
    let workspace_id = text_or "unknown" (lookup board_id t.board_to_workspace) in
    (text_or "unknown" (lookup workspace_id t.workspace_to_group), workspace_id)
