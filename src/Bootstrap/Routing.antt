-- ===== src/Bootstrap/Routing.antt =====
-- Which group a raw event is put in: what the scope tracker has learnt from the events before it.
use xaeroflux.Prelude.{
  ℕ, String, Bool, ◌≡◌, refl, ap, ◌∙◌, Option, none, some, true, false, List, [], ◌∷◌, ◌==◌,
  if◌then◌else◌, arith,
}
use xaeroflux.Prelude.Int.{ℤ}
use xaeroflux.Prelude.Dict.{lookup, lookup-insert}
use xaeroflux.Bootstrap.Records.{
  NetworkEvent, workspace_created, board_created, chat_sent, notebook_cell_added,
  notebook_cell_updated, RawEvent,
}
use xaeroflux.Bootstrap.Scope.{
  ScopeTracker, track_workspace, track_board, get_group_for_workspace, get_scope_for_board, text_or,
}
use xaeroflux.Bootstrap.Texts.{is_blank}
use xaeroflux.Bootstrap.Convert.{Printer, group_or_topic, convert_network_event}

-- An event with the group of its topic, and the id and the time for its conversion.
pub record Input (F : Type 0) : Type 0 where
  pub event : NetworkEvent F
  pub topic : String
  pub new_id : String
  pub now : ℕ

-- The group and the workspace of a raw event.
abbrev pub scope_of : Option RawEvent → Option (String × String)
scope_of none = none
scope_of (some raw) = some (raw.group_id, raw.workspace_id)

module _ {F : Type 0} where
  -- The group that an event gives a workspace, the workspace that it gives a board, and those that they have
  -- after some events.
  abbrev pub named_group : NetworkEvent F → String → Option String → Option String
  named_group (workspace_created ws) w o = if ws.id == w then some ws.group_id else o
  named_group _ w o = o

  abbrev pub named_workspace : NetworkEvent F → String → Option String → Option String
  named_workspace (board_created id workspace_id name created_at) b o =
      if id == b then some workspace_id else o
  named_workspace _ b o = o

  abbrev pub last_workspace : List (Input F) → String → Option String → Option String
  last_workspace [] b o = o
  last_workspace (i ∷ inputs) b o = last_workspace inputs b (named_workspace i.event b o)

  abbrev pub last_group : List (Input F) → String → Option String → Option String
  last_group [] w o = o
  last_group (i ∷ inputs) w o = last_group inputs w (named_group i.event w o)

module _ (P : Printer) {F : Type 0} where
  unfoldable pub convert_all : List (Input F) → ScopeTracker → ScopeTracker
  convert_all [] t = t
  convert_all (i ∷ inputs) t =
      convert_all inputs (convert_network_event P i.new_id i.now i.event i.topic t).1

  convert-named_group :
      (new_id : String) (now : ℕ) (e : NetworkEvent F) (topic : String) (t : ScopeTracker)
      (w : String)
      → lookup w (convert_network_event P new_id now e topic t).1.workspace_to_group
        ≡ named_group e w (lookup w t.workspace_to_group)
  unfolding convert_network_event track_workspace track_board
  convert-named_group new_id now (workspace_created ws) topic t w =
      ground (arith, lookup-insert w ws.id ws.group_id t.workspace_to_group)
  convert-named_group new_id now e topic t w = refl

  convert_all-last_group :
      (inputs : List (Input F)) (t : ScopeTracker) (w : String)
      → lookup w (convert_all inputs t).workspace_to_group
        ≡ last_group inputs w (lookup w t.workspace_to_group)
  unfolding convert_all
  convert_all-last_group [] t w = refl
  convert_all-last_group (i ∷ inputs) t w =
      convert_all-last_group inputs (convert_network_event P i.new_id i.now i.event i.topic t).1 w
      ∙ rw (convert-named_group i.new_id i.now i.event i.topic t w) refl

  convert-named_workspace :
      (new_id : String) (now : ℕ) (e : NetworkEvent F) (topic : String) (t : ScopeTracker)
      (b : String)
      → lookup b (convert_network_event P new_id now e topic t).1.board_to_workspace
        ≡ named_workspace e b (lookup b t.board_to_workspace)
  unfolding convert_network_event track_workspace track_board
  convert-named_workspace new_id now (board_created id workspace_id name created_at) topic t b =
      ground (arith, lookup-insert b id workspace_id t.board_to_workspace)
  convert-named_workspace new_id now e topic t b = refl

  convert_all-last_workspace :
      (inputs : List (Input F)) (t : ScopeTracker) (b : String)
      → lookup b (convert_all inputs t).board_to_workspace
        ≡ last_workspace inputs b (lookup b t.board_to_workspace)
  unfolding convert_all
  convert_all-last_workspace [] t b = refl
  convert_all-last_workspace (i ∷ inputs) t b =
      convert_all-last_workspace inputs (convert_network_event P i.new_id i.now i.event i.topic t).1
        b
      ∙ rw (convert-named_workspace i.new_id i.now i.event i.topic t b) refl

  -- A chat is put in the group that the last event on its workspace named, whatever topic it arrives
  -- on, and in the group of its topic if no event has named one; it keeps its workspace and its text.
  pub convert_all-chat :
      (inputs : List (Input F)) (t : ScopeTracker) (new_id : String) (now : ℕ)
      (id w message author topic : String) (parent : Option String) (timestamp : ℤ)
      → let e : NetworkEvent F = chat_sent id w message author parent timestamp in
        (raw : RawEvent) × ((convert_network_event P new_id now e topic (convert_all inputs t)).0
          ≡ some raw)
        × (raw.group_id ≡ text_or topic (last_group inputs w (lookup w t.workspace_to_group)))
        × (raw.workspace_id ≡ w)
        × (raw.content ≡ message)
  unfolding convert_network_event group_or_topic get_group_for_workspace
  convert_all-chat inputs t new_id now id w message author topic parent timestamp =
      (_, refl, rw (convert_all-last_group inputs t w) refl, refl, refl)

  -- A notebook cell that is added or updated and is not blank is put in the workspace that the last event on
  -- its board named, and in the group that the last event on this workspace named; "unknown" stands where no
  -- event has named one, whatever topic it arrives on.
  pub convert_all-cell :
      (inputs : List (Input F)) (t : ScopeTracker) (new_id : String) (now : ℕ)
      (id b kind content topic : String) (order : ℤ) (output metadata : Option String)
      (collapsed : Bool) (height : Option F)
      → is_blank content ≡ false
      → let added : NetworkEvent F = notebook_cell_added id b kind order (some content) in
        let updated : NetworkEvent F =
          notebook_cell_updated id b kind order (some content) output collapsed height metadata in
        let w = text_or "unknown" (last_workspace inputs b (lookup b t.board_to_workspace)) in
        let scope : String × String =
          (text_or "unknown" (last_group inputs w (lookup w t.workspace_to_group)), w) in
        (scope_of (convert_network_event P new_id now added topic (convert_all inputs t)).0
          ≡ some scope)
        × (scope_of (convert_network_event P new_id now updated topic (convert_all inputs t)).0
            ≡ some scope)
  unfolding convert_network_event get_scope_for_board
  convert_all-cell inputs t new_id now id b kind content topic order output metadata collapsed
        height text =
      let w = text_or "unknown" (last_workspace inputs b (lookup b t.board_to_workspace)) in
      let scope_with : Option String → Option (String × String) =
        λ o. some (text_or "unknown" o, w) in
      let named = ap scope_with (convert_all-last_group inputs t w) in
      rw (text, convert_all-last_workspace inputs t b) (named, named)

module _ (P : Printer) (F : Type 0) where
  -- A board and its cells can part: where no event has named the workspace's group, the board is put in the
  -- group of its topic, and a cell that follows on the same topic in the group "unknown".
  pub board-cell-apart :
      (t : ScopeTracker) (new_id new_id' : String) (now now' : ℕ)
      (b w name id kind content topic : String) (created_at order : ℤ)
      → lookup w t.workspace_to_group ≡ none
      → is_blank content ≡ false
      → let board : NetworkEvent F = board_created b w name created_at in
        let cell : NetworkEvent F = notebook_cell_added id b kind order (some content) in
        let (made, t') = convert_network_event P new_id now board topic t in
        (scope_of made ≡ some (topic, w))
        × (scope_of (convert_network_event P new_id' now' cell topic t').0 ≡ some ("unknown", w))
  unfolding convert_network_event get_scope_for_board track_board group_or_topic
      get_group_for_workspace
  board-cell-apart t new_id new_id' now now' b w name id kind content topic created_at order
        none_named text =
      let self : (b == b) ≡ true = ground arith in
      (
        rw none_named refl,
        rw (text, lookup-insert, self) (ap (λ o. some (text_or "unknown" o, w)) none_named),
      )
