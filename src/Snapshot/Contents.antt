-- ===== src/Snapshot/Contents.antt =====
-- What the snapshots of a provider hold.
mod Adds
use mathlib.Core.Logic.{if_pos, if_neg}
use xaeroflux.Prelude.{
  String, ◌≡◌, Bool, true, false, Option, none, some, List, [], ◌∷◌, string_dec, All, ◌==◌,
  if◌then◌else◌,
}
use xaeroflux.Prelude.Dict.{Dict, lookup, insert, lookup-insert}
use xaeroflux.Event.{Event}
use xaeroflux.Json.{Json, get_str}
use xaeroflux.Snapshot.Records.{GroupSnapshot}
use xaeroflux.Snapshot.Provider.{
  Decoders, apply_typed, apply_type, apply_parsed, update_snapshot, snapshot_or_empty,
  update_from_event, update_all,
}
use xaeroflux.Snapshot.Contents.Adds.{
  IsWellFormed, set_group-IsWellFormed, add_workspace-IsWellFormed, add_board-IsWellFormed,
  add_file-IsWellFormed, add_chat-IsWellFormed, empty_snapshot-IsWellFormed,
}

-- Every snapshot of a provider is well-formed.
abbrev pub AllWellFormed : Dict GroupSnapshot → Type 0
AllWellFormed d = All (λ entry. IsWellFormed (entry.1)) d

insert-AllWellFormed :
    (g : String) (s : GroupSnapshot) (d : Dict GroupSnapshot)
    → IsWellFormed s
    → AllWellFormed d
    → AllWellFormed (insert g s d)
unfolding insert
insert-AllWellFormed g s [] h all = (h, tt)
insert-AllWellFormed g s ((k, t) ∷ d) h (here, rest) = elim (string_dec k g) [
  | yes same ↦ rw (if_pos (string_dec k g) same _ _) (h, rest)
  | no other ↦ rw (if_neg (string_dec k g) other _ _) (here, insert-AllWellFormed g s d h rest)
]

known :
    (g : String) (d : Dict GroupSnapshot)
    → AllWellFormed d
    → IsWellFormed (snapshot_or_empty g (lookup g d))
unfolding lookup
known g [] all = empty_snapshot-IsWellFormed g
known g ((k, t) ∷ d) (here, rest) = elim (string_dec k g) [
  | yes same ↦ rw (if_pos (string_dec k g) same _ _) here
  | no other ↦ rw (if_neg (string_dec k g) other _ _) (known g d rest)
]

choice-IsWellFormed :
    (b : Bool) (s t : GroupSnapshot)
    → IsWellFormed s
    → IsWellFormed t
    → IsWellFormed (if b then s else t)
choice-IsWellFormed true s t h k = h
choice-IsWellFormed false s t h k = k

module _ (J : Json) (D : Decoders J.Value) where
  apply_typed-IsWellFormed :
      (type : String) (v : J.Value) (s : GroupSnapshot)
      → IsWellFormed s
      → IsWellFormed (apply_typed J D type v s)
  unfolding apply_typed
  apply_typed-IsWellFormed type v s h =
      choice-IsWellFormed _ _ _ (set_group-IsWellFormed (D.group v) s h) (
        choice-IsWellFormed _ _ _ (add_workspace-IsWellFormed (D.workspace v) s h) (
          choice-IsWellFormed _ _ _ (add_board-IsWellFormed _ _ _ _ s h) (
            choice-IsWellFormed _ _ _ (add_file-IsWellFormed (D.file v) s h)
              (choice-IsWellFormed _ _ _ (add_chat-IsWellFormed (D.chat v) s h) h))))

  apply_type-IsWellFormed :
      (type : Option String) (v : J.Value) (s : GroupSnapshot)
      → IsWellFormed s
      → IsWellFormed (apply_type J D type v s)
  apply_type-IsWellFormed none v s h = h
  apply_type-IsWellFormed (some type) v s h = apply_typed-IsWellFormed type v s h

  apply_parsed-IsWellFormed :
      (v : Option J.Value) (s : GroupSnapshot)
      → IsWellFormed s
      → IsWellFormed (apply_parsed J D v s)
  apply_parsed-IsWellFormed none s h = h
  apply_parsed-IsWellFormed (some v) s h = apply_type-IsWellFormed (get_str J v "type") v s h

  update_snapshot-IsWellFormed :
      (e : Event) (s : GroupSnapshot) → IsWellFormed s → IsWellFormed (update_snapshot J D e s)
  unfolding update_snapshot
  update_snapshot-IsWellFormed e s h =
      let k = apply_parsed-IsWellFormed (J.from_str e.payload) s h in
      record { chats = k.chats; workspaces = k.workspaces; boards = k.boards; files = k.files }

  -- An event of one group changes the snapshot of that group, and of no other.
  pub lookup-update_from_event :
      (g : String) (e : Event) (d : Dict GroupSnapshot) (h : String)
      → lookup h (update_from_event J D g e d) ≡ (
          if g == h
          then some (update_snapshot J D e (snapshot_or_empty g (lookup g d)))
          else lookup h d)
  unfolding update_from_event
  lookup-update_from_event g e d h = lookup-insert h g _ d

  update_from_event-AllWellFormed :
      (g : String) (e : Event) (d : Dict GroupSnapshot)
      → AllWellFormed d
      → AllWellFormed (update_from_event J D g e d)
  unfolding update_from_event
  update_from_event-AllWellFormed g e d all =
      insert-AllWellFormed g _ d (update_snapshot-IsWellFormed e _ (known g d all)) all

  -- Whatever events a provider takes in, of whatever groups and however malformed their payloads, no
  -- snapshot ever holds more than 100 chats, or two workspaces, boards or files with one id.
  pub update_all-AllWellFormed :
      (events : List (String × Event)) (d : Dict GroupSnapshot)
      → AllWellFormed d
      → AllWellFormed (update_all J D events d)
  unfolding update_all
  update_all-AllWellFormed [] d h = h
  update_all-AllWellFormed ((g, e) ∷ events) d h =
      update_all-AllWellFormed events (update_from_event J D g e d)
        (update_from_event-AllWellFormed g e d h)
