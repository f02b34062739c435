-- ===== src/Snapshot/Contents/Adds.antt =====
-- One addition to a snapshot, in SnapshotProvider::update_from_event of src/snapshot.rs.
use xaeroflux.Prelude.{
  ◌≤◌, String, ◌≡◌, refl, Bool-cases, inl, inr, Option, none, some, List, [], ◌∷◌, ◌++◌, arith,
  length, length-append, contains, Distinct, append-Distinct,
}
use xaeroflux.Prelude.Int.{ℤ}
use xaeroflux.Snapshot.Records.{
  GroupData, WorkspaceData, BoardData, FileData, ChatData, GroupSnapshot,
}
use xaeroflux.Snapshot.Provider.{
  workspace_ids, board_ids, file_ids, empty_snapshot, set_group, add_workspace, add_board, add_file,
  add_chat, push_chat,
}

-- At most 100 chats, and no two workspaces, boards or files with one id.
pub record IsWellFormed (s : GroupSnapshot) : Type 0 where
  pub chats : length s.recent_chats ≤ 100
  pub workspaces : Distinct (workspace_ids s.workspaces)
  pub boards : Distinct (board_ids s.boards)
  pub files : Distinct (file_ids s.files)

workspace_ids-append :
    (xs ys : List WorkspaceData) → workspace_ids (xs ++ ys) ≡ workspace_ids xs ++ workspace_ids ys
workspace_ids-append [] ys = refl
workspace_ids-append (x ∷ xs) ys = rw (workspace_ids-append xs ys)

board_ids-append : (xs ys : List BoardData) → board_ids (xs ++ ys) ≡ board_ids xs ++ board_ids ys
board_ids-append [] ys = refl
board_ids-append (x ∷ xs) ys = rw (board_ids-append xs ys)

file_ids-append : (xs ys : List FileData) → file_ids (xs ++ ys) ≡ file_ids xs ++ file_ids ys
file_ids-append [] ys = refl
file_ids-append (x ∷ xs) ys = rw (file_ids-append xs ys)

length-push_chat :
    (chats : List ChatData) (c : ChatData) → length chats ≤ 100 → length (push_chat chats c) ≤ 100
unfolding push_chat
length-push_chat [] c h = omega arith
length-push_chat (x ∷ xs) c h =
    ground (arith, length-append (x ∷ xs) (c ∷ []), length-append xs (c ∷ []))

pub add_workspace-IsWellFormed :
    (o : Option WorkspaceData) (s : GroupSnapshot)
    → IsWellFormed s
    → IsWellFormed (add_workspace o s)
unfolding add_workspace
add_workspace-IsWellFormed none s h = h
add_workspace-IsWellFormed (some ws) s h =
    elim (Bool-cases (contains (workspace_ids s.workspaces) ws.id)) [
      | inl e ↦ rw e h
      | inr e ↦ rw e (record {
        chats = h.chats;
        workspaces =
            rw workspace_ids-append
              (append-Distinct (workspace_ids s.workspaces) ws.id e h.workspaces);
        boards = h.boards;
        files = h.files;
      })
    ]

pub add_file-IsWellFormed :
    (o : Option FileData) (s : GroupSnapshot) → IsWellFormed s → IsWellFormed (add_file o s)
unfolding add_file
add_file-IsWellFormed none s h = h
add_file-IsWellFormed (some f) s h = elim (Bool-cases (contains (file_ids s.files) f.id)) [
  | inl e ↦ rw e h
  | inr e ↦ rw e (record {
    chats = h.chats;
    workspaces = h.workspaces;
    boards = h.boards;
    files = rw file_ids-append (append-Distinct (file_ids s.files) f.id e h.files);
  })
]

pub add_board-IsWellFormed :
    (id ws name : Option String) (t : ℤ) (s : GroupSnapshot)
    → IsWellFormed s
    → IsWellFormed (add_board id ws name t s)
unfolding add_board
add_board-IsWellFormed (some id) (some ws) (some name) t s h =
    elim (Bool-cases (contains (board_ids s.boards) id)) [
      | inl e ↦ rw e h
      | inr e ↦ rw e (record {
        chats = h.chats;
        workspaces = h.workspaces;
        boards = rw board_ids-append (append-Distinct (board_ids s.boards) id e h.boards);
        files = h.files;
      })
    ]
add_board-IsWellFormed _ _ _ t s h = h

pub add_chat-IsWellFormed :
    (o : Option ChatData) (s : GroupSnapshot) → IsWellFormed s → IsWellFormed (add_chat o s)
unfolding add_chat
add_chat-IsWellFormed none s h = h
add_chat-IsWellFormed (some c) s h = record {
  chats = length-push_chat s.recent_chats c h.chats;
  workspaces = h.workspaces;
  boards = h.boards;
  files = h.files;
}

pub set_group-IsWellFormed :
    (o : Option GroupData) (s : GroupSnapshot) → IsWellFormed s → IsWellFormed (set_group o s)
unfolding set_group
set_group-IsWellFormed none s h = h
set_group-IsWellFormed (some g) s h = record {
  chats = h.chats;
  workspaces = h.workspaces;
  boards = h.boards;
  files = h.files;
}

pub empty_snapshot-IsWellFormed : (g : String) → IsWellFormed (empty_snapshot g)
empty_snapshot-IsWellFormed g = record {
  chats = omega arith;
  workspaces = tt;
  boards = tt;
  files = tt;
}
