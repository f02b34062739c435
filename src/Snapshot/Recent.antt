-- ===== src/Snapshot/Recent.antt =====
-- The chats and the answer to a request, against what they are meant to be.
use mathlib.Core.List.{append-nil, append_assoc}
use xaeroflux.Prelude.{
  ℕ, zero, suc, ◌+◌, ◌-◌, ◌≤◌, ◌^◌, ◌%◌, String, ◌≡◌, refl, ◌⊎◌, Option-cases, ap, sym, ◌∙◌, true,
  false, Bool-cases, inl, inr, none, some, List, [], ◌∷◌, ◌++◌, arith, leb, length, drop,
  length-append, length-drop,
}
use xaeroflux.Prelude.Dict.{Dict, lookup}
use xaeroflux.Snapshot.Records.{snapshot_available, ChatData, GroupSnapshot}
use xaeroflux.Snapshot.Provider.{rest_of, push_chat, item_count, handle_request}

-- What is left of a list of chats when only the last 100 are kept.
abbrev pub last_100 : List ChatData → List ChatData
last_100 chats = drop (length chats - 100) chats

-- The chats that a provider holds after these, from those that it held.
abbrev pub push_all : List ChatData → List ChatData → List ChatData
push_all held [] = held
push_all held (c ∷ chats) = push_all (push_chat held c) chats

rest_of-drop : (n : ℕ) (chats : List ChatData) → rest_of (drop n chats) ≡ drop (suc n) chats
rest_of-drop zero [] = refl
rest_of-drop zero (c ∷ chats) = refl
rest_of-drop (suc n) [] = refl
rest_of-drop (suc n) (c ∷ chats) = rest_of-drop n chats

drop-append : (n : ℕ) (xs ys : List ChatData) → n ≤ length xs → drop n (xs ++ ys) ≡ drop n xs ++ ys
drop-append zero xs ys h = refl
drop-append (suc n) [] ys h = absurd (omega arith)
drop-append (suc n) (x ∷ xs) ys h = drop-append n xs ys (omega arith)

push-last_100 :
    (l : List ChatData) (c : ChatData) → push_chat (last_100 l) c ≡ last_100 (l ++ c ∷ [])
unfolding push_chat
push-last_100 l c = elim (Bool-cases (leb 100 (length l))) [
  | inl e ↦ rw (full e) (
      ap (λ r. r ++ c ∷ []) (rest_of-drop (length l - 100) l)
      ∙ sym (drop-append (suc (length l - 100)) l (c ∷ []) (ground arith))
      ∙ ap (λ n. drop n (l ++ c ∷ [])) (one_more e))
  | inr e ↦ rw (none_yet e, e, none_then e) refl
]
  where
    full : leb 100 (length l) ≡ true → leb 100 (length (drop (length l - 100) l)) ≡ true
    full e = ground (arith, length-drop (length l - 100) l)

    one_more : leb 100 (length l) ≡ true → suc (length l - 100) ≡ length (l ++ c ∷ []) - 100
    one_more e = ground (arith, length-append l (c ∷ []))

    none_yet : leb 100 (length l) ≡ false → length l - 100 ≡ 0
    none_yet e = ground arith

    none_then : leb 100 (length l) ≡ false → length (l ++ c ∷ []) - 100 ≡ 0
    none_then e = ground (arith, length-append l (c ∷ []))

push_all-append : (l chats : List ChatData) → push_all (last_100 l) chats ≡ last_100 (l ++ chats)
push_all-append l [] = ap last_100 (sym (append-nil l))
push_all-append l (c ∷ chats) =
    ap (λ held. push_all held chats) (push-last_100 l c)
    ∙ push_all-append (l ++ c ∷ []) chats
    ∙ ap last_100 (append_assoc l (c ∷ []) chats)

-- A group that starts with no chats holds, after any chats, exactly the last 100 of them, in order.
pub push_all-last_100 : (chats : List ChatData) → push_all [] chats ≡ last_100 chats
push_all-last_100 chats = push_all-append [] chats

-- The number of items of a snapshot, the group among them.
abbrev pub items : GroupSnapshot → ℕ
items s = 1 + length s.workspaces + length s.boards + length s.files + length s.recent_chats

-- A request is answered exactly if the provider has a snapshot of the group. The answer names the
-- group, the provider and the snapshot's time, and counts all its items, modulo 2^32.
pub handle_request_lem :
    (node_id : String) (snapshots : Dict GroupSnapshot) (g : String)
    → ((lookup g snapshots ≡ none) × (handle_request node_id snapshots g ≡ none))
      ⊎ ((s : GroupSnapshot) × (lookup g snapshots ≡ some s)
          × (handle_request node_id snapshots g
              ≡ some (snapshot_available g node_id (items s % 2 ^ 32) s.snapshot_ts)))
unfolding handle_request
handle_request_lem node_id snapshots g = elim (Option-cases (lookup g snapshots)) [
  | inl e ↦ inl (e, rw e refl)
  | inr (s, e) ↦ inr (
    s,
    e,
    rw e (ap (λ n. some (snapshot_available g node_id n s.snapshot_ts)) (item_count-items s)),
  )
]
  where
    item_count-items : (s : GroupSnapshot) → item_count s ≡ items s % 2 ^ 32
    item_count-items s = unfold item_count in omega arith
