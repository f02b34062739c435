-- ===== src/Peers/Statements.antt =====
-- The statements of `PeerTracker` in src/lib.rs on the rows of `group_peers`.
use xaeroflux.Prelude.{
  ℕ, suc, String, Bool, true, false, ◌&&◌, ◌||◌, Option, none, some, List, [], ◌∷◌, ◌++◌, ◌==◌,
  if◌then◌else◌,
}
use xaeroflux.Prelude.Int.{ℤ, ltb_ℤ}
use xaeroflux.Sqlite.{PeerRow, Statement}

-- The primary key of the row is this pair.
abbrev pub is_row : String → String → PeerRow → Bool
is_row g p r = r.group_id == g && r.peer_id == p

-- Some row has the property.
abbrev pub any_row : (PeerRow → Bool) → List PeerRow → Bool
any_row test [] = false
any_row test (r ∷ rows) = test r || any_row test rows

-- UPDATE … WHERE …: the number of rows changed, and the rows.
abbrev pub count_rows : (PeerRow → Bool) → List PeerRow → ℕ
count_rows test [] = 0
count_rows test (r ∷ rows) = if test r then suc (count_rows test rows) else count_rows test rows

abbrev pub update_rows : (PeerRow → Bool) → (PeerRow → PeerRow) → List PeerRow → List PeerRow
update_rows test change [] = []
update_rows test change (r ∷ rows) = (if test r then change r else r) ∷ update_rows test change rows

abbrev pub update : (PeerRow → Bool) → (PeerRow → PeerRow) → Statement ℕ
update test change t = (
  count_rows test t.group_peers,
  record t { group_peers = update_rows test change t.group_peers },
)

-- SELECT group_id, peer_id FROM group_peers WHERE is_online = 1
unfoldable pub online_pairs : List PeerRow → List (String × String)
online_pairs [] = []
online_pairs (r ∷ rows) =
    let rest = online_pairs rows in if r.is_online then (r.group_id, r.peer_id) ∷ rest else rest

unfoldable pub select_online : Statement (List (String × String))
unfolding online_pairs
select_online t = (online_pairs t.group_peers, t)

-- SELECT 1 FROM group_peers WHERE group_id = ?1 AND peer_id = ?2
unfoldable pub select_known : String → String → Statement Bool
select_known g p t = (any_row (is_row g p) t.group_peers, t)

-- UPDATE group_peers SET last_seen = ?1, is_online = 1 WHERE group_id = ?2 AND peer_id = ?3
unfoldable pub update_seen : ℤ → String → String → Statement ℕ
update_seen now g p = update (is_row g p) (λ r. record r { last_seen = now; is_online = true })

-- INSERT INTO group_peers … VALUES (?1, ?2, ?3, ?3, 1); the primary key makes it fail on a known
-- pair, and then nothing is changed.
unfoldable pub insert_peer : ℤ → String → String → Statement (Option ℕ)
insert_peer now g p t = if any_row (is_row g p) t.group_peers then (none, t) else (
  some 1,
  record t {
    group_peers =
        t.group_peers
        ++ record { group_id = g; peer_id = p; first_seen = now; last_seen = now; is_online = true }
          ∷ [];
  },
)

-- SELECT group_id FROM group_peers WHERE peer_id = ?1 AND is_online = 1
unfoldable pub online_groups : String → List PeerRow → List String
online_groups p [] = []
online_groups p (r ∷ rows) =
    let rest = online_groups p rows in
    if r.peer_id == p && r.is_online then r.group_id ∷ rest else rest

unfoldable pub select_groups : String → Statement (List String)
unfolding online_groups
select_groups p t = (online_groups p t.group_peers, t)

-- UPDATE group_peers SET is_online = 0, last_seen = ?1 WHERE peer_id = ?2
unfoldable pub update_offline : ℤ → String → Statement ℕ
update_offline now p =
    update (λ r. r.peer_id == p) (λ r. record r { is_online = false; last_seen = now })

-- UPDATE group_peers SET is_online = 0 WHERE last_seen < ?1 AND is_online = 1
unfoldable pub update_stale : ℤ → Statement ℕ
update_stale cutoff =
    update (λ r. ltb_ℤ r.last_seen cutoff && r.is_online) (λ r. record r { is_online = false })
