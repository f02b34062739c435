-- ===== src/Peers.antt =====
-- `PeerTracker` of src/lib.rs: the table of the peers of each group, and a cache of who is online.
-- An operation takes the clock as an argument, and returns `none` where the code returns an error.
pub mod Statements
pub mod Rows
pub mod CacheLaws
pub mod Coherence
pub mod Sightings
pub mod Changes
pub mod Specification
pub mod Presence
use xaeroflux.Prelude.{
  ℕ, ◌+◌, String, Bool, true, false, Option, none, some, List, [], ◌∷◌, ◌++◌, ◌==◌, if◌then◌else◌,
  contains, length,
}
use xaeroflux.Prelude.Int.{ℤ, ◌-ℤ◌}
use xaeroflux.Prelude.Dict.{Dict, lookup, insert, map_values, keys}
use xaeroflux.Sqlite.{Sqlite}
use xaeroflux.Peers.Statements.{
  select_online, select_known, update_seen, insert_peer, select_groups, update_offline,
  update_stale,
}

abbrev pub Cache : Type 0
Cache = Dict (List String)

-- `cache.get(group_id).cloned().unwrap_or_default()`
or_empty : Option (List String) → List String
or_empty none = []
or_empty (some peers) = peers

unfoldable pub cached_peers : Cache → String → List String
unfolding or_empty
cached_peers cache g = or_empty (lookup g cache)

-- `cache.entry(g).or_insert_with(Vec::new).push(p)`
unfoldable pub push_peer : String → String → Cache → Cache
push_peer g p cache = insert g (cached_peers cache g ++ p ∷ []) cache

-- The same, unless the peer is there.
unfoldable pub add_peer : String → String → Cache → Cache
add_peer g p cache =
    insert g
      (if contains (cached_peers cache g) p
        then cached_peers cache g
        else cached_peers cache g ++ p ∷ [])
      cache

-- `peers.retain(|q| q != p)`
unfoldable pub retain_others : String → List String → List String
retain_others p [] = []
retain_others p (q ∷ peers) = let rest = retain_others p peers in if q == p then rest else q ∷ rest

-- The loop of `load_cache`.
unfoldable pub fill_cache : List (String × String) → Cache → Cache
fill_cache [] cache = cache
fill_cache ((g, p) ∷ rows) cache = fill_cache rows (push_peer g p cache)

abbrev pub is_some_true : Option Bool → Bool
is_some_true none = false
is_some_true (some b) = b

module _ (S : Sqlite) where
  pub record Tracker : Type 0 where
    pub connection : S.Connection
    pub cache : Cache

  -- The second half of `load_cache`, on the outcome of its SELECT.
  abbrev pub loaded : Option (List (String × String)) → Tracker → Option (Unit {0}) × Tracker
  loaded none t = (none, t)
  loaded (some rows) t = (some tt, record t { cache = fill_cache rows [] })

  unfoldable pub load_cache : Tracker → Option (Unit {0}) × Tracker
  load_cache t =
      let (rows, c) = S.execute select_online t.connection in
      loaded rows (record t { connection = c })

  -- The ends of the two branches of `upsert_peer`, on the outcome of their statement.
  abbrev pub seen_again : Option ℕ → String → String → Tracker → Option Bool × Tracker
  seen_again none g p t = (none, t)
  seen_again (some _) g p t = (some false, record t { cache = add_peer g p t.cache })

  abbrev pub seen_first : Option (Option ℕ) → String → String → Tracker → Option Bool × Tracker
  seen_first none g p t = (none, t)
  seen_first (some none) g p t = (none, t)
  seen_first (some (some _)) g p t = (some true, record t { cache = add_peer g p t.cache })

  unfoldable pub upsert_peer : ℤ → String → String → Tracker → Option Bool × Tracker
  upsert_peer now g p t =
      let (found, c) = S.execute (select_known g p) t.connection in
      if is_some_true found
      then (let (r, c') = S.execute (update_seen now g p) c in
          seen_again r g p (record t { connection = c' }))
      else (let (r, c') = S.execute (insert_peer now g p) c in
          seen_first r g p (record t { connection = c' }))

  -- The end of `mark_offline`, on the outcome of its UPDATE.
  abbrev pub dropped : Option ℕ → List String → String → Tracker → Option (List String) × Tracker
  dropped none groups p t = (none, t)
  dropped (some _) groups p t =
      (some groups, record t { cache = map_values (retain_others p) t.cache })

  abbrev pub drop_from :
      ℤ → Option (List String) → String → Tracker → Option (List String) × Tracker
  drop_from now none p t = (none, t)
  drop_from now (some groups) p t =
      let (r, c) = S.execute (update_offline now p) t.connection in
      dropped r groups p (record t { connection = c })

  unfoldable pub mark_offline : ℤ → String → Tracker → Option (List String) × Tracker
  mark_offline now p t =
      let (groups, c) = S.execute (select_groups p) t.connection in
      drop_from now groups p (record t { connection = c })

  unfoldable pub get_peers : Tracker → String → List String
  get_peers t g = cached_peers t.cache g

  active_groups : Cache → List String
  active_groups [] = []
  active_groups ((g, peers) ∷ cache) =
      let rest = active_groups cache in elim peers [ [] ↦ rest | _ ∷ _ ↦ g ∷ rest ]

  unfoldable pub get_active_groups : Tracker → List String
  unfolding active_groups
  get_active_groups t = active_groups t.cache

  -- The end of `prune_stale`: the count is returned if the cache could be loaded.
  abbrev pub reloaded : ℕ → Option (Unit {0}) × Tracker → Option ℕ × Tracker
  reloaded count (none, t) = (none, t)
  reloaded count (some _, t) = (some count, t)

  abbrev pub pruned : Option ℕ → Tracker → Option ℕ × Tracker
  pruned none t = (none, t)
  pruned (some count) t = reloaded count (load_cache t)

  -- `max_age` in seconds.
  unfoldable pub prune_stale : ℤ → ℤ → Tracker → Option ℕ × Tracker
  prune_stale now max_age t =
      let (count, c) = S.execute (update_stale (now -ℤ max_age)) t.connection in
      pruned count (record t { connection = c })

  cached_total : Cache → ℕ
  cached_total [] = 0
  cached_total ((g, peers) ∷ cache) = length peers + cached_total cache

  unfoldable pub stats : Tracker → ℕ × ℕ
  unfolding cached_total
  stats t = (length (keys t.cache), cached_total t.cache)
