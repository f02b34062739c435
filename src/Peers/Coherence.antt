-- ===== src/Peers/Coherence.antt =====
-- The cache and the table of `PeerTracker` agree on who is online.
use xaeroflux.Prelude.{
  ℕ, String, ◌≡◌, ◌≢◌, ◌⊎◌, true, false, ◌&&◌, ◌||◌, none, some, List, [], ◌∷◌, arith, contains,
  ◌==◌, if◌then◌else◌,
}
use xaeroflux.Prelude.Int.{ℤ, ◌-ℤ◌}
use xaeroflux.Sqlite.{PeerRow, Sqlite, NeverFails}
use xaeroflux.Peers.Statements.{
  is_row, any_row, online_pairs, select_online, select_known, update_seen, insert_peer,
  select_groups, update_offline, update_stale,
}
use xaeroflux.Peers.Rows.{
  online, any_row-append, online-seen, online-offline, is_recent, online-stale,
  has_pair-online_pairs, contains-online_groups,
}
use xaeroflux.Peers.{Tracker, load_cache, upsert_peer, mark_offline, prune_stale}
use xaeroflux.Peers.CacheLaws.{cached, cached-add, cached-retain, cached-fill, cached-empty}

abbrev pub row_of : ℤ → String → String → PeerRow
row_of now g p = record {
  group_id = g;
  peer_id = p;
  first_seen = now;
  last_seen = now;
  is_online = true;
}

module _ (S : Sqlite) where
  -- The rows of `group_peers`.
  abbrev pub peer_rows : Tracker S → List PeerRow
  peer_rows t = (S.tables t.connection).group_peers

  -- For every group and peer the cache and the table say the same.
  pub record IsCoherent (t : Tracker S) : Type 0 where
    pub agrees : (g p : String) → cached t.cache g p ≡ online (peer_rows t) g p

  module _ (now : ℤ) (g p : String) (t : Tracker S) (h q : String) where
    -- An upsert either fails and leaves the rows and the cache as they were, or puts the one peer
    -- online in the one group, in the rows and in the cache, and reports whether the pair is new to
    -- the table. A failed SELECT counts as an unknown pair and does no harm.
    pub upsert_peer_cases :
        (((upsert_peer S now g p t).0 ≡ none)
          × (peer_rows (upsert_peer S now g p t).1 ≡ peer_rows t)
          × ((upsert_peer S now g p t).1.cache ≡ t.cache))
        ⊎ (((upsert_peer S now g p t).0
              ≡ some (if any_row (is_row g p) (peer_rows t) then false else true))
            × (online (peer_rows (upsert_peer S now g p t).1) h q
                ≡ ((g == h && p == q) || online (peer_rows t) h q))
            × (cached (upsert_peer S now g p t).1.cache h q
                ≡ ((g == h && p == q) || cached t.cache h q)))
    unfolding upsert_peer select_known insert_peer update_seen
    upsert_peer_cases =
        let c = (S.execute (select_known g p) t.connection).1 in
        ground (
          arith,
          S.execute_lem (select_known g p) t.connection,
          S.execute_lem (update_seen now g p) c,
          S.execute_lem (insert_peer now g p) c,
          online-seen now g p (peer_rows t) h q,
          any_row-append (λ r. is_row h q r && r.is_online) (peer_rows t) (row_of now g p ∷ []),
          cached-add g p t.cache h q,
        )

  module _ (now : ℤ) (p : String) (t : Tracker S) (h q : String) where
    -- Marking a peer offline either fails and leaves the rows and the cache as they were, or takes
    -- that peer, and no other, offline in every group, in the rows and in the cache, and returns
    -- exactly the groups in which it was online.
    pub mark_offline_cases :
        (((mark_offline S now p t).0 ≡ none)
          × (peer_rows (mark_offline S now p t).1 ≡ peer_rows t)
          × ((mark_offline S now p t).1.cache ≡ t.cache))
        ⊎ ((groups : List String) × ((mark_offline S now p t).0 ≡ some groups)
            × (contains groups h ≡ online (peer_rows t) h p)
            × (online (peer_rows (mark_offline S now p t).1) h q
                ≡ (if p == q then false else online (peer_rows t) h q))
            × (cached (mark_offline S now p t).1.cache h q
                ≡ (if p == q then false else cached t.cache h q)))
    unfolding mark_offline select_groups update_offline
    mark_offline_cases =
        let c = (S.execute (select_groups p) t.connection).1 in
        ground (
          arith,
          S.execute_lem (select_groups p) t.connection,
          S.execute_lem (update_offline now p) c,
          contains-online_groups p (peer_rows t) h,
          online-offline now p (peer_rows t) h q,
          cached-retain p t.cache h q,
        )

  -- Loading the cache changes no row. If it succeeds the cache holds, whatever it held before,
  -- exactly the peers that are online by the rows; if it fails the cache is as it was.
  pub load_cache_cases :
      (t : Tracker S) (h q : String)
      → (peer_rows (load_cache S t).1 ≡ peer_rows t)
        × ((((load_cache S t).0 ≡ none) × ((load_cache S t).1.cache ≡ t.cache))
            ⊎ (((load_cache S t).0 ≡ some tt)
                × (cached (load_cache S t).1.cache h q ≡ online (peer_rows t) h q)))
  unfolding load_cache select_online
  load_cache_cases t h q = ground (
    arith,
    S.execute_lem select_online t.connection,
    has_pair-online_pairs (peer_rows t) h q,
    cached-fill (online_pairs (peer_rows t)) [] h q,
    cached-empty h q,
  )

  module _ (now max_age : ℤ) (t : Tracker S) (h q : String) where
    -- If pruning succeeds, exactly the peers that were online and seen no earlier than the cutoff
    -- stay online, in the rows and in the cache, whatever the cache held before.
    pub prune_stale_ok :
        (count : ℕ)
        → (prune_stale S now max_age t).0 ≡ some count
        → (online (peer_rows (prune_stale S now max_age t).1) h q
            ≡ any_row (λ r. is_row h q r && is_recent (now -ℤ max_age) r) (peer_rows t))
          × (cached (prune_stale S now max_age t).1.cache h q
              ≡ online (peer_rows (prune_stale S now max_age t).1) h q)
    unfolding prune_stale update_stale
    prune_stale_ok count ok =
        let cutoff = now -ℤ max_age in
        let c = (S.execute (update_stale cutoff) t.connection).1 in
        let u : Tracker S = record t { connection = c } in
        ground (
          arith,
          S.execute_lem (update_stale cutoff) t.connection,
          online-stale cutoff (peer_rows t) h q,
          load_cache_cases u h q,
        )

  -- An upsert keeps the cache and the table in agreement, also when it fails.
  pub upsert_peer-IsCoherent :
      (now : ℤ) (g p : String) (t : Tracker S)
      → IsCoherent t
      → IsCoherent (upsert_peer S now g p t).1
  upsert_peer-IsCoherent now g p t v = record {
    agrees = λ h q. ground (arith, upsert_peer_cases now g p t h q, v.agrees h q);
  }

  -- Marking a peer offline keeps the cache and the table in agreement, also when it fails.
  pub mark_offline-IsCoherent :
      (now : ℤ) (p : String) (t : Tracker S) → IsCoherent t → IsCoherent (mark_offline S now p t).1
  mark_offline-IsCoherent now p t v = record {
    agrees = λ h q. ground (arith, mark_offline_cases now p t h q, v.agrees h q);
  }

  -- A successful load makes the cache agree with the table, whatever the cache held.
  pub load_cache-IsCoherent :
      (t : Tracker S) → (load_cache S t).0 ≡ some tt → IsCoherent (load_cache S t).1
  load_cache-IsCoherent t ok = record { agrees = λ h q. ground (arith, load_cache_cases t h q) }

  -- A successful pruning makes the cache agree with the table.
  pub prune_stale-IsCoherent :
      (now max_age : ℤ) (t : Tracker S) (count : ℕ)
      → (prune_stale S now max_age t).0 ≡ some count
      → IsCoherent (prune_stale S now max_age t).1
  prune_stale-IsCoherent now max_age t count ok = record {
    agrees = λ h q. (prune_stale_ok now max_age t h q count ok).1;
  }

  -- If no statement fails, pruning succeeds.
  pub prune_stale-some :
      (now max_age : ℤ) (t : Tracker S) → NeverFails S → (prune_stale S now max_age t).0 ≢ none
  unfolding prune_stale load_cache
  prune_stale-some now max_age t ok =
      let c = (S.execute (update_stale (now -ℤ max_age)) t.connection).1 in
      ground (arith, ok.runs (update_stale (now -ℤ max_age)) t.connection, ok.runs select_online c)

  -- If no statement fails, the peer of an upsert is in the cache afterwards.
  pub upsert_peer-cached :
      (now : ℤ) (g p : String) (t : Tracker S)
      → NeverFails S
      → ((upsert_peer S now g p t).0
          ≡ some (if any_row (is_row g p) (peer_rows t) then false else true))
        × (cached (upsert_peer S now g p t).1.cache g p ≡ true)
  unfolding upsert_peer select_known insert_peer update_seen
  upsert_peer-cached now g p t ok =
      let c = (S.execute (select_known g p) t.connection).1 in
      ground (
        arith,
        ok.runs (select_known g p) t.connection,
        ok.runs (update_seen now g p) c,
        ok.runs (insert_peer now g p) c,
        S.execute_lem (select_known g p) t.connection,
        S.execute_lem (update_seen now g p) c,
        S.execute_lem (insert_peer now g p) c,
        cached-add g p t.cache g p,
      )
