-- ===== src/Peers/Changes.antt =====
-- What each call of `PeerTracker` in src/lib.rs does to the rows and to the cache, statement failures included.
use xaeroflux.Prelude.{
  ℕ, String, ◌≡◌, refl, ap, ◌∙◌, ◌⊎◌, inl, inr, none, some, Option-cases, Bool, true, false, ◌&&◌,
  ◌||◌, not, List, [], ◌∷◌, arith, ◌==◌, if◌then◌else◌,
}
use xaeroflux.Prelude.Int.{ℤ, ltb_ℤ, ◌-ℤ◌}
use xaeroflux.Sqlite.{PeerRow, Tables, Sqlite}
use xaeroflux.Peers.Statements.{
  is_row, update_rows, select_known, update_seen, insert_peer, select_groups, update_offline,
  update_stale,
}
use xaeroflux.Peers.Rows.{online, any_row-append}
use xaeroflux.Peers.{Tracker, load_cache, upsert_peer, mark_offline, prune_stale}
use xaeroflux.Peers.CacheLaws.{cached}
use xaeroflux.Peers.Coherence.{peer_rows, row_of, load_cache_cases}
use xaeroflux.Peers.Sightings.{
  known, seen, seen-unknown, known-update, seen-seen_again, seen-offline,
}

-- The rows after a pruning.
abbrev pub stale_rows : ℤ → List PeerRow → List PeerRow
stale_rows cutoff rows =
    update_rows (λ r. ltb_ℤ r.last_seen cutoff && r.is_online) (λ r. record r { is_online = false })
      rows

module _ (S : Sqlite) where
  module _ (now : ℤ) (g p : String) (t : Tracker S) (test : ℤ → Bool) (h q : String) where
    -- An upsert fails and changes no row, or makes the one pair known, online and seen now.
    pub upsert_peer_rows :
        (((upsert_peer S now g p t).0 ≡ none)
          × (peer_rows S (upsert_peer S now g p t).1 ≡ peer_rows S t))
        ⊎ (((upsert_peer S now g p t).0 ≡ some (not (known (peer_rows S t) g p)))
            × (known (peer_rows S (upsert_peer S now g p t).1) h q
                ≡ ((g == h && p == q) || known (peer_rows S t) h q))
            × (seen (peer_rows S (upsert_peer S now g p t).1) test h q
                ≡ (if g == h && p == q then test now else seen (peer_rows S t) test h q)))
    unfolding upsert_peer select_known insert_peer update_seen
    upsert_peer_rows =
        let c = (S.execute (select_known g p) t.connection).1 in
        let rows = peer_rows S t in
        ground (
          arith,
          S.execute_lem (select_known g p) t.connection,
          S.execute_lem (update_seen now g p) c,
          S.execute_lem (insert_peer now g p) c,
          seen-seen_again now g p rows test h q,
          known-update (is_row g p) (λ r. record r { last_seen = now; is_online = true }) rows h q
              (λ r. refl),
          any_row-append (λ r. is_row h q r && (r.is_online && test r.last_seen)) rows
              (row_of now g p ∷ []),
          any_row-append (is_row h q) rows (row_of now g p ∷ []),
          seen-unknown rows test g p,
        )

  module _ (now : ℤ) (p : String) (t : Tracker S) (test : ℤ → Bool) (h q : String) where
    -- Marking a peer offline fails and changes no row, or takes that peer offline in every group.
    pub mark_offline_rows :
        (((mark_offline S now p t).0 ≡ none)
          × (peer_rows S (mark_offline S now p t).1 ≡ peer_rows S t))
        ⊎ ((groups : List String) × ((mark_offline S now p t).0 ≡ some groups)
            × (known (peer_rows S (mark_offline S now p t).1) h q ≡ known (peer_rows S t) h q)
            × (seen (peer_rows S (mark_offline S now p t).1) test h q
                ≡ (if p == q then false else seen (peer_rows S t) test h q)))
    unfolding mark_offline select_groups update_offline
    mark_offline_rows =
        let c = (S.execute (select_groups p) t.connection).1 in
        ground (
          arith,
          S.execute_lem (select_groups p) t.connection,
          S.execute_lem (update_offline now p) c,
          seen-offline now p (peer_rows S t) test h q,
          known-update (λ r. r.peer_id == p) (λ r. record r { is_online = false; last_seen = now })
              (peer_rows S t) h q (λ r. refl),
        )

  -- A load fails and leaves the cache, or fills it.
  pub load_cache_all :
      (t : Tracker S)
      → (peer_rows S (load_cache S t).1 ≡ peer_rows S t)
        × ((((load_cache S t).0 ≡ none) × ((load_cache S t).1.cache ≡ t.cache))
            ⊎ (((load_cache S t).0 ≡ some tt)
                × ((h q : String)
                    → cached (load_cache S t).1.cache h q ≡ online (peer_rows S t) h q)))
  load_cache_all t = (
    (load_cache_cases S t "" "").0,
    elim (Option-cases (load_cache S t).0) [
      | inl bad ↦ inl (bad, ground (arith, bad, load_cache_cases S t "" ""))
      | inr (u, good) ↦ inr (good, λ h q. ground (arith, good, load_cache_cases S t h q))
    ],
  )

  module _ (now max_age : ℤ) (t : Tracker S) where
    -- A pruning fails and changes nothing, or takes the stale peers offline in the table and then fails to
    -- load the cache, or succeeds.
    pub prune_stale_cases :
        (((prune_stale S now max_age t).0 ≡ none)
          × (peer_rows S (prune_stale S now max_age t).1 ≡ peer_rows S t)
          × ((prune_stale S now max_age t).1.cache ≡ t.cache))
        ⊎ ((((prune_stale S now max_age t).0 ≡ none)
              × (peer_rows S (prune_stale S now max_age t).1
                  ≡ stale_rows (now -ℤ max_age) (peer_rows S t))
              × ((prune_stale S now max_age t).1.cache ≡ t.cache))
            ⊎ ((count : ℕ) × ((prune_stale S now max_age t).0 ≡ some count)
                × (peer_rows S (prune_stale S now max_age t).1
                    ≡ stale_rows (now -ℤ max_age) (peer_rows S t))
                × ((h q : String)
                    → cached (prune_stale S now max_age t).1.cache h q
                      ≡ online (stale_rows (now -ℤ max_age) (peer_rows S t)) h q)))
    unfolding prune_stale update_stale
    prune_stale_cases =
        let cutoff = now -ℤ max_age in
        let c = (S.execute (update_stale cutoff) t.connection).1 in
        let u : Tracker S = record t { connection = c } in
        let (kept, either) = load_cache_all u in
        elim (S.execute_lem (update_stale cutoff) t.connection) [
          | inl (bad, same) ↦ rw bad (inl (refl, ap (λ (s : Tables). s.group_peers) same, refl))
          | inr (good, changed) ↦
              let rows = ap (λ (s : Tables). s.group_peers) changed in
              elim either [
                | inl (bad, cache) ↦ rw (good, bad) (inr (inl (refl, kept ∙ rows, cache)))
                | inr (loaded, fills) ↦
                    rw (good, loaded)
                      (inr (
                        inr
                          (_, refl, kept ∙ rows, λ h q. fills h q ∙ ap (λ rs. online rs h q) rows)))
              ]
        ]
