-- ===== src/Process/Disjoint.antt =====
-- The two actors work on the table `events`, and the discovery task on `group_peers`.
use xaeroflux.Prelude.{
  ◌≡◌, refl, ◌∙◌, Bool-cases, inl, inr, String, Option, none, some, List, [], ◌∷◌, arith,
}
use xaeroflux.Prelude.Int.{ℤ, pos, ◌-ℤ◌}
use xaeroflux.Event.{Event}
use xaeroflux.Sqlite.{PeerRow, Sqlite}
use xaeroflux.Storage.{insert_event, store_event}
use xaeroflux.Storage.Insert.{events}
use xaeroflux.Network.{
  GossipEvent, received, neighbor_up, neighbor_down, lagged, failed, sync_event, sync_parsed,
  on_gossip,
}
use xaeroflux.Node.{
  Action, app_send, store_next, gossip, broadcast_next, Config, Node, step, store_queued,
  broadcast_queued,
}
use xaeroflux.Peers.{Tracker, load_cache, upsert_peer, mark_offline, prune_stale}
use xaeroflux.Peers.Statements.{
  select_online, select_known, update_seen, insert_peer, select_groups, update_offline,
  update_stale,
}
use xaeroflux.Discovery.Actions.{World, State, emit, with_tracker, subscribe, join}
use xaeroflux.Discovery.Closed.{IsClosed}

module _ (S : Sqlite) where
  -- The rows of `group_peers` behind a connection.
  abbrev pub rows_of : S.Connection → List PeerRow
  rows_of c = (S.tables c).group_peers

  store_event-rows : (e : Event) (c : S.Connection) → rows_of (store_event S e c).1 ≡ rows_of c
  unfolding store_event insert_event
  store_event-rows e c = ground (arith, S.execute_lem (insert_event e) c)

  sync_event-rows :
      (node_id : String) (e : Event) (c : S.Connection)
      → rows_of (sync_event S node_id e c).1 ≡ rows_of c
  unfolding sync_event insert_event
  sync_event-rows node_id e c = ground (arith, S.execute_lem (insert_event e) c)

  sync_parsed-rows :
      (node_id : String) (o : Option Event) (c : S.Connection)
      → rows_of (sync_parsed S node_id o c).1 ≡ rows_of c
  unfolding sync_parsed
  sync_parsed-rows node_id none c = refl
  sync_parsed-rows node_id (some e) c = sync_event-rows node_id e c

  on_gossip-rows :
      (cfg : Config) (g : GossipEvent) (c : S.Connection)
      → rows_of (on_gossip S cfg.node_id cfg.codec g c).1 ≡ rows_of c
  unfolding on_gossip
  on_gossip-rows cfg (received content) c =
      sync_parsed-rows cfg.node_id (cfg.codec.decode content) c
  on_gossip-rows cfg (neighbor_up p) c = refl
  on_gossip-rows cfg (neighbor_down p) c = refl
  on_gossip-rows cfg lagged c = refl
  on_gossip-rows cfg failed c = refl

  store_queued-rows :
      (q : List Event) (n : Node S)
      → rows_of (store_queued S q n).1.connection ≡ rows_of n.connection
  unfolding store_queued
  store_queued-rows [] n = refl
  store_queued-rows (e ∷ q) n = store_event-rows e n.connection

  broadcast_queued-rows :
      (cfg : Config) (q : List Event) (n : Node S)
      → rows_of (broadcast_queued S cfg.codec q n).1.connection ≡ rows_of n.connection
  unfolding broadcast_queued
  broadcast_queued-rows cfg [] n = refl
  broadcast_queued-rows cfg (e ∷ q) n = refl

  -- The actors leave the peers alone.
  pub step-rows :
      (cfg : Config) (a : Action) (n : Node S)
      → rows_of (step S cfg a n).1.connection ≡ rows_of n.connection
  unfolding step
  step-rows cfg (app_send e) n = refl
  step-rows cfg store_next n = store_queued-rows n.app_rx n
  step-rows cfg (gossip g) n = on_gossip-rows cfg g n.connection
  step-rows cfg broadcast_next n = broadcast_queued-rows cfg n.outbound_rx n

  upsert_peer-events :
      (now : ℤ) (g p : String) (t : Tracker S)
      → events S (upsert_peer S now g p t).1.connection ≡ events S t.connection
  unfolding upsert_peer select_known insert_peer update_seen
  upsert_peer-events now g p t =
      let c = (S.execute (select_known g p) t.connection).1 in
      ground (
        arith,
        S.execute_lem (select_known g p) t.connection,
        S.execute_lem (update_seen now g p) c,
        S.execute_lem (insert_peer now g p) c,
      )

  mark_offline-events :
      (now : ℤ) (p : String) (t : Tracker S)
      → events S (mark_offline S now p t).1.connection ≡ events S t.connection
  unfolding mark_offline select_groups update_offline
  mark_offline-events now p t =
      let c = (S.execute (select_groups p) t.connection).1 in
      ground (
        arith,
        S.execute_lem (select_groups p) t.connection,
        S.execute_lem (update_offline now p) c,
      )

  load_cache-events :
      (t : Tracker S) → events S (load_cache S t).1.connection ≡ events S t.connection
  unfolding load_cache select_online
  load_cache-events t = ground (arith, S.execute_lem select_online t.connection)

  prune_stale-events :
      (now max_age : ℤ) (t : Tracker S)
      → events S (prune_stale S now max_age t).1.connection ≡ events S t.connection
  unfolding prune_stale update_stale
  prune_stale-events now max_age t =
      let cutoff = now -ℤ max_age in
      let c = (S.execute (update_stale cutoff) t.connection).1 in
      let u : Tracker S = record t { connection = c } in
      ground (arith, S.execute_lem (update_stale cutoff) t.connection, load_cache-events u)

module _ {W : World} where
  open W use {S, try_subscribe}

  -- The discovery task leaves the events alone.
  pub Holds-IsClosed :
      (es : List Event) → IsClosed (λ (s : State W). events S s.tracker.connection ≡ es)
  unfolding emit join subscribe with_tracker
  Holds-IsClosed es = record {
    groups = record {
      joins = λ gid pk. record { at = λ s h. (h, tt) };
      subscribes = λ gid peer s fresh h. elim (Bool-cases (try_subscribe gid peer s.network).0) [
        | inl e ↦ rw e h
        | inr e ↦ rw e h
      ];
      upserts =
          λ now gid p. record { at = λ s h. (upsert_peer-events S now gid p s.tracker ∙ h, tt) };
    };
    announces = record { at = λ s h. (h, tt) };
    introduces = λ gid peers due. record { at = λ s h. (h, tt) };
    prunes = λ now. record { at = λ s h. (prune_stale-events S now (pos 300) s.tracker ∙ h, tt) };
    departs = λ now p. record { at = λ s h. (mark_offline-events S now p s.tracker ∙ h, tt) };
  }
