-- ===== src/Node/Propagation.antt =====
-- From one node to another: an event that an application sends reaches the application of a peer.
use xaeroflux.Prelude.{◌≡◌, refl, ◌≢◌, [], ◌∷◌, arith, contains, true, false, some, if◌then◌else◌}
use xaeroflux.Event.{Event, ids}
use xaeroflux.Sqlite.{Sqlite, NeverFails}
use xaeroflux.Storage.Insert.{store_event-stored}
use xaeroflux.Network.{Bytes, RoundTrips, received}
use xaeroflux.Network.Sync.{on_gossip-received}
use xaeroflux.Node.{
  app_send, store_next, gossip, broadcast_next, stored, synced, broadcast, Config, Node, step, run,
  store_queued, broadcast_queued,
}
use xaeroflux.Node.Steps.{table}

module _ (S : Sqlite) (ok : NeverFails S) where
  -- A node with empty channels that is sent an event whose id it lacks, and whose actors then run,
  -- has the id in its table, gives the encoding of the event to gossip, once, and has empty channels
  -- again; no statement fails.
  pub run-publish :
      (cfg : Config) (e : Event) (n : Node S)
      → n.app_rx ≡ []
      → n.outbound_rx ≡ []
      → contains (ids (table S n)) e.id ≡ false
      → (contains
            (ids (table S (run S cfg (app_send e ∷ store_next ∷ broadcast_next ∷ []) n).1))
            e.id
          ≡ true)
        × ((run S cfg (app_send e ∷ store_next ∷ broadcast_next ∷ []) n).0
            ≡ stored e ∷ broadcast e (cfg.codec.encode e) ∷ [])
        × ((run S cfg (app_send e ∷ store_next ∷ broadcast_next ∷ []) n).1.outbound_rx ≡ [])
        × ((run S cfg (app_send e ∷ store_next ∷ broadcast_next ∷ []) n).1.app_rx ≡ [])
  unfolding run step store_queued broadcast_queued
  run-publish cfg e n a b fresh =
      let h = store_event-stored S e n.connection ok in
      rw (a, b, h.1, fresh) (h.0, refl, refl, refl)

  -- A peer that receives the encoding of an event that is not its own, by a codec that round-trips, has
  -- the event's id in its table afterwards, and hands the event to its application exactly if it did not
  -- have the id before; no statement fails.
  pub step-received :
      (cfg : Config) (e : Event) (bytes : Bytes) (peer : Node S)
      → RoundTrips cfg.codec
      → cfg.codec.encode e ≡ some bytes
      → e.source ≢ cfg.node_id
      → (contains (ids (table S (step S cfg (gossip (received bytes)) peer).1)) e.id ≡ true)
        × ((step S cfg (gossip (received bytes)) peer).0
            ≡ (if contains (ids (table S peer)) e.id then [] else synced e ∷ []))
  unfolding step
  step-received cfg e bytes peer rt encoded foreign = ground (
    arith,
    on_gossip-received S cfg.node_id cfg.codec bytes e peer.connection ok (rt e bytes encoded)
        foreign,
  )
