-- ===== src/Network/Sync.antt =====
-- What the network actor does with one gossip item.
use mathlib.Core.List.{append-nil}
use xaeroflux.Prelude.{
  String, ◌≡◌, ◌≢◌, true, false, Option, none, some, ◌++◌, arith, contains, if◌then◌else◌,
}
use xaeroflux.Event.{Event, ids}
use xaeroflux.Sqlite.{Sqlite, NeverFails}
use xaeroflux.Storage.{insert_event}
use xaeroflux.Storage.Insert.{events, contains-ids-append}
use xaeroflux.Network.{
  Bytes, EventCodec, GossipEvent, received, neighbor_up, neighbor_down, lagged, failed, sync_event,
  sync_parsed, on_gossip,
}
use xaeroflux.Node.{sent}

module _ (S : Sqlite) (node_id : String) where
  -- The event that goes to the application is new, from elsewhere, and is stored; otherwise the
  -- table is unchanged.
  pub record Syncs (c : S.Connection) (o : Option Event) (c' : S.Connection) : Type 0 where
    pub rows : events S c' ≡ events S c ++ sent o
    pub fresh : (x : Event) → o ≡ some x → contains (ids (events S c)) x.id ≡ false
    pub foreign : (x : Event) → o ≡ some x → x.source ≢ node_id

  sync_event-Syncs :
      (e : Event) (c : S.Connection)
      → Syncs c (sync_event S node_id e c).0 (sync_event S node_id e c).1
  unfolding sync_event insert_event
  sync_event-Syncs e c = record {
    rows = ground (arith, S.execute_lem (insert_event e) c, append-nil (events S c));
    fresh = λ x h. ground (arith, S.execute_lem (insert_event e) c);
    foreign = λ x h. ground (arith, S.execute_lem (insert_event e) c);
  }

  idle-Syncs : (c : S.Connection) → Syncs c none c
  idle-Syncs c = record { rows = rw append-nil; fresh = λ x h. cc; foreign = λ x h. cc }

  sync_parsed-Syncs :
      (o : Option Event) (c : S.Connection)
      → Syncs c (sync_parsed S node_id o c).0 (sync_parsed S node_id o c).1
  unfolding sync_parsed
  sync_parsed-Syncs none c = idle-Syncs c
  sync_parsed-Syncs (some e) c = sync_event-Syncs e c

  pub on_gossip-Syncs :
      (codec : EventCodec) (g : GossipEvent) (c : S.Connection)
      → Syncs c (on_gossip S node_id codec g c).0 (on_gossip S node_id codec g c).1
  unfolding on_gossip
  on_gossip-Syncs codec (received content) c = sync_parsed-Syncs (codec.decode content) c
  on_gossip-Syncs codec (neighbor_up _) c = idle-Syncs c
  on_gossip-Syncs codec (neighbor_down _) c = idle-Syncs c
  on_gossip-Syncs codec lagged c = idle-Syncs c
  on_gossip-Syncs codec failed c = idle-Syncs c

  -- A message that decodes to a foreign event leaves its id in the table, and the event goes to the
  -- application just if the id was not there, as long as the statement runs.
  pub on_gossip-received :
      (codec : EventCodec) (bytes : Bytes) (e : Event) (c : S.Connection)
      → NeverFails S
      → codec.decode bytes ≡ some e
      → e.source ≢ node_id
      → (contains (ids (events S (on_gossip S node_id codec (received bytes) c).1)) e.id ≡ true)
        × ((on_gossip S node_id codec (received bytes) c).0
            ≡ (if contains (ids (events S c)) e.id then none else some e))
  unfolding on_gossip insert_event
  on_gossip-received codec bytes e c ok decoded foreign = rw decoded (
      ground (
        arith,
        S.execute_lem (insert_event e) c,
        ok.runs (insert_event e) c,
        contains-ids-append (events S c) e,
      ))
