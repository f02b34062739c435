-- ===== src/Node/NoLoss.antt =====
-- Nothing that the application sends is lost, as long as no statement fails.
use xaeroflux.Prelude.{
  String, ◌≡◌, refl, List, [], ◌∷◌, ◌++◌, arith, contains, true, ◌||◌, Bool, contains-append, ◌==◌,
}
use xaeroflux.Event.{Event, ids}
use xaeroflux.Sqlite.{Sqlite, NeverFails}
use xaeroflux.Storage.{store_event}
use xaeroflux.Storage.Insert.{ids-append, store_event-Inserts, store_event-stored}
use xaeroflux.Network.{on_gossip}
use xaeroflux.Network.Sync.{on_gossip-Syncs}
use xaeroflux.Node.{
  Action, app_send, store_next, gossip, broadcast_next, Config, Node, step, run, store_queued,
  broadcast_queued, sent,
}
use xaeroflux.Node.Steps.{table}

-- The events that the application sends in a run.
abbrev pub sends : List Action → List Event
sends [] = []
sends (app_send e ∷ actions) = e ∷ sends actions
sends (store_next ∷ actions) = sends actions
sends (gossip g ∷ actions) = sends actions
sends (broadcast_next ∷ actions) = sends actions

module _ (S : Sqlite) where
  -- An id that the node has stored, or has still to store.
  abbrev pub keeps : Node S → String → Bool
  keeps n x = contains (ids (table S n)) x || contains (ids n.app_rx) x

  pub contains-sent :
      (xs : List Event) (ys : List Event) (x : String)
      → contains (ids xs) x ≡ true
      → contains (ids (xs ++ ys)) x ≡ true
  contains-sent xs ys x h = ground (arith, ids-append xs ys, contains-append (ids xs) (ids ys) x)

  module _ (ok : NeverFails S) (x : String) where
    store_keeps :
        (q : List Event) (n : Node S)
        → (contains (ids (table S n)) x || contains (ids q) x) ≡ true
        → n.app_rx ≡ q
        → keeps (store_queued S q n).1 x ≡ true
    unfolding store_queued
    store_keeps [] n h e = rw e h
    store_keeps (e ∷ rest) n h _ =
        let (o, c) = store_event S e n.connection in
        ground (
          arith,
          ids-append (table S n) (sent o),
          contains-append (ids (table S n)) (ids (sent o)) x,
          (store_event-Inserts S e n.connection).rows,
          (store_event-stored S e n.connection ok).0,
        )

    broadcast_keeps :
        (cfg : Config) (q : List Event) (n : Node S)
        → keeps n x ≡ true
        → keeps (broadcast_queued S cfg.codec q n).1 x ≡ true
    unfolding broadcast_queued
    broadcast_keeps cfg [] n h = h
    broadcast_keeps cfg (e ∷ rest) n h = h

    pub step-keeps :
        (cfg : Config) (a : Action) (n : Node S)
        → keeps n x ≡ true
        → keeps (step S cfg a n).1 x ≡ true
    unfolding step
    step-keeps cfg (app_send e) n h =
        ground (arith, ids-append n.app_rx (e ∷ []), contains-append (ids n.app_rx) (e.id ∷ []) x)
    step-keeps cfg store_next n h = store_keeps n.app_rx n h refl
    step-keeps cfg (gossip g) n h =
        let (o, c) = on_gossip S cfg.node_id cfg.codec g n.connection in
        ground (
          arith,
          ids-append (table S n) (sent o),
          contains-append (ids (table S n)) (ids (sent o)) x,
          (on_gossip-Syncs S cfg.node_id cfg.codec g n.connection).rows,
        )
    step-keeps cfg broadcast_next n h = broadcast_keeps cfg n.outbound_rx n h

    send-keeps :
        (cfg : Config) (e : Event) (n : Node S)
        → keeps (step S cfg (app_send e) n).1 x ≡ (keeps n x || e.id == x)
    unfolding step
    send-keeps cfg e n =
        ground (arith, ids-append n.app_rx (e ∷ []), contains-append (ids n.app_rx) (e.id ∷ []) x)

    -- If no statement fails, an id that the node had stored or queued before a run, and the id of
    -- every event that the application sends in the run, is stored or still queued after it.
    pub keeps-run :
        (cfg : Config) (actions : List Action) (n : Node S)
        → (keeps n x || contains (ids (sends actions)) x) ≡ true
        → keeps (run S cfg actions n).1 x ≡ true
    unfolding run
    keeps-run cfg [] n h = ground arith
    keeps-run cfg (app_send e ∷ actions) n h =
        keeps-run cfg actions (step S cfg (app_send e) n).1 (ground (arith, send-keeps cfg e n))
    keeps-run cfg (store_next ∷ actions) n h =
        keeps-run cfg actions (step S cfg store_next n).1
          (ground (arith, step-keeps cfg store_next n))
    keeps-run cfg (gossip g ∷ actions) n h =
        keeps-run cfg actions (step S cfg (gossip g) n).1
          (ground (arith, step-keeps cfg (gossip g) n))
    keeps-run cfg (broadcast_next ∷ actions) n h =
        keeps-run cfg actions (step S cfg broadcast_next n).1
          (ground (arith, step-keeps cfg broadcast_next n))
