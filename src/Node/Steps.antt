-- ===== src/Node/Steps.antt =====
-- What one move of a node does to its table and its channels.
use mathlib.Core.List.{append-nil}
use xaeroflux.Prelude.{
  String, ◌≡◌, refl, ap, ◌≢◌, Option, none, some, List, [], ◌∷◌, ◌++◌, map, contains, false,
  Distinct, append-Distinct, All,
}
use xaeroflux.Event.{Event, ids}
use xaeroflux.Sqlite.{Sqlite}
use xaeroflux.Storage.{store_event}
use xaeroflux.Storage.Insert.{events, ids-append, store_event-Inserts}
use xaeroflux.Network.{EventCodec, on_gossip}
use xaeroflux.Network.Sync.{on_gossip-Syncs}
use xaeroflux.Node.{
  Action, app_send, store_next, gossip, broadcast_next, Output, stored, synced, broadcast, Config,
  sent, Node, store_queued, broadcast_queued, step,
}

-- The events that the outputs announce as new, to either side.
abbrev pub announced : List Output → List Event
announced [] = []
announced (stored e ∷ os) = e ∷ announced os
announced (synced e ∷ os) = e ∷ announced os
announced (broadcast e b ∷ os) = announced os

-- The events handed to the network actor, and those that it took for broadcast.
abbrev pub handed_over : List Output → List Event
handed_over [] = []
handed_over (stored e ∷ os) = e ∷ handed_over os
handed_over (synced e ∷ os) = handed_over os
handed_over (broadcast e b ∷ os) = handed_over os

abbrev pub taken : List Output → List Event
taken [] = []
taken (stored e ∷ os) = taken os
taken (synced e ∷ os) = taken os
taken (broadcast e b ∷ os) = e ∷ taken os

-- An event that comes back to the application is not one of the node's own.
abbrev pub IsForeign : String → Output → Type 0
IsForeign node_id (synced e) = e.source ≢ node_id
IsForeign node_id _ = Unit

pub announced-append : (os ps : List Output) → announced (os ++ ps) ≡ announced os ++ announced ps
announced-append [] ps = refl
announced-append (stored e ∷ os) ps = rw (announced-append os ps)
announced-append (synced e ∷ os) ps = rw (announced-append os ps)
announced-append (broadcast e b ∷ os) ps = announced-append os ps

pub handed_over-append :
    (os ps : List Output) → handed_over (os ++ ps) ≡ handed_over os ++ handed_over ps
handed_over-append [] ps = refl
handed_over-append (stored e ∷ os) ps = rw (handed_over-append os ps)
handed_over-append (synced e ∷ os) ps = handed_over-append os ps
handed_over-append (broadcast e b ∷ os) ps = handed_over-append os ps

pub taken-append : (os ps : List Output) → taken (os ++ ps) ≡ taken os ++ taken ps
taken-append [] ps = refl
taken-append (stored e ∷ os) ps = taken-append os ps
taken-append (synced e ∷ os) ps = taken-append os ps
taken-append (broadcast e b ∷ os) ps = rw (taken-append os ps)

announced-stored : (o : Option Event) → announced (map stored (sent o)) ≡ sent o
announced-stored none = refl
announced-stored (some e) = refl

announced-synced : (o : Option Event) → announced (map synced (sent o)) ≡ sent o
announced-synced none = refl
announced-synced (some e) = refl

handed_over-stored : (o : Option Event) → handed_over (map stored (sent o)) ≡ sent o
handed_over-stored none = refl
handed_over-stored (some e) = refl

handed_over-synced : (o : Option Event) → handed_over (map synced (sent o)) ≡ []
handed_over-synced none = refl
handed_over-synced (some e) = refl

pub taken-stored : (o : Option Event) → taken (map stored (sent o)) ≡ []
taken-stored none = refl
taken-stored (some e) = refl

pub taken-synced : (o : Option Event) → taken (map synced (sent o)) ≡ []
taken-synced none = refl
taken-synced (some e) = refl

sent-Distinct :
    (es : List Event) (o : Option Event)
    → ((x : Event) → o ≡ some x → contains (ids es) x.id ≡ false)
    → Distinct (ids es)
    → Distinct (ids (es ++ sent o))
sent-Distinct es none fresh d = rw append-nil d
sent-Distinct es (some e) fresh d = rw ids-append (append-Distinct (ids es) e.id (fresh e refl) d)

module _ (S : Sqlite) where
  -- The rows of the node's events table.
  abbrev pub table : Node S → List Event
  table n = events S n.connection

  -- What holds of one move: the table grows by what is announced, the ids stay distinct, nothing
  -- comes back to its sender, and the channel to the network actor is first in, first out.
  pub record Moves (cfg : Config) (n : Node S) (out : List Output) (n' : Node S) : Type 0 where
    pub rows : table n' ≡ table n ++ announced out
    pub distinct : Distinct (ids (table n)) → Distinct (ids (table n'))
    pub foreign : All (IsForeign cfg.node_id) out
    pub queue : n.outbound_rx ++ handed_over out ≡ taken out ++ n'.outbound_rx

  idle_Moves : (cfg : Config) (n : Node S) → Moves cfg n [] n
  idle_Moves cfg n = record {
    rows = rw append-nil;
    distinct = λ d. d;
    foreign = tt;
    queue = append-nil n.outbound_rx;
  }

  stored-IsForeign : (me : String) (o : Option Event) → All (IsForeign me) (map stored (sent o))
  stored-IsForeign me none = tt
  stored-IsForeign me (some e) = (tt, tt)

  synced-IsForeign :
      (me : String) (o : Option Event)
      → ((x : Event) → o ≡ some x → x.source ≢ me)
      → All (IsForeign me) (map synced (sent o))
  synced-IsForeign me none h = tt
  synced-IsForeign me (some e) h = (h e refl, tt)

  store_Moves :
      (cfg : Config) (q : List Event) (n : Node S)
      → Moves cfg n (store_queued S q n).0 (store_queued S q n).1
  unfolding store_queued
  store_Moves cfg [] n = idle_Moves cfg n
  store_Moves cfg (e ∷ rest) n =
      let (o, c) = store_event S e n.connection in
      let i = store_event-Inserts S e n.connection in
      record {
        rows = rw announced-stored i.rows;
        distinct = λ d. rw i.rows (
            sent-Distinct (table n) o
              (λ x h. rw (ap (λ (t : Event). t.id) (i.only x h)) (i.fresh x h)) d);
        foreign = stored-IsForeign cfg.node_id o;
        queue = rw (handed_over-stored, taken-stored);
      }

  broadcast_Moves :
      (cfg : Config) (codec : EventCodec) (q : List Event) (n : Node S)
      → n.outbound_rx ≡ q
      → Moves cfg n (broadcast_queued S codec q n).0 (broadcast_queued S codec q n).1
  unfolding broadcast_queued
  broadcast_Moves cfg codec [] n h = idle_Moves cfg n
  broadcast_Moves cfg codec (e ∷ rest) n h = record {
    rows = rw append-nil;
    distinct = λ d. d;
    foreign = (tt, tt);
    queue = rw (h, append-nil);
  }

  pub step-Moves :
      (cfg : Config) (a : Action) (n : Node S) → Moves cfg n (step S cfg a n).0 (step S cfg a n).1
  unfolding step
  step-Moves cfg (app_send e) n = record {
    rows = rw append-nil;
    distinct = λ d. d;
    foreign = tt;
    queue = append-nil n.outbound_rx;
  }
  step-Moves cfg store_next n = store_Moves cfg n.app_rx n
  step-Moves cfg (gossip g) n =
      let (o, c) = on_gossip S cfg.node_id cfg.codec g n.connection in
      let s = on_gossip-Syncs S cfg.node_id cfg.codec g n.connection in
      record {
        rows = rw announced-synced s.rows;
        distinct = λ d. rw s.rows (sent-Distinct (table n) o s.fresh d);
        foreign = synced-IsForeign cfg.node_id o s.foreign;
        queue = rw (handed_over-synced, taken-synced, append-nil);
      }
  step-Moves cfg broadcast_next n = broadcast_Moves cfg cfg.codec n.outbound_rx n refl
