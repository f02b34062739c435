-- ===== src/Mesh/Provenance.antt =====
-- Where the events of one node of a mesh come from.
use mathlib.Core.Path.{subst}
use mathlib.Core.Option.{some-injective}
use xaeroflux.Prelude.{
  ◌≡◌, refl, sym, ◌∙◌, ◌⊎◌, inl, inr, String, Option, none, some, List, [], ◌∷◌, ◌++◌, All, arith,
  map,
}
use xaeroflux.Event.{Event}
use xaeroflux.Sqlite.{Sqlite}
use xaeroflux.Storage.{store_event}
use xaeroflux.Storage.Insert.{store_event-Inserts}
use xaeroflux.Network.{
  Bytes, EventCodec, GossipEvent, received, neighbor_up, neighbor_down, lagged, failed, sync_event,
  sync_parsed, on_gossip,
}
use xaeroflux.Network.Sync.{on_gossip-Syncs}
use xaeroflux.Node.{
  gossip, stored, synced, sent, Config, Node, store_queued, broadcast_queued, step,
}
use xaeroflux.Node.Steps.{table}
use xaeroflux.Mesh.{on_air, IsNoise}
use xaeroflux.Mesh.Nodes.{All-append, All-map}

-- The event stands in the list.
abbrev pub Among : List Event → Event → Type 0
Among [] e = ⊥
Among (x ∷ xs) e = (e ≡ x) ⊎ Among xs e

pub Among-append : (xs ys : List Event) (e : Event) → Among xs e → Among (xs ++ ys) e
Among-append [] ys e h = elim h [ ]
Among-append (x ∷ xs) ys e (inl p) = inl p
Among-append (x ∷ xs) ys e (inr h) = inr (Among-append xs ys e h)

pub Among-last : (xs : List Event) (e : Event) → Among (xs ++ e ∷ []) e
Among-last [] e = inl refl
Among-last (x ∷ xs) e = inr (Among-last xs e)

pub All-sent :
    (P : Event → Type 0) (o : Option Event) → ((x : Event) → o ≡ some x → P x) → All P (sent o)
All-sent P none h = tt
All-sent P (some e) h = (h e refl, tt)

module _ (S : Sqlite) where
  -- Whatever a node holds or has in a queue is in the history.
  pub record IsGenuine (history : List Event) (n : Node S) : Type 0 where
    pub queued : All (Among history) n.app_rx
    pub leaving : All (Among history) n.outbound_rx
    pub kept : All (Among history) (table S n)

  pub grow-IsGenuine :
      (history : List Event) (e : Event) (n : Node S)
      → IsGenuine history n
      → IsGenuine (history ++ e ∷ []) n
  grow-IsGenuine history e n h =
      let more = λ (xs : List Event).
        All-map (Among history) (Among (history ++ e ∷ [])) xs (Among-append history (e ∷ [])) in
      record {
        queued = more n.app_rx h.queued;
        leaving = more n.outbound_rx h.leaving;
        kept = more (table S n) h.kept;
      }

  pub store_queued-IsGenuine :
      (history : List Event) (q : List Event) (n : Node S)
      → n.app_rx ≡ q
      → IsGenuine history n
      → IsGenuine history (store_queued S q n).1
  unfolding store_queued
  store_queued-IsGenuine history [] n p h = h
  store_queued-IsGenuine history (e ∷ rest) n p h =
      let all = subst (All (Among history)) p h.queued in
      let i = store_event-Inserts S e n.connection in
      let o = (store_event S e n.connection).0 in
      let fresh =
        All-sent (Among history) o (λ x q. subst (Among history) (sym (i.only x q)) all.0) in
      record {
        queued = all.1;
        leaving = All-append (Among history) n.outbound_rx (sent o) h.leaving fresh;
        kept =
            subst (All (Among history)) (sym i.rows)
              (All-append (Among history) (table S n) (sent o) h.kept fresh);
      }

  pub broadcast_queued-IsGenuine :
      (history : List Event) (codec : EventCodec) (q : List Event) (n : Node S)
      → n.outbound_rx ≡ q
      → IsGenuine history n
      → IsGenuine history (broadcast_queued S codec q n).1
  unfolding broadcast_queued
  broadcast_queued-IsGenuine history codec [] n p h = h
  broadcast_queued-IsGenuine history codec (e ∷ rest) n p h = record {
    queued = h.queued;
    leaving = (subst (All (Among history)) p h.leaving).1;
    kept = h.kept;
  }

  -- What goes to the application is what the bytes decode to.
  pub on_gossip-decoded :
      (me : String) (codec : EventCodec) (b : Bytes) (c : S.Connection) (x : Event)
      → (on_gossip S me codec (received b) c).0 ≡ some x
      → codec.decode b ≡ some x
  unfolding on_gossip sync_event sync_parsed
  on_gossip-decoded me codec b c x p = ground (arith)

  pub gossip-IsGenuine :
      (history : List Event) (cfg : Config) (b : Bytes) (e : Event) (n : Node S)
      → cfg.codec.decode b ≡ some e
      → Among history e
      → IsGenuine history n
      → IsGenuine history (step S cfg (gossip (received b)) n).1
  unfolding step
  gossip-IsGenuine history cfg b e n p among h =
      let s = on_gossip-Syncs S cfg.node_id cfg.codec (received b) n.connection in
      let o = (on_gossip S cfg.node_id cfg.codec (received b) n.connection).0 in
      record {
        queued = h.queued;
        leaving = h.leaving;
        kept = subst (All (Among history)) (sym s.rows) (
            All-append (Among history) (table S n) (sent o) h.kept (
              All-sent (Among history) o (λ x q.
                subst (Among history)
                  (some-injective _ _
                    (sym p ∙ on_gossip-decoded cfg.node_id cfg.codec b n.connection x q))
                  among)));
      }

  noise_unchanged :
      (cfg : Config) (g : GossipEvent) (n : Node S)
      → IsNoise cfg.codec g
      → (on_gossip S cfg.node_id cfg.codec g n.connection) ≡ (none, n.connection)
  unfolding on_gossip sync_parsed
  noise_unchanged cfg (received b) n h = rw h
  noise_unchanged cfg (neighbor_up p) n h = refl
  noise_unchanged cfg (neighbor_down p) n h = refl
  noise_unchanged cfg lagged n h = refl
  noise_unchanged cfg failed n h = refl

  pub step_noise :
      (cfg : Config) (g : GossipEvent) (n : Node S)
      → IsNoise cfg.codec g
      → step S cfg (gossip g) n ≡ ([], n)
  unfolding step
  step_noise cfg g n h = rw (noise_unchanged cfg g n h)

pub on_air-stored : (o : Option Event) → on_air (map stored (sent o)) ≡ []
on_air-stored none = refl
on_air-stored (some e) = refl

pub on_air-synced : (o : Option Event) → on_air (map synced (sent o)) ≡ []
on_air-synced none = refl
on_air-synced (some e) = refl

pub store_queued_silent :
    (S : Sqlite) (q : List Event) (n : Node S) → on_air (store_queued S q n).0 ≡ []
unfolding store_queued
store_queued_silent S [] n = refl
store_queued_silent S (e ∷ rest) n = on_air-stored (store_event S e n.connection).0
