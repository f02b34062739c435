-- ===== src/Mesh/Genuine.antt =====
-- Where the events of a mesh come from.
use mathlib.Core.Path.{subst}
use xaeroflux.Prelude.{◌≡◌, refl, sym, String, Option, none, some, List, [], ◌∷◌, ◌++◌, All}
use xaeroflux.Event.{Event}
use xaeroflux.Sqlite.{Sqlite}
use xaeroflux.Network.{Bytes, EventCodec, RoundTrips, GossipEvent, received}
use xaeroflux.Node.{
  Action, app_send, store_next, gossip, broadcast_next, broadcast, Node, broadcast_queued, step,
}
use xaeroflux.Node.Steps.{table}
use xaeroflux.Mesh.{
  Mesh, on_air, IsNoise, config_of, advance, send, Moves, sends, stores, broadcasts, delivers,
  disturbs, Reaches, here, next,
}
use xaeroflux.Mesh.Nodes.{set_node-all, All-append, All-map, All-get_elem?}
use xaeroflux.Mesh.Provenance.{
  Among, Among-append, Among-last, IsGenuine, grow-IsGenuine, store_queued-IsGenuine,
  broadcast_queued-IsGenuine, gossip-IsGenuine, step_noise, on_air-synced, store_queued_silent,
}

module _ (S : Sqlite) (codec : EventCodec) where
  -- Bytes of an event of the history.
  abbrev Carries : List Event → Bytes → Type 0
  Carries history b = (e : Event) × (codec.decode b ≡ some e) × Among history e

  record AllGenuine (m : Mesh S codec) : Type 0 where
    nodes : (i : String) → IsGenuine S m.history (m.nodes i)
    air : All (Carries m.history) m.air

  on_air-Carries :
      (history : List Event) (q : List Event) (n : Node S)
      → RoundTrips codec
      → All (Among history) q
      → All (Carries history) (on_air (broadcast_queued S codec q n).0)
  unfolding broadcast_queued
  on_air-Carries history [] n rt h = tt
  on_air-Carries history (e ∷ rest) n rt h = go (codec.encode e) (rt e)
    where
      go :
          (o : Option Bytes)
          → ((b : Bytes) → o ≡ some b → codec.decode b ≡ some e)
          → All (Carries history) (on_air (broadcast e o ∷ []))
      go none k = tt
      go (some b) k = ((e, k b refl, h.0), tt)

  advance-AllGenuine :
      (i : String) (a : Action) (m : Mesh S codec)
      → IsGenuine S m.history (step S (config_of S codec i) a (m.nodes i)).1
      → All (Carries m.history) (on_air (step S (config_of S codec i) a (m.nodes i)).0)
      → AllGenuine m
      → AllGenuine (advance S codec i a m)
  unfolding advance
  advance-AllGenuine i a m h k all = record {
    nodes = set_node-all S codec (λ j n. IsGenuine S m.history n) i _ m.nodes h all.nodes;
    air = All-append (Carries m.history) m.air _ all.air k;
  }

  grow-AllGenuine :
      (m : Mesh S codec) (e : Event)
      → AllGenuine m
      → AllGenuine (record m { history = m.history ++ e ∷ [] })
  grow-AllGenuine m e all = record {
    nodes = λ i. grow-IsGenuine S m.history e (m.nodes i) (all.nodes i);
    air =
        All-map (Carries m.history) (Carries (m.history ++ e ∷ [])) m.air
          (λ b c. (c.0, c.1, Among-append m.history (e ∷ []) c.0 c.2)) all.air;
  }

  disturb-AllGenuine :
      (m : Mesh S codec) (i : String) (g : GossipEvent)
      → IsNoise codec g
      → AllGenuine m
      → AllGenuine (advance S codec i (gossip g) m)
  disturb-AllGenuine m i g noise all =
      let e = step_noise S (config_of S codec i) g (m.nodes i) noise in
      advance-AllGenuine i (gossip g) m
        (subst (λ r. IsGenuine S m.history r.1) (sym e) (all.nodes i))
        (subst (λ r. All (Carries m.history) (on_air r.0)) (sym e) tt) all

  Moves-AllGenuine :
      {m n : Mesh S codec} → RoundTrips codec → Moves S codec m n → AllGenuine m → AllGenuine n
  unfolding step send advance
  Moves-AllGenuine rt (sends m i e own) all =
      let grown = grow-AllGenuine m e all in
      let g = grown.nodes i in
      advance-AllGenuine i (app_send e) (record m { history = m.history ++ e ∷ [] })
        (record {
          queued =
              All-append (Among (m.history ++ e ∷ [])) (m.nodes i).app_rx (e ∷ []) g.queued
                (Among-last m.history e, tt);
          leaving = g.leaving;
          kept = g.kept;
        })
        tt grown
  Moves-AllGenuine rt (stores m i) all =
      advance-AllGenuine i store_next m
        (store_queued-IsGenuine S m.history (m.nodes i).app_rx (m.nodes i) refl (all.nodes i))
        (rw (store_queued_silent S (m.nodes i).app_rx (m.nodes i)) tt) all
  Moves-AllGenuine rt (broadcasts m i) all =
      advance-AllGenuine i broadcast_next m
        (broadcast_queued-IsGenuine S m.history codec (m.nodes i).outbound_rx (m.nodes i) refl
          (all.nodes i))
        (on_air-Carries m.history (m.nodes i).outbound_rx (m.nodes i) rt (all.nodes i).leaving) all
  Moves-AllGenuine rt (delivers m i k b flying) all =
      let (e, decoded, among) = All-get_elem? (Carries m.history) m.air k b all.air flying in
      advance-AllGenuine i (gossip (received b)) m
        (gossip-IsGenuine S m.history (config_of S codec i) b e (m.nodes i) decoded among
          (all.nodes i))
        (rw on_air-synced tt) all
  Moves-AllGenuine rt (disturbs m i g noise) all = disturb-AllGenuine m i g noise all

  Reaches-AllGenuine :
      {m n : Mesh S codec} → RoundTrips codec → AllGenuine m → Reaches S codec m n → AllGenuine n
  Reaches-AllGenuine rt all here = all
  Reaches-AllGenuine rt all (next r s) = Moves-AllGenuine rt s (Reaches-AllGenuine rt all r)

  -- A mesh that has just started: no node holds an event, and nothing is queued or on the air.
  pub record IsFresh (m : Mesh S codec) : Type 0 where
    pub no_table : (i : String) → table S (m.nodes i) ≡ []
    pub no_app : (i : String) → (m.nodes i).app_rx ≡ []
    pub no_outbound : (i : String) → (m.nodes i).outbound_rx ≡ []
    pub no_air : m.air ≡ []
    pub no_history : m.history ≡ []

  IsFresh-AllGenuine : (m : Mesh S codec) → IsFresh m → AllGenuine m
  IsFresh-AllGenuine m h = record {
    nodes = λ i. record {
      queued = rw (h.no_app i) tt;
      leaving = rw (h.no_outbound i) tt;
      kept = rw (h.no_table i) tt;
    };
    air = rw (h.no_air) tt;
  }

  -- In a mesh that started empty, whatever its nodes do, whatever gossip delivers, repeats, reorders or
  -- loses and whatever statement fails: every event in a node's table is, field by field, one that an
  -- application sent. The codec round-trips.
  pub Reaches-genuine :
      {m n : Mesh S codec}
      → RoundTrips codec
      → IsFresh m
      → Reaches S codec m n
      → (i : String) → All (Among n.history) (table S (n.nodes i))
  Reaches-genuine {m} {n} rt h r i =
      ((Reaches-AllGenuine rt (IsFresh-AllGenuine m h) r).nodes i).kept
