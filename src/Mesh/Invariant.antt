-- ===== src/Mesh/Invariant.antt =====
-- What every mesh that started empty keeps: nothing that was sent is forgotten, and what a table holds
-- is on the air or is about to be.
use mathlib.Core.Path.{subst}
use xaeroflux.Prelude.{
  Bool-cases, get_elem?, inl, inr, string_dec, ℕ, ◌≡◌, refl, sym, ap, String, true, false, ◌||◌,
  some, List, [], ◌∷◌, ◌++◌, All, arith, contains, contains-append, ◌==◌,
}
use mathlib.Core.List.{append-nil}
use mathlib.Core.Logic.{if_pos}
use xaeroflux.Event.{Event, ids}
use xaeroflux.Sqlite.{Sqlite, NeverFails}
use xaeroflux.Storage.Insert.{ids-append}
use xaeroflux.Network.{Bytes, EventCodec, RoundTrips, GossipEvent, received, on_gossip}
use xaeroflux.Node.{app_send, store_next, gossip, broadcast_next, Node, broadcast_queued, step}
use xaeroflux.Node.NoLoss.{keeps}
use xaeroflux.Mesh.{
  Mesh, on_air, IsNoise, config_of, advance, send, Moves, sends, stores, broadcasts, delivers,
  disturbs, Reaches, here, next,
}
use xaeroflux.Mesh.Nodes.{set_node-all, All-map, All-get_elem?}
use xaeroflux.Mesh.Genuine.{IsFresh}
use xaeroflux.Mesh.Provenance.{step_noise, on_air-synced, store_queued_silent}
use xaeroflux.Mesh.Coverage.{
  has_id, IsOwn, IsCovered, IsCovered-grow, sends-IsCovered, stores-IsCovered, broadcasts-IsCovered,
  gossip-IsCovered,
}
use xaeroflux.Mesh.Carried.{IsTotal, carried, contains-carried, carried-get_elem?}
use xaeroflux.Mesh.Settled.{
  Flying, IsSettled, set_node-keeps, set_node-Flying, advance-IsSettled, silent-IsSettled,
}

module _ (S : Sqlite) (codec : EventCodec) where
  module _ (ok : NeverFails S) where
    contains-last :
        (es : List Event) (e : Event) (x : String)
        → contains (ids (es ++ e ∷ [])) x ≡ (contains (ids es) x || e.id == x)
    contains-last es e x =
        ground (arith, ids-append es (e ∷ []), contains-append (ids es) (e.id ∷ []) x)

    sends-kept :
        (i : String) (e : Event) (m : Mesh S codec)
        → IsSettled S codec m
        → (x : String) → contains (ids (m.history ++ e ∷ [])) x ≡ true
        → (j : String) × (keeps S ((send S codec i e m).nodes j) x ≡ true)
    unfolding send advance step
    sends-kept i e m h x k = elim (Bool-cases (contains (ids m.history) x)) [
      | inl old ↦ let (j, q) = h.kept x old in (j, set_node-keeps S codec ok i (app_send e) m j x q)
      | inr new ↦ (
        i,
        rw (if_pos (string_dec i i) refl _ _)
            (ground (arith, contains-last m.history e x, contains-last (m.nodes i).app_rx e x)),
      )
    ]

    sends-IsSettled :
        (i : String) (e : Event) (m : Mesh S codec)
        → e.source ≡ i
        → IsSettled S codec m
        → IsSettled S codec (send S codec i e m)
    unfolding send advance step
    sends-IsSettled i e m own h = record {
      nodes =
          rw (append-nil m.air, ids-append m.history (e ∷ []))
            (set_node-all S codec
              (λ j n. IsCovered S (carried codec m.air) (ids m.history ++ e.id ∷ []) j n) i _
              m.nodes (sends-IsCovered S _ _ i e (m.nodes i) own (h.nodes i))
              (λ j.
                IsCovered-grow S _ _ _ _ j (m.nodes j) (λ x k. k)
                  (λ x k. ground (arith, contains-append (ids m.history) (e.id ∷ []) x))
                  (h.nodes j)));
      flying =
          rw (append-nil m.air)
            (All-map _ _ m.air (set_node-Flying S codec ok i (app_send e) m) h.flying);
      kept = sends-kept i e m h;
    }

    stores-IsSettled :
        (i : String) (m : Mesh S codec)
        → IsSettled S codec m
        → IsSettled S codec (advance S codec i store_next m)
    unfolding step
    stores-IsSettled i m h =
        silent-IsSettled S codec ok i store_next m
          (store_queued_silent S (m.nodes i).app_rx (m.nodes i))
          (stores-IsCovered S ok _ _ i (m.nodes i).app_rx (m.nodes i) refl (h.nodes i)) h

    delivers-IsSettled :
        (i : String) (k : ℕ) (b : Bytes) (m : Mesh S codec)
        → get_elem? m.air k ≡ some b
        → IsSettled S codec m
        → IsSettled S codec (advance S codec i (gossip (received b)) m)
    unfolding step
    delivers-IsSettled i k b m p h =
        let (e, decoded, own) = All-get_elem? (Flying S codec m.nodes) m.air k b h.flying p in
        silent-IsSettled S codec ok i (gossip (received b)) m
          (on_air-synced (on_gossip S i codec (received b) (m.nodes i).connection).0)
          (gossip-IsCovered S _ _ (config_of S codec i) i b e (m.nodes i) decoded
            (carried-get_elem? codec m.air k b e p decoded)
            ((h.nodes e.source).sent_once e.id (ground (arith))) (h.nodes i))
          h

    disturbs-IsSettled :
        (i : String) (g : GossipEvent) (m : Mesh S codec)
        → IsNoise codec g
        → IsSettled S codec m
        → IsSettled S codec (advance S codec i (gossip g) m)
    disturbs-IsSettled i g m noise h =
        let e = step_noise S (config_of S codec i) g (m.nodes i) noise in
        silent-IsSettled S codec ok i (gossip g) m (ap (λ r. on_air r.0) e)
          (subst (λ r. IsCovered S (carried codec m.air) (ids m.history) i r.1) (sym e) (h.nodes i))
          h

    module _ (rt : RoundTrips codec) (total : IsTotal codec) where
      queued-IsCovered :
          (air : List Bytes) (history : List String) (i : String) (q : List Event) (n : Node S)
          → n.outbound_rx ≡ q
          → IsCovered S (carried codec air) history i n
          → IsCovered S
              (carried codec (air ++ on_air (broadcast_queued S codec q n).0))
              history
              i
              (broadcast_queued S codec q n).1
      unfolding broadcast_queued
      queued-IsCovered air history i [] n p h = rw append-nil h
      queued-IsCovered air history i (e ∷ rest) n p h =
          let (b, encoded) = total e in
          rw encoded (
            IsCovered-grow S _ _ history history i _
              (λ x k. ground (
                arith,
                contains-carried codec air (b ∷ []) x,
                rt e b encoded,
                contains-append (carried codec air) (e.id ∷ []) x,
              ))
              (λ x k. k) (broadcasts-IsCovered S _ _ i e rest n p h))

      queued-Flying :
          (nodes : String → Node S) (i : String) (q : List Event)
          → All (IsOwn S i) q
          → All (λ e. has_id S (nodes i) e.id ≡ true) q
          → All (Flying S codec nodes) (on_air (broadcast_queued S codec q (nodes i)).0)
      unfolding broadcast_queued
      queued-Flying nodes i [] own stored = tt
      queued-Flying nodes i (e ∷ rest) own stored =
          let (b, encoded) = total e in
          rw encoded (
            (e, rt e b encoded, subst (λ j. has_id S (nodes j) e.id ≡ true) (sym own.0) stored.0),
            tt,
          )

      broadcasts-IsSettled :
          (i : String) (m : Mesh S codec)
          → IsSettled S codec m
          → IsSettled S codec (advance S codec i broadcast_next m)
      unfolding step
      broadcasts-IsSettled i m h =
          let c = h.nodes i in
          let q = (m.nodes i).outbound_rx in
          advance-IsSettled S codec ok i broadcast_next m _ refl
            (queued-IsCovered m.air (ids m.history) i q (m.nodes i) refl c)
            (queued-Flying m.nodes i q c.out_own c.out_stored) h

      Moves-IsSettled :
          {m n : Mesh S codec} → Moves S codec m n → IsSettled S codec m → IsSettled S codec n
      Moves-IsSettled (sends m i e own) h = sends-IsSettled i e m own h
      Moves-IsSettled (stores m i) h = stores-IsSettled i m h
      Moves-IsSettled (broadcasts m i) h = broadcasts-IsSettled i m h
      Moves-IsSettled (delivers m i k b p) h = delivers-IsSettled i k b m p h
      Moves-IsSettled (disturbs m i g noise) h = disturbs-IsSettled i g m noise h

      IsSettled-Reaches :
          {m n : Mesh S codec} → Reaches S codec m n → IsSettled S codec m → IsSettled S codec n
      IsSettled-Reaches here h = h
      IsSettled-Reaches (next r s) h = Moves-IsSettled s (IsSettled-Reaches r h)

  IsFresh-IsSettled : (m : Mesh S codec) → IsFresh S codec m → IsSettled S codec m
  IsFresh-IsSettled m h = record {
    nodes = λ i. record {
      app_own = rw (h.no_app i) tt;
      out_own = rw (h.no_outbound i) tt;
      out_stored = rw (h.no_outbound i) tt;
      covered = λ x k. ground (arith, h.no_table i);
      sent_once = λ x k. ground (arith, h.no_table i, h.no_app i);
    };
    flying = rw (h.no_air) tt;
    kept = λ x k. absurd_true (subst (λ es. contains (ids es) x ≡ true) h.no_history k);
  }
    where
      absurd_true : {A : Type 0} → false ≡ true → A
      absurd_true p = cc

  pub Reaches-IsSettled :
      {m n : Mesh S codec}
      → NeverFails S
      → RoundTrips codec
      → IsTotal codec
      → IsFresh S codec m
      → Reaches S codec m n
      → IsSettled S codec n
  Reaches-IsSettled {m} {n} ok rt total h r =
      IsSettled-Reaches ok rt total r (IsFresh-IsSettled m h)
