-- ===== src/Mesh/Settled.antt =====
-- A mesh in which nothing that was sent is forgotten, and what a table holds is on the air or is about to
-- be; and what a move of one node must keep for that.
use xaeroflux.Prelude.{
  ◌≡◌, String, true, some, List, [], ◌∷◌, ◌++◌, All, arith, contains, contains-append,
}
use mathlib.Core.List.{append-nil}
use xaeroflux.Event.{Event, ids}
use xaeroflux.Sqlite.{Sqlite, NeverFails}
use xaeroflux.Network.{Bytes, EventCodec}
use xaeroflux.Node.{Action, sent, Node, step}
use xaeroflux.Node.NoLoss.{keeps, step-keeps}
use xaeroflux.Mesh.{Mesh, on_air, config_of, set_node, advance}
use xaeroflux.Mesh.Nodes.{set_node-all, All-append, All-map}
use xaeroflux.Mesh.Coverage.{has_id, IsCovered, IsCovered-grow, step-has_id}
use xaeroflux.Mesh.Carried.{carried, contains-carried}

module _ (S : Sqlite) (codec : EventCodec) where
  -- Bytes of an event that the node it comes from has stored.
  abbrev pub Flying : (String → Node S) → Bytes → Type 0
  Flying nodes b = (e : Event) × (codec.decode b ≡ some e) × (has_id S (nodes e.source) e.id ≡ true)

  pub record IsSettled (m : Mesh S codec) : Type 0 where
    pub nodes : (i : String) → IsCovered S (carried codec m.air) (ids m.history) i (m.nodes i)
    pub flying : All (Flying m.nodes) m.air
    pub kept :
        (x : String)
        → contains (ids m.history) x ≡ true
        → (j : String) × (keeps S (m.nodes j) x ≡ true)

  -- What the bytes carry has been sent.
  pub contains-Flying :
      (air : List Bytes) (history : List String) (nodes : String → Node S)
      → ((i : String) (x : String) → has_id S (nodes i) x ≡ true → contains history x ≡ true)
      → All (Flying nodes) air
      → (x : String) → contains (carried codec air) x ≡ true
      → contains history x ≡ true
  contains-Flying [] history nodes f h x k = cc
  contains-Flying (b ∷ air) history nodes f ((e, p, own), h) x k = ground (
    arith,
    p,
    f e.source e.id own,
    contains-Flying air history nodes f h x,
    contains-append (ids (sent (codec.decode b))) (carried codec air) x,
  )

  pub IsSettled-carried :
      (m : Mesh S codec)
      → IsSettled m
      → (x : String) → contains (carried codec m.air) x ≡ true
      → contains (ids m.history) x ≡ true
  IsSettled-carried m h =
      contains-Flying m.air (ids m.history) m.nodes
        (λ i x k. (h.nodes i).sent_once x (ground (arith))) h.flying

  module _ (ok : NeverFails S) where
    pub set_node-has_id :
        (i : String) (a : Action) (m : Mesh S codec) (j x : String)
        → has_id S (m.nodes j) x ≡ true
        → has_id S (set_node S codec i (step S (config_of S codec i) a (m.nodes i)).1 m.nodes j) x
          ≡ true
    set_node-has_id i a m j x =
        set_node-all S codec (λ l n. has_id S (m.nodes l) x ≡ true → has_id S n x ≡ true) i _
          m.nodes (step-has_id S (config_of S codec i) a (m.nodes i) x) (λ l k. k) j

    pub set_node-keeps :
        (i : String) (a : Action) (m : Mesh S codec) (j x : String)
        → keeps S (m.nodes j) x ≡ true
        → keeps S (set_node S codec i (step S (config_of S codec i) a (m.nodes i)).1 m.nodes j) x
          ≡ true
    set_node-keeps i a m j x =
        set_node-all S codec (λ l n. keeps S (m.nodes l) x ≡ true → keeps S n x ≡ true) i _ m.nodes
          (step-keeps S ok x (config_of S codec i) a (m.nodes i)) (λ l k. k) j

    pub set_node-Flying :
        (i : String) (a : Action) (m : Mesh S codec) (b : Bytes)
        → Flying m.nodes b
        → Flying (set_node S codec i (step S (config_of S codec i) a (m.nodes i)).1 m.nodes) b
    set_node-Flying i a m b (e, p, own) = (e, p, set_node-has_id i a m e.source e.id own)

    -- A move of one node, by what it puts on the air.
    pub advance-IsSettled :
        (i : String) (a : Action) (m : Mesh S codec) (out : List Bytes)
        → on_air (step S (config_of S codec i) a (m.nodes i)).0 ≡ out
        → IsCovered S
            (carried codec (m.air ++ out))
            (ids m.history)
            i
            (step S (config_of S codec i) a (m.nodes i)).1
        → All (Flying m.nodes) out
        → IsSettled m
        → IsSettled (advance S codec i a m)
    unfolding advance
    advance-IsSettled i a m out p covered flying h = record {
      nodes = rw p (
          set_node-all S codec
            (λ j n. IsCovered S (carried codec (m.air ++ out)) (ids m.history) j n) i _ m.nodes
            covered
            (λ j.
              IsCovered-grow S _ _ _ _ j (m.nodes j)
                (λ x k. ground (arith, contains-carried codec m.air out x)) (λ x k. k)
                (h.nodes j)));
      flying = rw p (
          All-map _ _ (m.air ++ out) (set_node-Flying i a m)
            (All-append _ m.air out h.flying flying));
      kept = λ x k. let (j, q) = h.kept x k in (j, set_node-keeps i a m j x q);
    }

    -- The same for a move that puts nothing on the air.
    pub silent-IsSettled :
        (i : String) (a : Action) (m : Mesh S codec)
        → on_air (step S (config_of S codec i) a (m.nodes i)).0 ≡ []
        → IsCovered S
            (carried codec m.air)
            (ids m.history)
            i
            (step S (config_of S codec i) a (m.nodes i)).1
        → IsSettled m
        → IsSettled (advance S codec i a m)
    silent-IsSettled i a m p covered h = advance-IsSettled i a m [] p (rw append-nil covered) tt h
