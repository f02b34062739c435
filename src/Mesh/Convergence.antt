-- ===== src/Mesh/Convergence.antt =====
-- Where a mesh ends: once the nodes have nothing queued, a node that has been given what was broadcast
-- holds what was sent, and so do all that have.
use mathlib.Core.Path.{subst}
use mathlib.Core.Quot
use mathlib.Core.Quot.{Quot}
use xaeroflux.Prelude.{
  ◌≡◌, sym, ◌∙◌, ◌≢◌, ◌⊎◌, String, string_dec, true, ◌||◌, some, List, [], ◌∷◌, All, arith,
  contains, contains-append, map, ◌==◌, inl, inr,
}
use xaeroflux.Event.{Event, ids}
use xaeroflux.Sqlite.{Sqlite, NeverFails}
use xaeroflux.Storage.Insert.{ids-append}
use xaeroflux.Network.{Bytes, EventCodec, RoundTrips, received, on_gossip}
use xaeroflux.Network.Sync.{on_gossip-Syncs, on_gossip-received}
use xaeroflux.Node.{Action, gossip, sent, Config, Node, step, run}
use xaeroflux.Node.Steps.{table}
use xaeroflux.Mesh.{Mesh, config_of, Reaches}
use xaeroflux.Mesh.Nodes.{All-map}
use xaeroflux.Mesh.Genuine.{IsFresh}
use xaeroflux.Mesh.Coverage.{has_id, step-has_id, arrival}
use xaeroflux.Mesh.Carried.{IsTotal, carried}
use xaeroflux.Mesh.Settled.{Flying, IsSettled, IsSettled-carried}
use xaeroflux.Mesh.Invariant.{Reaches-IsSettled}

-- Each of these arrives, in this order.
abbrev pub arrivals : List Bytes → List Action
arrivals = map (λ b. gossip (received b))

module _ (S : Sqlite) where
  run-has_id :
      (cfg : Config) (bs : List Bytes) (n : Node S) (x : String)
      → has_id S n x ≡ true
      → has_id S (run S cfg (arrivals bs) n).1 x ≡ true
  unfolding run
  run-has_id cfg [] n x h = h
  run-has_id cfg (b ∷ bs) n x h =
      run-has_id cfg bs (step S cfg (gossip (received b)) n).1 x
        (step-has_id S cfg (gossip (received b)) n x h)

  -- A message of an event that the node has, if it is its own, leaves the event's id in the table.
  step-arrival :
      (cfg : Config) (b : Bytes) (e : Event) (n : Node S)
      → NeverFails S
      → cfg.codec.decode b ≡ some e
      → has_id S n e.id ≡ true ⊎ (e.source ≢ cfg.node_id)
      → has_id S (step S cfg (gossip (received b)) n).1 e.id ≡ true
  unfolding step
  step-arrival cfg b e n ok p (inl own) = step-has_id S cfg (gossip (received b)) n e.id own
  step-arrival cfg b e n ok p (inr foreign) =
      (on_gossip-received S cfg.node_id cfg.codec b e n.connection ok p foreign).0

  -- Nothing else is added.
  has_id-step :
      (cfg : Config) (b : Bytes) (e : Event) (n : Node S) (x : String)
      → NeverFails S
      → cfg.codec.decode b ≡ some e
      → has_id S n e.id ≡ true ⊎ (e.source ≢ cfg.node_id)
      → has_id S (step S cfg (gossip (received b)) n).1 x ≡ (has_id S n x || e.id == x)
  unfolding step
  has_id-step cfg b e n x ok p own =
      let (o, c) = on_gossip S cfg.node_id cfg.codec (received b) n.connection in
      ground (
        arith,
        (on_gossip-Syncs S cfg.node_id cfg.codec (received b) n.connection).rows,
        arrival S cfg b e n.connection p x,
        step-arrival cfg b e n ok p own,
        ids-append (table S n) (sent o),
        contains-append (ids (table S n)) (ids (sent o)) x,
      )

  -- The node has the events of its own among those that the bytes decode to.
  abbrev HasOwn : Config → Node S → Bytes → Type 0
  HasOwn cfg n b =
      (e : Event) × (cfg.codec.decode b ≡ some e)
      × (has_id S n e.id ≡ true ⊎ (e.source ≢ cfg.node_id))

  step-HasOwn :
      (cfg : Config) (a : Action) (n : Node S) (b : Bytes)
      → HasOwn cfg n b
      → HasOwn cfg (step S cfg a n).1 b
  step-HasOwn cfg a n b (e, p, inl own) = (e, p, inl (step-has_id S cfg a n e.id own))
  step-HasOwn cfg a n b (e, p, inr foreign) = (e, p, inr foreign)

  -- A node ends with what it had and what the messages carry.
  has_id-run :
      (cfg : Config) (bs : List Bytes) (n : Node S) (x : String)
      → NeverFails S
      → All (HasOwn cfg n) bs
      → has_id S (run S cfg (arrivals bs) n).1 x
        ≡ (has_id S n x || contains (carried cfg.codec bs) x)
  unfolding run
  has_id-run cfg [] n x ok h = ground arith
  has_id-run cfg (b ∷ bs) n x ok ((e, p, own), h) =
      let n' = (step S cfg (gossip (received b)) n).1 in
      let rest = All-map _ _ bs (step-HasOwn cfg (gossip (received b)) n) h in
      ground (
        arith,
        p,
        has_id-run cfg bs n' x ok rest,
        has_id-step cfg b e n x ok p own,
        contains-append (ids (sent (cfg.codec.decode b))) (carried cfg.codec bs) x,
      )

-- What a node holds, seen as a set of ids.
abbrev SameIds : List String → List String → Type 0
SameIds xs ys = (x : String) → contains xs x ≡ contains ys x

abbrev pub IdSet : Type 0
IdSet = Quot SameIds

abbrev pub id_set : List Event → IdSet
id_set es = Quot.mk (ids es)

id_set-path :
    (es fs : List Event)
    → ((x : String) → contains (ids es) x ≡ contains (ids fs) x)
    → id_set es ≡ id_set fs
id_set-path es fs h = Quot.sound {r = SameIds} {a = ids es} {b = ids fs} h

module _ (S : Sqlite) (codec : EventCodec) where
  -- No channel of any node holds an event.
  pub record IsQuiet (m : Mesh S codec) : Type 0 where
    pub no_app : (i : String) → (m.nodes i).app_rx ≡ []
    pub no_outbound : (i : String) → (m.nodes i).outbound_rx ≡ []

  -- The node after it has been given everything that was broadcast, in the order of the broadcasts.
  abbrev pub caught_up : Mesh S codec → String → Node S
  caught_up m i = (run S (config_of S codec i) (arrivals m.air) (m.nodes i)).1

  Flying-HasOwn :
      (m : Mesh S codec) (i : String) (b : Bytes)
      → Flying S codec m.nodes b
      → HasOwn S (config_of S codec i) (m.nodes i) b
  Flying-HasOwn m i b (e, p, own) = elim (string_dec e.source i) [
    | yes q ↦ (e, p, inl (subst (λ j. has_id S (m.nodes j) e.id ≡ true) q own))
    | no q ↦ (e, p, inr q)
  ]

  -- Everything that was sent has been broadcast.
  broadcast_all :
      (m : Mesh S codec)
      → IsSettled S codec m
      → IsQuiet m
      → (x : String) → contains (ids m.history) x ≡ true
      → contains (carried codec m.air) x ≡ true
  broadcast_all m h quiet x sent_one =
      let (j, kept) = h.kept x sent_one in
      ground (arith, kept, quiet.no_app j, quiet.no_outbound j, (h.nodes j).covered x)

  -- Convergence: a mesh started empty, no statement fails, and the codec encodes every event so that it
  -- decodes to itself. Whatever the nodes have done and in whatever order, and whatever gossip has delivered,
  -- repeated, reordered or lost: once the channels are empty, a node that is given everything that was
  -- broadcast holds the ids of exactly the events that the applications of all nodes have sent.
  pub caught_up-converges :
      {m n : Mesh S codec}
      → NeverFails S
      → RoundTrips codec
      → IsTotal codec
      → IsFresh S codec m
      → Reaches S codec m n
      → IsQuiet n
      → (i x : String) → contains (ids (table S (caught_up n i))) x ≡ contains (ids n.history) x
  caught_up-converges {m} {n} ok rt total fresh r quiet i x =
      let h = Reaches-IsSettled S codec ok rt total fresh r in
      ground (
        arith,
        has_id-run S (config_of S codec i) n.air (n.nodes i) x ok
            (All-map _ _ n.air (Flying-HasOwn n i) h.flying),
        broadcast_all n h quiet x,
        IsSettled-carried S codec n h x,
        (h.nodes i).sent_once x,
      )

  -- Under the same conditions all nodes that have been given everything that was broadcast hold one and
  -- the same set of ids, that of the history: the order in which each stored them is all that tells them
  -- apart.
  pub caught_up-agree :
      {m n : Mesh S codec}
      → NeverFails S
      → RoundTrips codec
      → IsTotal codec
      → IsFresh S codec m
      → Reaches S codec m n
      → IsQuiet n
      → (i j : String)
      → (id_set (table S (caught_up n i)) ≡ id_set n.history)
        × (id_set (table S (caught_up n i)) ≡ id_set (table S (caught_up n j)))
  caught_up-agree {m} {n} ok rt total fresh r quiet i j =
      let at_i = id_set-path _ n.history (caught_up-converges ok rt total fresh r quiet i) in
      let at_j = id_set-path _ n.history (caught_up-converges ok rt total fresh r quiet j) in
      (at_i, at_i ∙ sym at_j)
