-- ===== src/Discovery.antt =====
-- The peer discovery task that `NetworkActor::new` of src/lib.rs spawns: presence and introductions
-- on the discovery topic, subscription to group topics, and the peer tracker. iroh-gossip is a
-- parameter; what the task hands to it is recorded as a list of effects, oldest first.
pub mod Actions
pub mod Rules
pub mod Closed
pub mod Handlers
pub mod Topics
pub mod Tracking
pub mod Total
pub mod Exchange
pub mod Groups
pub mod Adds
pub mod Introductions
pub mod Cascade
use xaeroflux.Prelude.{
  ℕ, suc, ◌+◌, String, Bool, Option, none, some, List, [], ◌∷◌, ◌++◌, ltb, contains, length, ◌==◌,
  if◌then◌else◌, map,
}
use xaeroflux.Prelude.Int.{ℤ, pos}
use xaeroflux.Prelude.Dict.{insert}
use xaeroflux.Network.{Bytes, GossipEvent, received, neighbor_up, neighbor_down, lagged, failed}
use xaeroflux.Json.{Json, get_str, get_array}
use xaeroflux.Peers.{upsert_peer, mark_offline, get_peers, get_active_groups, prune_stale}
use xaeroflux.Discovery.Actions.{
  World, announce, introduce, Level, debug, info, warn, Task, pure, ◌>>=◌, ◌>>◌, emit, log_slice,
  log_id, with_tracker, read, subscribe, join,
}

-- `peer_introduction_json`, as the value that is printed.
unfoldable pub peer_introduction : (J : Json) → String → List String → J.Value
peer_introduction J group_id peers = J.object (
    insert "peers" (J.array (map J.string peers))
      (insert "group_id" (J.string group_id) (insert "msg_type" (J.string "peer_introduction") [])))

-- What wakes the task: the two intervals, and an item of the discovery topic with the times at which
-- its handler reads the clock.
pub data Trigger : Type 0 where
  announce_tick : Trigger
  prune_tick : ℤ → Trigger
  topic : (ℕ → ℤ) → GossipEvent → Trigger

module _ {W : World} where
  open W use {S, J, PublicKey, parse_key}

  -- A log event that prints the node id and the group id.
  pub log_both : Level → String → String → Task W (Unit {0})
  log_both level from_node gid = do log_slice level from_node; log_slice level gid

  -- A group whose topic is subscribed to: the announcing peer is added to it.
  join_known : String → String → Option PublicKey → Task W (Unit {0})
  join_known from_node gid none = pure tt
  join_known from_node gid (some pk) = do
    joined ← join gid pk
    log_both (if joined then info else debug) from_node gid

  subscribe_new : String → String → Option PublicKey → Task W (Unit {0})
  subscribe_new from_node gid peer = do
    good ← subscribe gid peer
    if good then log_both info from_node gid else log_slice warn gid

  pub join_group : String → String → Task W (Unit {0})
  unfolding log_both join_known subscribe_new
  join_group from_node gid = do
    known ← read (λ s. contains s.senders gid)
    if known
        then join_known from_node gid (parse_key from_node)
        else subscribe_new from_node gid (parse_key from_node)

  -- `upsert_peer`, and then `get_peers`.
  pub track_peer : ℤ → String → String → Task W (Option Bool × List String)
  track_peer now from_node gid = do
    added ← with_tracker (upsert_peer S now gid from_node)
    peers ← read (λ s. get_peers S s.tracker gid)
    pure (added, peers)

  -- The branches on its result: an introduction is due from two peers on.
  note_peer : String → String → Option Bool × List String → Task W (List (String × List String))
  note_peer from_node gid (none, peers) = pure []
  note_peer from_node gid (some is_new, peers) = do
    if is_new then log_both info from_node gid else pure tt
    pure (if ltb 1 (length peers) then (gid, peers) ∷ [] else [])

  -- One round of the loop over `local_groups`; what is no text is skipped.
  pub track_group : ℤ → String → Option String → Task W (List (String × List String))
  unfolding log_both join_group track_peer note_peer
  track_group now from_node none = pure []
  track_group now from_node (some gid) = do
    join_group from_node gid
    tracked ← track_peer now from_node gid
    note_peer from_node gid tracked

  -- The loop. `clock i` is the time of its round `i`.
  pub track_groups : (ℕ → ℤ) → String → ℕ → List J.Value → Task W (List (String × List String))
  unfolding track_group
  track_groups clock from_node i [] = pure []
  track_groups clock from_node i (v ∷ vs) = do
    first ← track_group (clock i) from_node (J.as_str v)
    rest ← track_groups clock from_node (suc i) vs
    pure (first ++ rest)

  pub introduce_all : List (String × List String) → Task W (Unit {0})
  introduce_all [] = pure tt
  introduce_all ((gid, peers) ∷ rest) = do
    log_slice info gid
    emit (introduce gid peers)
    introduce_all rest

  -- A `groups_exchange` message from its `node_id` and its `local_groups`.
  exchange_groups : (ℕ → ℤ) → String → Option (List J.Value) → Task W (Unit {0})
  unfolding track_groups introduce_all
  exchange_groups clock from_node none = pure tt
  exchange_groups clock from_node (some groups) = do
    log_slice info from_node
    introductions ← track_groups clock from_node 0 groups
    introduce_all introductions

  exchange : (ℕ → ℤ) → Option String → J.Value → Task W (Unit {0})
  unfolding exchange_groups
  exchange clock none json = pure tt
  exchange clock (some from_node) json = do
    log_slice info from_node
    exchange_groups clock from_node (get_array J json "local_groups")

  -- Other messages on the topic are ignored.
  on_typed : (ℕ → ℤ) → Option String → J.Value → Task W (Unit {0})
  unfolding exchange
  on_typed clock none json = pure tt
  on_typed clock (some msg_type) json =
      if msg_type == "groups_exchange"
      then exchange clock (get_str J json "node_id") json
      else pure tt

  on_parsed : (ℕ → ℤ) → Option J.Value → Task W (Unit {0})
  unfolding on_typed
  on_parsed clock none = pure tt
  on_parsed clock (some json) = on_typed clock (get_str J json "msg_type") json

  unfoldable pub on_message : (ℕ → ℤ) → Bytes → Task W (Unit {0})
  unfolding on_parsed
  on_message clock content = on_parsed clock (J.from_slice content)

  -- The loop of the announcement, over the active groups.
  reintroduce : List String → Task W (Unit {0})
  reintroduce [] = pure tt
  reintroduce (gid ∷ groups) = do
    peers ← read (λ s. get_peers S s.tracker gid)
    if ltb 1 (length peers) then (do emit (introduce gid peers); log_slice debug gid) else pure tt
    reintroduce groups

  unfoldable pub on_announce : Task W (Unit {0})
  unfolding reintroduce
  on_announce = do
    emit announce
    groups ← read (λ s. get_active_groups S s.tracker)
    reintroduce groups

  -- Stale after 300 seconds. The outcome is only logged.
  unfoldable pub on_prune : ℤ → Task W (Unit {0})
  on_prune now = do count ← with_tracker (prune_stale S now (pos 300)); pure tt

  -- The loop after a departure, over the affected groups.
  introduce_rest : List String → Task W (Unit {0})
  introduce_rest [] = pure tt
  introduce_rest (gid ∷ groups) = do
    peers ← read (λ s. get_peers S s.tracker gid)
    if ltb 1 (length peers) then (do log_slice info gid; emit (introduce gid peers)) else pure tt
    introduce_rest groups

  after_departure : Option (List String) → Task W (Unit {0})
  unfolding introduce_rest
  after_departure none = pure tt
  after_departure (some groups) = introduce_rest groups

  unfoldable pub on_neighbor_down : ℤ → String → Task W (Unit {0})
  unfolding after_departure
  on_neighbor_down now peer = do
    log_id info peer
    affected ← with_tracker (mark_offline S now peer)
    after_departure affected

  on_topic : (ℕ → ℤ) → GossipEvent → Task W (Unit {0})
  on_topic clock (received content) = on_message clock content
  on_topic clock (neighbor_up peer) = log_id info peer
  on_topic clock (neighbor_down peer) = on_neighbor_down (clock 0) peer
  on_topic clock lagged = pure tt
  on_topic clock failed = pure tt

  -- The branches of the `select!`.
  unfoldable pub on_trigger : Trigger → Task W (Unit {0})
  unfolding on_topic
  on_trigger announce_tick = on_announce
  on_trigger (prune_tick now) = on_prune now
  on_trigger (topic clock event) = on_topic clock event

  -- The loop. A panic ends the task.
  unfoldable pub run_task : List Trigger → Task W (Unit {0})
  run_task [] = pure tt
  run_task (t ∷ triggers) = do on_trigger t; run_task triggers
