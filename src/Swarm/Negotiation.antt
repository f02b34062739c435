-- ===== src/Swarm/Negotiation.antt =====
-- The holder registry and the i-have / who-has messages of `BlobSwarm` in src/swarm.rs. serde's codec
-- for the messages is a parameter.
use xaeroflux.Prelude.{
  String, Bool, true, false, Option, none, some, List, [], ◌∷◌, ◌++◌, contains, ◌==◌, if◌then◌else◌,
}
use xaeroflux.Prelude.Dict.{Dict, lookup, insert}
use xaeroflux.Network.{Bytes}
use xaeroflux.Swarm.Blobs.{Blobs}

pub data SwarmMessage : Type 0 where
  -- hash, holder_node_id
  i_have : String → String → SwarmMessage
  -- hash, requester_node_id
  who_has : String → String → SwarmMessage

pub record MessageCodec : Type 0 where
  pub encode : SwarmMessage → Option Bytes
  pub decode : Bytes → Option SwarmMessage

-- What a handler returns: a value, or an error.
pub data Outcome {ℓ} (A : Type ℓ) : Type ℓ where
  ok : A → Outcome A
  malformed bad_hash store_failed : Outcome A

-- The registry: for each hash the set of its holders.
abbrev pub Registry : Type 0
Registry = Dict (List String)

abbrev pub or_empty : Option (List String) → List String
or_empty none = []
or_empty (some set) = set

-- `set.insert(holder)`
abbrev pub insert_holder : List String → String → List String
insert_holder set holder = if contains set holder then set else set ++ holder ∷ []

-- `node_id` is the swarm's own.
unfoldable pub record_holder : String → String → String → Registry → Registry
record_holder node_id hash_hex holder registry =
    if holder == node_id
    then registry
    else insert hash_hex (insert_holder (or_empty (lookup hash_hex registry)) holder) registry

module _ (B : Blobs) where
  open B use {World, Hash, show_hash, parse_hash, has}

  pub record Swarm : Type 0 where
    pub node_id : String
    pub registry : Registry
    pub world : World

  unfoldable pub announce : Swarm → Hash → SwarmMessage
  announce s h = i_have (show_hash h) s.node_id

  unfoldable pub query : Swarm → Hash → SwarmMessage
  query s h = who_has (show_hash h) s.node_id

  unfoldable pub holders : Swarm → Hash → List String
  holders s h = or_empty (lookup (show_hash h) s.registry)

  abbrev pub reply : Option Bool → Hash → Swarm → Outcome (Option SwarmMessage) × Swarm
  reply none h s = (store_failed, s)
  reply (some true) h s = (ok (some (announce s h)), s)
  reply (some false) h s = (ok none, s)

  abbrev pub on_who_has : Option Hash → Swarm → Outcome (Option SwarmMessage) × Swarm
  on_who_has none s = (bad_hash, s)
  on_who_has (some h) s = let (held, w) = has h s.world in reply held h (record s { world = w })

  abbrev pub on_parsed : Option SwarmMessage → Swarm → Outcome (Option SwarmMessage) × Swarm
  on_parsed none s = (malformed, s)
  on_parsed (some (i_have hash holder)) s =
      (ok none, record s { registry = record_holder s.node_id hash holder s.registry })
  on_parsed (some (who_has hash requester)) s = on_who_has (parse_hash hash) s

  unfoldable pub on_message : MessageCodec → Bytes → Swarm → Outcome (Option SwarmMessage) × Swarm
  on_message codec raw s = on_parsed (codec.decode raw) s
