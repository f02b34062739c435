-- ===== src/Swarm/Holders.antt =====
-- The registry of src/swarm.rs (record_holder, holders, on_message) over sequences of messages, and the
-- exchange of a who-has and an i-have between two nodes.
use xaeroflux.Prelude.{
  String, ◌≡◌, ◌≢◌, refl, ◌∙◌, ap, Bool, true, false, ◌&&◌, ◌||◌, not, Option, none, some, List, [],
  ◌∷◌, contains, contains-append, Distinct, append-Distinct, ◌==◌, if◌then◌else◌, arith,
}
use xaeroflux.Prelude.Dict.{lookup, lookup-insert}
use xaeroflux.Network.{Bytes}
use xaeroflux.Swarm.Blobs.{Blobs, IsWorking}
use xaeroflux.Swarm.Negotiation.{
  SwarmMessage, i_have, who_has, MessageCodec, ok, Registry, or_empty, insert_holder, record_holder,
  Swarm, announce, query, holders, on_message, on_who_has, on_parsed, reply,
}

-- Who is on record for a hash in text form.
abbrev pub on_record : Registry → String → List String
on_record registry hash_hex = or_empty (lookup hash_hex registry)

contains-insert_holder :
    (set : List String) (holder y : String)
    → contains (insert_holder set holder) y ≡ (contains set y || holder == y)
contains-insert_holder set holder y = ground (arith, contains-append set (holder ∷ []) y)

contains-record_holder :
    (me hash holder g y : String) (registry : Registry)
    → contains (on_record (record_holder me hash holder registry) g) y
      ≡ (contains (on_record registry g) y || (not (holder == me) && hash == g && holder == y))
unfolding record_holder
contains-record_holder me hash holder g y registry = ground (
  arith,
  contains-insert_holder (on_record registry hash) holder y,
  lookup-insert g hash (insert_holder (on_record registry hash) holder) registry,
)

insert_holder-Distinct :
    (set : List String) (holder : String) → Distinct set → Distinct (insert_holder set holder)
insert_holder-Distinct set holder d = ground (arith, append-Distinct set holder)

AllDistinct : Registry → Type 0
AllDistinct registry = (g : String) → Distinct (on_record registry g)

record_holder-AllDistinct :
    (me hash holder : String) (registry : Registry)
    → AllDistinct registry
    → AllDistinct (record_holder me hash holder registry)
unfolding record_holder AllDistinct
record_holder-AllDistinct me hash holder registry d g = ground (
  arith,
  d g,
  insert_holder-Distinct (on_record registry hash) holder (d hash),
  lookup-insert g hash (insert_holder (on_record registry hash) holder) registry,
)

module _ (B : Blobs) where
  open B use {World, Hash, show_hash, parse_hash, has}

  -- The messages of a listener, one after the other.
  unfoldable pub receive_all : MessageCodec → List Bytes → Swarm B → Swarm B
  receive_all codec [] s = s
  receive_all codec (raw ∷ raws) s = receive_all codec raws (on_message B codec raw s).1

  -- A message names y as a holder of the hash.
  abbrev pub names_holder : Option SwarmMessage → String → String → Bool
  names_holder none g y = false
  names_holder (some (i_have hash holder)) g y = hash == g && holder == y
  names_holder (some (who_has hash requester)) g y = false

  abbrev pub announced_by : MessageCodec → List Bytes → String → String → Bool
  announced_by codec [] g y = false
  announced_by codec (raw ∷ raws) g y =
      names_holder (codec.decode raw) g y || announced_by codec raws g y

  on_who_has-keeps :
      (o : Option Hash) (s : Swarm B)
      → ((on_who_has B o s).1.node_id ≡ s.node_id) × ((on_who_has B o s).1.registry ≡ s.registry)
  on_who_has-keeps none s = (refl, refl)
  on_who_has-keeps (some h) s = go ((has h s.world).0)
    where
      go :
          (held : Option Bool)
          → ((reply B held h (record s { world = (has h s.world).1 })).1.node_id ≡ s.node_id)
            × ((reply B held h (record s { world = (has h s.world).1 })).1.registry ≡ s.registry)
      go none = (refl, refl)
      go (some true) = (refl, refl)
      go (some false) = (refl, refl)

  on_parsed-keeps :
      (m : Option SwarmMessage) (s : Swarm B) (g y : String)
      → ((on_parsed B m s).1.node_id ≡ s.node_id)
        × (contains (on_record (on_parsed B m s).1.registry g) y
            ≡ (contains (on_record s.registry g) y || (not (y == s.node_id) && names_holder m g y)))
  on_parsed-keeps none s g y = (refl, ground arith)
  on_parsed-keeps (some (i_have hash holder)) s g y =
      (refl, ground (arith, contains-record_holder s.node_id hash holder g y s.registry))
  on_parsed-keeps (some (who_has hash requester)) s g y =
      let same = on_who_has-keeps (parse_hash hash) s in
      (same.0, ap (λ r. contains (on_record r g) y) same.1 ∙ ground arith)

  on_record-receive_all :
      (codec : MessageCodec) (raws : List Bytes) (s : Swarm B) (g y : String)
      → contains (on_record (receive_all codec raws s).registry g) y ≡ (
          contains (on_record s.registry g) y
          || (not (y == s.node_id) && announced_by codec raws g y))
  unfolding receive_all on_message
  on_record-receive_all codec [] s g y = ground arith
  on_record-receive_all codec (raw ∷ raws) s g y =
      let (same_id, one) = on_parsed-keeps (codec.decode raw) s g y in
      let rest = on_record-receive_all codec raws (on_message B codec raw s).1 g y in
      ground (arith, same_id, one, rest)

  -- Whatever messages arrive, the holders of a hash are those on record before and those that a
  -- message has announced for this very hash, the node itself left out.
  pub contains-holders-receive_all :
      (codec : MessageCodec) (raws : List Bytes) (s : Swarm B) (h : Hash) (y : String)
      → contains (holders B (receive_all codec raws s) h) y ≡ (
          contains (holders B s h) y
          || (not (y == s.node_id) && announced_by codec raws (show_hash h) y))
  unfolding holders
  contains-holders-receive_all codec raws s h y = on_record-receive_all codec raws s (show_hash h) y

  -- The answer of a store that works to a who-has, and the world left behind.
  reply-holds :
      (working : IsWorking B) (h : Hash) (s : Swarm B)
      → (on_who_has B (some h) s).0
        ≡ ok (if working.holds h s.world then some (announce B s h) else none)
  unfolding announce
  reply-holds working h s = rw (working.has-holds h s.world) (go (working.holds h s.world))
    where
      go :
          (held : Bool)
          → (reply B (some held) h (record s { world = (has h s.world).1 })).0
            ≡ ok (if held then some (announce B s h) else none)
      go true = refl
      go false = refl

  -- What is assumed of the encodings: a message is read back as it was, and so is a hash.
  abbrev pub RoundTrips : MessageCodec → Type 0
  RoundTrips codec =
      ((m : SwarmMessage) (raw : Bytes) → codec.encode m ≡ some raw → codec.decode raw ≡ some m)
      × ((h : Hash) → parse_hash (show_hash h) ≡ some h)

  -- Node a asks for a blob and node b answers. If b holds the blob, b's answer is its announcement, and
  -- once a has taken it in, b is among a's holders of the hash; if not, b does not answer.
  pub negotiate :
      (working : IsWorking B) (codec : MessageCodec)
      → RoundTrips codec
      → (a b : Swarm B) (h : Hash) (question answer : Bytes) → b.node_id ≢ a.node_id
      → codec.encode (query B a h) ≡ some question
      → codec.encode (announce B b h) ≡ some answer
      → ((on_message B codec question b).0
          ≡ ok (if working.holds h b.world then some (announce B b h) else none))
        × (contains (holders B (on_message B codec answer a).1 h) b.node_id ≡ true)
  unfolding on_message query holders announce
  negotiate working codec laws a b h question answer other asked answered = (first, second)
    where
      first :
          (on_message B codec question b).0
          ≡ ok (if working.holds h b.world then some (announce B b h) else none)
      first = rw (laws.0 (query B a h) question asked, laws.1 h) (reply-holds working h b)

      second : contains (holders B (on_message B codec answer a).1 h) b.node_id ≡ true
      second =
          (on_parsed-keeps (codec.decode answer) a (show_hash h) b.node_id).1
          ∙ rw (laws.0 (announce B b h) answer answered) (ground (arith, other))
