-- ===== src/Tests/Publishing.antt =====
-- A config that is published on the machine of Disk.antt, with the keys of Signing.antt.
use xaeroflux.Prelude.{
  ℕ, zero, suc, String, ◌≡◌, refl, true, Option, none, some, List, [], ◌∷◌, ◌++◌, length,
}
use xaeroflux.Network.{Bytes}
use xaeroflux.Rendezvous.{SignedRendezvousConfig, ok, verify_config}
use xaeroflux.Rendezvous.Publish.{
  SignedCodec, Advertised, publish_rendezvous, publish_rendezvous-verifies,
}
use xaeroflux.Tests.Disk.{Disk, disk, disk-IsDurable, disk-NeverDenies}
use xaeroflux.Tests.Signing.{keys, keys-IsSound}
use xaeroflux.Tests.Wire.{write_text, read_text, read_text-write_text, ◌>>=◌}

abbrev write_texts : List String → Bytes → Bytes
write_texts [] bs = bs
write_texts (s ∷ ss) bs = write_text s ++ write_texts ss bs

abbrev read_texts : ℕ → Bytes → Option (List String × Bytes)
read_texts zero bs = some ([], bs)
read_texts (suc n) bs = do
  (s, after) ← read_text bs
  (ss, rest) ← read_texts n after
  some (s ∷ ss, rest)

read_texts-write_texts :
    (ss : List String) (bs : Bytes) → read_texts (length ss) (write_texts ss bs) ≡ some (ss, bs)
read_texts-write_texts [] bs = refl
read_texts-write_texts (s ∷ ss) bs =
    rw (read_text-write_text s (write_texts ss bs), read_texts-write_texts ss bs) refl

-- An optional text is a list of one text at most.
abbrev texts_of : Option String → List String
texts_of none = []
texts_of (some s) = s ∷ []

abbrev first_text : List String → Option String
first_text [] = none
first_text (s ∷ ss) = some s

first_text-texts_of : (o : Option String) → first_text (texts_of o) ≡ o
first_text-texts_of none = refl
first_text-texts_of (some s) = refl

abbrev fields_of : SignedRendezvousConfig → List String
fields_of c =
    c.signer ∷ c.signature ∷ c.config.env ∷ c.config.discovery_key ∷ c.config.bootstrap.node_id ∷ []

abbrev pub encode : SignedRendezvousConfig → Bytes
encode c =
    c.config.ts
    ∷ length (texts_of c.config.relay_url)
    ∷ length c.config.bootstrap.addr
    ∷ write_texts (fields_of c)
        (write_texts (texts_of c.config.relay_url) (write_texts c.config.bootstrap.addr []))

abbrev assemble : ℕ → List String → List String → List String → Option SignedRendezvousConfig
assemble ts (signer ∷ signature ∷ env ∷ key ∷ node_id ∷ []) relay addr = some (record {
  config = record {
    env = env;
    discovery_key = key;
    bootstrap = record { node_id = node_id; addr = addr };
    relay_url = first_text relay;
    ts = ts;
  };
  signer = signer;
  signature = signature;
})
assemble ts _ relay addr = none

abbrev pub decode : Bytes → Option SignedRendezvousConfig
decode (ts ∷ n ∷ m ∷ bs) = do
  (fields, after) ← read_texts 5 bs
  (relay, rest) ← read_texts n after
  (addr, _) ← read_texts m rest
  assemble ts fields relay addr
decode _ = none

decode-encode : (c : SignedRendezvousConfig) → decode (encode c) ≡ some c
decode-encode c =
    let relay = texts_of c.config.relay_url in
    let addr = c.config.bootstrap.addr in
    rw
      (
        read_texts-write_texts (fields_of c) (write_texts relay (write_texts addr [])),
        read_texts-write_texts relay (write_texts addr []),
        read_texts-write_texts addr [],
        first_text-texts_of c.config.relay_url,
      )
      refl

abbrev pub codec : SignedCodec
codec = record { to_vec_pretty = λ c. some (encode c); from_slice = decode }

abbrev node : Advertised disk codec keys
node = record {
  discovery_key = "cyan-dev";
  node_id = "key";
  secret_key = tt;
  ip_addrs = "127.0.0.1:4242" ∷ [];
  relay_urls = [];
}

abbrev pub blank : Disk
blank = record { files = []; database = record { events = []; group_peers = [] } }

publish_rendezvous-verifies_example :
    ((publish_rendezvous disk codec keys node "dev" none 5 "data/r.json" blank).0 ≡ true)
    × ((bytes : Bytes) × (signed : SignedRendezvousConfig) × (disk.read "data/r.json"
            (publish_rendezvous disk codec keys node "dev" none 5 "data/r.json" blank).1
          ≡ some bytes)
        × (decode bytes ≡ some signed)
        × (verify_config keys signed ≡ ok)
        × (signed.signer ≡ "key")
        × (signed.config.bootstrap.node_id ≡ "key")
        × (signed.config.discovery_key ≡ "cyan-dev"))
publish_rendezvous-verifies_example =
    publish_rendezvous-verifies disk codec keys disk-IsDurable disk-NeverDenies node "dev" none 5
      "data/r.json" blank keys-IsSound (λ c. (_, refl)) (λ c. (encode c, refl, decode-encode c))
      refl
