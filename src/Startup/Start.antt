-- ===== src/Startup/Start.antt =====
-- `XaeroFlux::from_config` and the part of `NetworkActor::new` of src/lib.rs that runs before the discovery
-- task is spawned. `none` and `false` of the crates are their errors. The waits for the events topic change
-- nothing.
use xaeroflux.Prelude.{String, Bool, true, false, Option, none, some, List, [], ◌∷◌}
use xaeroflux.Sqlite.{Statement, Sqlite}
use xaeroflux.Node.{Node}
use xaeroflux.Peers.{Cache, Tracker, load_cache}
use xaeroflux.Startup.Files.{Files}
use xaeroflux.Startup.Boot.{
  StartError, no_database, no_schema, not_bound, no_events_topic, no_discovery_topic, no_peers,
  Result, ok, err, Boot, pure, ◌>>=◌,
}
use xaeroflux.Startup.Config.{
  XaeroFluxConfig, default, discovery_key, db_path, bootstrap_peers, built, RelayMode, relay_mode,
  Discovery, discovery_services, events_topic, discovery_topic, bootstrap_ids,
}
use xaeroflux.Startup.Identity.{Secrets, key_path, load_or_generate}

-- The endpoint's builder.
pub record EndpointBuilder (SecretKey StaticProvider RelayUrl : Type 0) : Type 0 where
  pub secret_key : SecretKey
  pub relay : RelayMode StaticProvider RelayUrl
  pub discovery : List (Discovery StaticProvider RelayUrl)

-- iroh, iroh-gossip, blake3 and the opening of a SQLite file.
pub record Host (S : Sqlite) (F : Files) (X : Secrets F) : Type 1 where
  pub StaticProvider : Type 0
  pub RelayUrl : Type 0
  pub PublicKey : Type 0
  pub Topic : Type 0
  pub Endpoint : Type 0
  -- `RelayUrl::from_str`, `PublicKey::from_str`, `public().to_string()`, and a topic of a digest
  pub parse_url : String → Option RelayUrl
  pub parse_key : String → Option PublicKey
  pub show_public : X.SecretKey → String
  pub hash : String → Topic
  pub open_db : String → F.World → Option S.Connection × F.World
  pub bind :
      EndpointBuilder X.SecretKey StaticProvider RelayUrl → F.World → Option Endpoint × F.World
  pub subscribe : Endpoint → Topic → List PublicKey → F.World → Bool × F.World

module _ (S : Sqlite) (F : Files) (X : Secrets F) (H : Host S F X) where
  open F use {World}
  open X use {SecretKey}
  open H use {
    StaticProvider, RelayUrl, PublicKey, Topic, Endpoint, parse_url, parse_key, show_public, hash,
    open_db, bind, subscribe,
  }

  abbrev pub or_fail : {A : Type 0} → StartError → Option A → Result A
  or_fail e none = err e
  or_fail e (some a) = ok a

  abbrev pub if_good : StartError → Bool → Result (Unit {0})
  if_good e true = ok tt
  if_good e false = err e

  -- The started node: the two actors' state and the peer tracker's cache.
  pub record XaeroFlux : Type 0 where
    pub node : Node S
    pub cache : Cache
    pub discovery_key : String
    pub node_id : String
    pub endpoint : Endpoint
    pub secret_key : SecretKey

  abbrev pub open_database : String → Boot World S.Connection
  open_database path w = let (c, w') = open_db path w in (or_fail no_database c, w')

  -- CREATE TABLE IF NOT EXISTS: a file without the tables counts as one where they are empty.
  abbrev pub create_tables : Statement (Unit {0})
  create_tables t = (tt, t)

  abbrev with_schema : Option (Unit {0}) → S.Connection → Result S.Connection
  with_schema none c = err no_schema
  with_schema (some _) c = ok c

  unfoldable pub ensure_schema : S.Connection → Boot World S.Connection
  ensure_schema c w = let (r, c') = S.execute create_tables c in (with_schema r c', w)

  abbrev bind_endpoint : EndpointBuilder SecretKey StaticProvider RelayUrl → Boot World Endpoint
  bind_endpoint b w = let (e, w') = bind b w in (or_fail not_bound e, w')

  abbrev join_topic : StartError → Endpoint → Topic → List PublicKey → Boot World (Unit {0})
  join_topic e endpoint topic peers w =
      let (good, w') = subscribe endpoint topic peers w in (if_good e good, w')

  abbrev pub loaded_tracker : Option (Unit {0}) → Tracker S → Result (Tracker S)
  loaded_tracker none t = err no_peers
  loaded_tracker (some _) t = ok t

  -- `PeerTracker::new` and `load_cache`.
  abbrev pub start_tracker : S.Connection → Boot World (Tracker S)
  start_tracker c w =
      let (r, t) = load_cache S (record { connection = c; cache = [] }) in (loaded_tracker r t, w)

  unfoldable pub start_network :
      SecretKey
      → XaeroFluxConfig StaticProvider RelayUrl
      → S.Connection
      → Boot World (Endpoint × Tracker S)
  start_network key c db = do
    endpoint ← bind_endpoint (record {
      secret_key = key;
      relay = relay_mode StaticProvider RelayUrl parse_url c;
      discovery = discovery_services StaticProvider RelayUrl c;
    })
    _ ←
        join_topic no_events_topic endpoint (events_topic hash c.discovery_key)
          (bootstrap_ids parse_key c.bootstrap_peers)
    _ ←
        join_topic no_discovery_topic endpoint (discovery_topic hash c.discovery_key)
          (bootstrap_ids parse_key c.bootstrap_peers)
    tracker ← start_tracker db
    pure (endpoint, tracker)

  abbrev pub assembled :
      SecretKey → XaeroFluxConfig StaticProvider RelayUrl → Endpoint × Tracker S → XaeroFlux
  assembled key c (endpoint, tracker) = record {
    node = record { connection = tracker.connection; app_rx = []; outbound_rx = [] };
    cache = tracker.cache;
    discovery_key = c.discovery_key;
    node_id = show_public key;
    endpoint = endpoint;
    secret_key = key;
  }

  unfoldable pub from_config : XaeroFluxConfig StaticProvider RelayUrl → Boot World XaeroFlux
  unfolding start_network ensure_schema
  from_config c = do
    key ← load_or_generate F X (key_path F X c.db_path)
    file ← open_database c.db_path
    db ← ensure_schema file
    network ← start_network key c db
    pure (assembled key c network)

  -- `XaeroFlux::new` and `new_with_bootstrap`, by the builder.
  unfoldable pub new : String → String → Boot World XaeroFlux
  unfolding from_config built
  new key path = from_config (
      built StaticProvider RelayUrl (discovery_key key ∷ db_path path ∷ [])
        (default StaticProvider RelayUrl))

  unfoldable pub new_with_bootstrap : String → String → List String → Boot World XaeroFlux
  unfolding from_config built
  new_with_bootstrap key path peers = from_config (
      built StaticProvider RelayUrl (discovery_key key ∷ db_path path ∷ bootstrap_peers peers ∷ [])
        (default StaticProvider RelayUrl))
