-- ===== src/Startup/Config.antt =====
-- `XaeroFluxConfig`, its builder, and what `NetworkActor::new` of src/lib.rs makes of a configuration: the
-- relay, the discovery services, the topics and the bootstrap peers.
use Prim.Native.String.{◌++◌ as ◌<>◌}
use xaeroflux.Prelude.{
  String, Bool, true, false, Option, none, some, List, [], ◌∷◌, ◌++◌, if◌then◌else◌,
}

-- `StaticProvider` and `RelayUrl` are iroh's.
module _ (StaticProvider RelayUrl : Type 0) where
  pub record XaeroFluxConfig : Type 0 where
    pub discovery_key : String
    pub db_path : String
    pub relay_url : Option String
    pub bootstrap_peers : List String
    pub use_n0_discovery : Bool
    pub use_mdns : Bool
    pub relay_disabled : Bool
    pub static_provider : Option StaticProvider

  -- `XaeroFluxConfig::default()`
  abbrev pub default : XaeroFluxConfig
  default = record {
    discovery_key = "xaeroflux";
    db_path = "xaeroflux.db";
    relay_url = none;
    bootstrap_peers = [];
    use_n0_discovery = true;
    use_mdns = true;
    relay_disabled = false;
    static_provider = none;
  }

  -- A call of one of the builder's methods.
  pub data Call : Type 0 where
    discovery_key db_path relay_url bootstrap_peer : String → Call
    bootstrap_peers : List String → Call
    no_n0_discovery no_mdns disable_relay : Call
    static_provider : StaticProvider → Call

  unfoldable pub set : Call → XaeroFluxConfig → XaeroFluxConfig
  set (discovery_key key) c = record c { discovery_key = key }
  set (db_path file) c = record c { db_path = file }
  set (relay_url url) c = record c { relay_url = some url }
  set (bootstrap_peers peers) c = record c { bootstrap_peers = peers }
  set (bootstrap_peer peer) c = record c { bootstrap_peers = c.bootstrap_peers ++ peer ∷ [] }
  set no_n0_discovery c = record c { use_n0_discovery = false }
  set no_mdns c = record c { use_mdns = false }
  set disable_relay c = record c { relay_disabled = true }
  set (static_provider provider) c = record c { static_provider = some provider }

  -- A chain of calls.
  unfoldable pub built : List Call → XaeroFluxConfig → XaeroFluxConfig
  unfolding set
  built [] c = c
  built (call ∷ calls) c = built calls (set call c)

  pub data RelayMode : Type 0 where
    disabled default_relays : RelayMode
    custom : RelayUrl → RelayMode

  abbrev pub custom_or_default : Option RelayUrl → RelayMode
  custom_or_default none = default_relays
  custom_or_default (some url) = custom url

  abbrev pub configured_relay : (String → Option RelayUrl) → Option String → RelayMode
  configured_relay from_str none = default_relays
  configured_relay from_str (some url) = custom_or_default (from_str url)

  unfoldable pub relay_mode : (String → Option RelayUrl) → XaeroFluxConfig → RelayMode
  relay_mode from_str c =
      if c.relay_disabled then disabled else configured_relay from_str c.relay_url

  -- The services that the endpoint's builder is given, in order.
  pub data Discovery : Type 0 where
    pkarr dns mdns : Discovery
    static : StaticProvider → Discovery

  abbrev pub static_discovery : Option StaticProvider → List Discovery
  static_discovery none = []
  static_discovery (some provider) = static provider ∷ []

  unfoldable pub discovery_services : XaeroFluxConfig → List Discovery
  discovery_services c =
      (if c.use_n0_discovery then pkarr ∷ dns ∷ [] else [])
      ++ ((if c.use_mdns then mdns ∷ [] else []) ++ static_discovery c.static_provider)

-- `hash` is the topic of the first 32 bytes of the blake3 digest of a text.
module _ {Topic : Type 0} (hash : String → Topic) where
  unfoldable pub discovery_topic : String → Topic
  discovery_topic key = hash ("cyan/discovery/" <> key)

  unfoldable pub events_topic : String → Topic
  events_topic key = hash ("cyan/events/" <> key)

-- `filter_map(|s| s.parse().ok())`
unfoldable pub bootstrap_ids :
    {PublicKey : Type 0} → (String → Option PublicKey) → List String → List PublicKey
bootstrap_ids parse [] = []
bootstrap_ids parse (s ∷ peers) =
    let rest = bootstrap_ids parse peers in elim (parse s) [ none ↦ rest | some pk ↦ pk ∷ rest ]
