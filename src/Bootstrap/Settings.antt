-- ===== src/Bootstrap/Settings.antt =====
-- What the bootstrap server (src/bin/xaeroflux_bootstrap.rs) reads from its environment.
use xaeroflux.Prelude.{
  String, Bool, false, not, Option, none, some, List, [], ◌∷◌, ◌++◌, ◌==◌, if◌then◌else◌,
}
use xaeroflux.Startup.Files.{Files}
use xaeroflux.Startup.Config.{
  XaeroFluxConfig, default, Call, discovery_key, db_path, relay_url, no_n0_discovery, built,
}
use xaeroflux.Bootstrap.Scope.{text_or}

pub record Settings : Type 0 where
  pub relay_url : Option String
  pub discovery_key : String
  pub db_path : String
  pub no_n0 : Bool
  pub iggy_addr : String
  pub iggy_enabled : Bool
  pub rendezvous_env : String
  pub rendezvous_path : String

abbrev is_set_to : String → Option String → Bool
is_set_to value none = false
is_set_to value (some v) = v == value

-- `env` is `env::var(_).ok()`.
unfoldable pub settings : Files → (String → Option String) → Settings
settings F env =
    let db = text_or "/opt/cyan/data/bootstrap.db" (env "DB_PATH") in
    record {
      relay_url = env "RELAY_URL";
      discovery_key = text_or "cyan-dev" (env "DISCOVERY_KEY");
      db_path = db;
      no_n0 = is_set_to "1" (env "NO_N0");
      iggy_addr = text_or "127.0.0.1:8090" (env "IGGY_ADDR");
      iggy_enabled = not (is_set_to "0" (env "IGGY_ENABLED"));
      rendezvous_env = text_or "dev" (env "XAEROFLUX_ENV");
      rendezvous_path =
          text_or (F.join (text_or "." (F.parent db)) "rendezvous.json") (env "RENDEZVOUS_PATH");
    }

module _ (StaticProvider RelayUrl : Type 0) where
  abbrev relay_call : Option String → List (Call StaticProvider RelayUrl)
  relay_call none = []
  relay_call (some url) = relay_url url ∷ []

  -- The builder's calls.
  unfoldable pub node_config : Settings → XaeroFluxConfig StaticProvider RelayUrl
  unfolding built
  node_config s =
      built StaticProvider RelayUrl
        (discovery_key s.discovery_key
          ∷ db_path s.db_path
          ∷ (relay_call s.relay_url ++ (if s.no_n0 then no_n0_discovery ∷ [] else [])))
        (default StaticProvider RelayUrl)
