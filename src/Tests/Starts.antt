-- ===== src/Tests/Starts.antt =====
-- Nodes that start on the machine of Disk.antt.
use mathlib.Core.Bool.{false≢true}
use text.Mathlib.TextEquality.{eq_iff}
use xaeroflux.Prelude.{String, ◌≡◌, ◌≢◌, refl, inl, some, List, [], ◌∷◌, ◌++◌, Distinct, string_dec}
use xaeroflux.Prelude.Dict.{lookup, insert}
use xaeroflux.Event.{Event, ids, decimal}
use xaeroflux.Sqlite.{Tables}
use xaeroflux.Storage.{store_event}
use xaeroflux.Peers.{load_cache, fill_cache}
use xaeroflux.Peers.Statements.{select_online, online_pairs}
use xaeroflux.Sqlite.Memory.{reliable, reliable-NeverFails}
use xaeroflux.Network.{received}
use xaeroflux.Node.{Action, app_send, store_next, gossip, Node, run, step}
use xaeroflux.Node.Steps.{announced}
use xaeroflux.Startup.Boot.{ok, ◌>>=◌}
use xaeroflux.Startup.Config.{XaeroFluxConfig, default}
use xaeroflux.Startup.Identity.{key_path, load_or_generate, load_or_generate-again}
use xaeroflux.Startup.Start.{XaeroFlux, from_config}
use xaeroflux.Startup.Started.{IsStarted}
use xaeroflux.Startup.Succeeds.{from_config-starts}
use xaeroflux.Startup.Restart.{actors_of, announced-restart-Distinct}
use xaeroflux.Startup.SharedKey.{same_directory-ignores}
use xaeroflux.Tests.Disk.{
  Disk, disk, disk-IsDurable, secrets, secrets-IsFaithful, host, host_Stores, host-AllWork,
}
use xaeroflux.Tests.Wire.{wire, wire_bytes, wire-RoundTrips}

abbrev pub blank : Disk
blank = record { files = []; database = record { events = []; group_peers = [] } }

load_or_generate-again_example :
    load_or_generate disk secrets "data/node.key"
      (load_or_generate disk secrets "data/node.key" blank).1
    ≡ (ok 7, (load_or_generate disk secrets "data/node.key" blank).1)
unfolding load_or_generate lookup
load_or_generate-again_example =
    load_or_generate-again disk secrets disk-IsDurable secrets-IsFaithful "data/node.key" blank 7
      refl

abbrev pub alice_config : XaeroFluxConfig (Unit {0}) String
alice_config = record (default (Unit {0}) String) {
  db_path = "data/peer1.db";
  relay_url = some "no relay";
}

abbrev bob_config : XaeroFluxConfig (Unit {0}) String
bob_config = record (default (Unit {0}) String) { db_path = "data/peer2.db" }

pub alice_apart : alice_config.db_path ≢ key_path disk secrets alice_config.db_path
unfolding key_path
alice_apart h = false≢true ((eq_iff "data/peer1.db" "data/node.key").1 h)

bob_apart : bob_config.db_path ≢ key_path disk secrets bob_config.db_path
unfolding key_path
bob_apart h = false≢true ((eq_iff "data/peer2.db" "data/node.key").1 h)

from_config-starts_example :
    (xf : XaeroFlux reliable disk secrets host) × (w' : Disk) × (from_config reliable disk secrets
        host alice_config blank
      ≡ (ok xf, w'))
    × IsStarted reliable disk secrets host host_Stores alice_config blank xf
unfolding lookup
from_config-starts_example =
    from_config-starts reliable disk secrets host host-AllWork reliable-NeverFails host_Stores
      alice_config blank alice_apart (inl refl)

-- What is there once a node has made its key.
abbrev pub keyed : Disk
keyed = (load_or_generate disk secrets "data/node.key" blank).1

abbrev pub node_over : Tables → XaeroFlux reliable disk secrets host
node_over tables = record {
  node = record { connection = tables; app_rx = []; outbound_rx = [] };
  cache = [];
  discovery_key = "xaeroflux";
  node_id = decimal 7;
  endpoint = tt;
  secret_key = 7;
}

abbrev pub alice : XaeroFlux reliable disk secrets host
alice = node_over blank.database

pub alice_start : from_config reliable disk secrets host alice_config blank ≡ (ok alice, keyed)
unfolding from_config ◌>>=◌ load_or_generate load_cache select_online fill_cache online_pairs lookup
    insert key_path string_dec
alice_start = refl

bob_start : from_config reliable disk secrets host bob_config keyed ≡ (ok alice, keyed)
unfolding from_config ◌>>=◌ load_or_generate load_cache select_online fill_cache online_pairs lookup
    insert key_path string_dec
bob_start = refl

abbrev pub letter : Event
letter = record { id = "e1"; payload = "hello"; source = decimal 7; ts = 7 }

abbrev actions : List Action
actions = app_send letter ∷ store_next ∷ []

abbrev stopped : Disk
stopped = record keyed {
  database =
      (run reliable (actors_of reliable disk secrets host host_Stores wire alice) actions
        alice.node).1.connection;
}

alice_again :
    from_config reliable disk secrets host alice_config stopped
    ≡ (ok (node_over stopped.database), stopped)
unfolding from_config ◌>>=◌ load_or_generate load_cache select_online fill_cache online_pairs lookup
    insert key_path string_dec run step store_event
alice_again = refl

-- The event is sent again after the restart.
announced-restart-Distinct_example : Distinct (
    ([]
      ++ ids (
          announced
            (run reliable
              (actors_of reliable disk secrets host host_Stores wire alice)
              actions
              alice.node).0))
    ++ ids (
        announced
          (run reliable
            (actors_of reliable disk secrets host host_Stores wire (node_over stopped.database))
            actions
            (node_over stopped.database).node).0))
announced-restart-Distinct_example =
    announced-restart-Distinct reliable disk secrets host host_Stores wire alice_config blank keyed
      stopped stopped alice (node_over stopped.database) actions actions alice_apart tt alice_start
      refl alice_again

-- The second node with an event in its queue.
abbrev busy : Node reliable
busy = record alice.node { app_rx = letter ∷ [] }

same_directory-ignores_example :
    (decimal 7 ≡ decimal 7)
    × (step reliable
          (actors_of reliable disk secrets host host_Stores wire alice)
          (gossip (received (wire_bytes letter)))
          busy
        ≡ ([], busy))
unfolding key_path load_or_generate lookup insert string_dec
same_directory-ignores_example =
    same_directory-ignores reliable disk secrets host host_Stores wire alice_config bob_config blank
      keyed keyed keyed alice alice busy letter (wire_bytes letter) alice_apart bob_apart refl
      alice_start (refl, refl) bob_start wire-RoundTrips refl refl
