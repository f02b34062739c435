-- ===== src/Tests/Sessions.antt =====
-- Sessions of the command-line tool (Cli/Session.antt) on the machine of Disk.antt.
use mathlib.Core.Bool.{false≢true}
use text.Mathlib.TextEquality.{eq_iff}
use Prim.Native.String.{◌++◌ as ◌<>◌}
use xaeroflux.Prelude.{String, ◌≡◌, ◌≢◌, refl, true, none, List, [], ◌∷◌, All, string_dec}
use xaeroflux.Prelude.Dict.{lookup, insert}
use xaeroflux.Sqlite.{Tables}
use xaeroflux.Sqlite.Memory.{reliable}
use xaeroflux.Peers.{load_cache, fill_cache}
use xaeroflux.Peers.Statements.{select_online, online_pairs}
use xaeroflux.Node.{Action, store_next, broadcast_next}
use xaeroflux.Startup.Boot.{◌>>=◌}
use xaeroflux.Startup.Identity.{key_path, load_or_generate}
use xaeroflux.Startup.Start.{Host, XaeroFlux, new_with_bootstrap}
use xaeroflux.Startup.Started.{Stores}
use xaeroflux.Cli.Session.{
  Arguments, Surroundings, Commands, send, recv, info, main, summary, topic,
}
use xaeroflux.Cli.Survives.{Starts, after_session}
use xaeroflux.Cli.Names.{IsFrom, info-IsFrom}
use xaeroflux.Tests.Disk.{Disk, disk, secrets, host, host_Stores}
use xaeroflux.Tests.Wire.{wire}

abbrev long_name : String
long_name = "0123456789abcdef0123456789abcdef0123456789abcdef0123456789abcdef"

-- The machine, with node ids of 64 digits.
abbrev named : Host reliable disk secrets
named = record host { show_public = λ k. long_name }

abbrev named_Stores : Stores named
named_Stores = record {
  stored = host_Stores.stored;
  tables-open_db = host_Stores.tables-open_db;
  stored-fill = host_Stores.stored-fill;
  stored-create_dir_all = host_Stores.stored-create_dir_all;
  stored-write = host_Stores.stored-write;
}

abbrev blank : Disk
blank = record { files = []; database = record { events = []; group_peers = [] } }

abbrev keyed : Disk
keyed = (load_or_generate disk secrets "data/node.key" blank).1

abbrev arguments : String → Commands → Arguments
arguments db command = record {
  discovery_key = "demo";
  db = db;
  bootstrap = "a friend" ∷ [];
  command = command;
}

abbrev send_arguments : Arguments
send_arguments = arguments "data/one.db" (send "hi")

abbrev info_arguments : Arguments
info_arguments = arguments "data/two.db" info

abbrev recv_arguments : Arguments
recv_arguments = arguments "data/one.db" recv

abbrev quiet : Surroundings
quiet = record { now = 5; is_open = true; arrivals = []; flushes = true; turns = [] }

abbrev node_over : Tables → XaeroFlux reliable disk secrets named
node_over tables = record {
  node = record { connection = tables; app_rx = []; outbound_rx = [] };
  cache = [];
  discovery_key = "demo";
  node_id = long_name;
  endpoint = tt;
  secret_key = 7;
}

abbrev first : XaeroFlux reliable disk secrets named
first = node_over blank.database

first_start : Starts reliable disk secrets named send_arguments blank first keyed
unfolding new_with_bootstrap ◌>>=◌ load_or_generate load_cache select_online fill_cache online_pairs
    lookup insert key_path string_dec
first_start = refl

info_start : Starts reliable disk secrets named info_arguments keyed first keyed
unfolding new_with_bootstrap ◌>>=◌ load_or_generate load_cache select_online fill_cache online_pairs
    lookup insert key_path string_dec
info_start = refl

one_apart : "data/one.db" ≢ key_path disk secrets "data/one.db"
unfolding key_path
one_apart h = false≢true ((eq_iff "data/one.db" "data/node.key").1 h)

two_apart : "data/two.db" ≢ key_path disk secrets "data/two.db"
unfolding key_path
two_apart h = false≢true ((eq_iff "data/two.db" "data/node.key").1 h)

abbrev hash : String → String
hash s = s

abbrev turns : List Action
turns = store_next ∷ broadcast_next ∷ []

-- The disk as the session of `send` leaves it.
abbrev left : Disk
left = record keyed {
  database =
      (after_session reliable disk secrets named named_Stores hash (λ t. none) wire send_arguments
        quiet blank first turns).connection;
}

info-IsFrom_example :
    All
      (IsFrom long_name)
      (main reliable disk secrets named hash (λ t. none) send_arguments quiet blank).0.sent
    × ((main reliable disk secrets named hash (λ t. none) info_arguments quiet keyed).0.printed
        ≡ summary "0123456789abcdef0123456789abcdef012345" "demo" "data/two.db"
          ∷ topic ("xsp-1.0/" <> ("demo" <> "/events"))
          ∷ [])
unfolding load_or_generate lookup insert string_dec key_path
info-IsFrom_example =
    info-IsFrom reliable disk secrets named hash (λ t. none) named_Stores send_arguments
      info_arguments quiet quiet blank keyed keyed keyed first first
      "0123456789abcdef0123456789abcdef012345" one_apart two_apart refl first_start (refl, refl)
      info_start refl refl
