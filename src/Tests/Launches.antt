-- ===== src/Tests/Launches.antt =====
-- A bootstrap server that is launched on the machine of Disk.antt.
use mathlib.Core.Bool.{false≢true}
use text.Mathlib.TextEquality.{eq_iff}
use xaeroflux.Prelude.{
  String, ◌≡◌, ◌≢◌, refl, inl, Option, none, some, List, [], ◌∷◌, arith, ◌==◌, if◌then◌else◌,
  string_dec,
}
use xaeroflux.Prelude.Dict.{lookup}
use xaeroflux.Sqlite.Memory.{reliable, reliable-NeverFails}
use xaeroflux.Startup.Boot.{ok}
use xaeroflux.Startup.Identity.{key_path}
use xaeroflux.Startup.Start.{XaeroFlux}
use xaeroflux.Bootstrap.Serve.{Server, Wake, event, iggy_retry, serve}
use xaeroflux.Bootstrap.Counters.{IsHonest, IsOrdered}
use xaeroflux.Bootstrap.Settings.{Settings, settings, node_config}
use xaeroflux.Bootstrap.Launch.{Identified, launch, launch-serves, make_directory}
use xaeroflux.Tests.Disk.{Disk, disk, secrets, host, host_Stores, host-AllWork}
use xaeroflux.Tests.Publishing.{codec, blank}
use xaeroflux.Tests.Signing.{keys}
use xaeroflux.Tests.ServerRuns.{iggy, setup}

-- The environment names a database, no more.
abbrev env : String → Option String
env name = if name == "DB_PATH" then some "data/b.db" else none

abbrev defaults : Settings
defaults = settings disk env

abbrev me : Identified reliable disk secrets host keys codec iggy
me = record { signing_key = λ k. tt; ip_addrs = λ e. []; relay_urls = λ e. [] }

abbrev wakes : List Wake
wakes =
    event (record { id = "e"; payload = "chat"; source = "group/g1"; ts = 9 }) "id-1" 10
    ∷ iggy_retry
    ∷ []

apart :
    (node_config (Unit {0}) String defaults).db_path
    ≢ key_path disk secrets (node_config (Unit {0}) String defaults).db_path
unfolding key_path node_config settings string_dec
apart h = false≢true ((eq_iff "data/b.db" "data/node.key").1 h)

launch-serves_example :
    (xf : XaeroFlux reliable disk secrets host) × (server : Server iggy) × (w' : Disk) × (launch
        reliable disk secrets host keys codec iggy me defaults 5 0 blank
      ≡ (ok (xf, server), w'))
    × IsHonest iggy (serve iggy setup wakes server).1
    × IsOrdered iggy (serve iggy setup wakes server).1
unfolding lookup key_path node_config settings string_dec make_directory
launch-serves_example =
    launch-serves reliable disk secrets host keys codec iggy setup me host_Stores defaults 5 0 blank
      wakes host-AllWork reliable-NeverFails apart (inl refl) (omega arith)
