-- ===== src/Tests/PeerRuns.antt =====
-- Runs of `PeerTracker` (Peers.antt) over a database with one peer that is online.
use xaeroflux.Prelude.{refl, true, some, [], ◌∷◌}
use xaeroflux.Prelude.Int.{ℤ, pos, ◌-ℤ◌}
use xaeroflux.Sqlite.{Tables}
use xaeroflux.Sqlite.Memory.{memory, reliable}
use xaeroflux.Peers.Statements.{select_online}
use xaeroflux.Peers.{Tracker, load_cache}
use xaeroflux.Peers.Coherence.{IsCoherent, load_cache-IsCoherent}

abbrev now : ℤ
now = pos 1000

abbrev one_peer : Tables
one_peer = record {
  events = [];
  group_peers =
      record {
        group_id = "g1";
        peer_id = "p1";
        first_seen = pos 5;
        last_seen = pos 5;
        is_online = true;
      }
      ∷ [];
}

-- The third statement fails.
abbrev fresh : Tracker memory
fresh = record { connection = record { content = one_peer; until_failure = some 2 }; cache = [] }

pub held-IsCoherent : IsCoherent memory (load_cache memory fresh).1
unfolding load_cache select_online ◌-ℤ◌
held-IsCoherent = load_cache-IsCoherent memory fresh refl

abbrev pub held : Tracker memory
held = (load_cache memory fresh).1

abbrev steady : Tracker reliable
steady = record { connection = one_peer; cache = [] }
