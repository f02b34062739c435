-- ===== src/Tests/Presences.antt =====
-- Calls of a peer tracker (Peers.antt) over a database with one peer, on which one statement fails.
use xaeroflux.Prelude.{◌≡◌, List, [], ◌∷◌}
use xaeroflux.Prelude.Int.{pos}
use xaeroflux.Sqlite.Memory.{memory}
use xaeroflux.Peers.Specification.{
  Presence, Request, upsert, offline, prune, load, Outcome, Answer, spec_run,
}
use xaeroflux.Peers.Presence.{presence, serve_requests, serve_requests-refines}
use xaeroflux.Tests.PeerRuns.{held}

abbrev requests : List Request
requests =
    upsert (pos 1000) "g1" "p2" ∷ prune (pos 1001) (pos 100) ∷ offline (pos 1002) "p1" ∷ load ∷ []

serve_requests-refines_example :
    (os : List Outcome) × (◌≡◌ {A = List Answer × Presence}
      (
        (serve_requests memory requests held).0,
        presence memory (serve_requests memory requests held).1,
      )
      (spec_run requests os (presence memory held)))
serve_requests-refines_example = serve_requests-refines memory requests held
