-- ===== src/Tests/EventIds.antt =====
-- Two events with one id (Event/Ids.antt).
use xaeroflux.Prelude.{◌≡◌, refl, String}
use xaeroflux.Event.{decimal}

abbrev blake3 : String → String
blake3 s = s

decimal_test : decimal 18446744073709551615 ≡ "18446744073709551615"
unfolding decimal
decimal_test = refl
