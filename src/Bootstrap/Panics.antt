-- ===== src/Bootstrap/Panics.antt =====
-- What ends the main loop of src/bin/xaeroflux_bootstrap.rs.
use Prim.Native.String.{◌++◌ as ◌<>◌}
use xaeroflux.Prelude.{String, ◌≡◌, List, [], ◌∷◌, ◌++◌}
use xaeroflux.Event.{Event}
use xaeroflux.Discovery.Actions.{panic}
use xaeroflux.Bootstrap.Iggy.{Client}
use xaeroflux.Bootstrap.Serve.{Wake, Setup, Server, serve}

module _ (C : Client) (setup : Setup) where
  open setup use {F, decode}

  -- The loop ends in a panic at this wake-up, if not before.
  abbrev pub EndsAt : List Wake → Wake → List Wake → Server C → Type 0
  EndsAt before w after s =
      ((serve C setup (before ++ w ∷ after) s).0 ≡ panic)
      × (serve C setup (before ++ w ∷ after) s ≡ serve C setup (before ++ w ∷ []) s)
