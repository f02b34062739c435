-- ===== src/Startup/SharedKey.antt =====
-- Two nodes whose database files lie in one directory.
use xaeroflux.Prelude.{◌≡◌, ◌≢◌, ap, sym, ◌∙◌, [], some, arith}
use xaeroflux.Event.{Event}
use xaeroflux.Sqlite.{Sqlite}
use xaeroflux.Network.{Bytes, EventCodec, RoundTrips, received, on_gossip}
use xaeroflux.Node.{gossip, Config, Node, step}
use xaeroflux.Startup.Files.{Files}
use xaeroflux.Startup.Boot.{ok}
use xaeroflux.Startup.Config.{XaeroFluxConfig}
use xaeroflux.Startup.Identity.{
  Secrets, key_path, load_or_generate, HasKey, HasKey-load_or_generate,
}
use xaeroflux.Startup.Start.{Host, XaeroFlux, from_config}
use xaeroflux.Startup.Started.{Stores, IsStarted, from_config-IsStarted}
use xaeroflux.Startup.Restart.{actors_of}

module _ (S : Sqlite) where
  -- What comes from the node's own id is passed over.
  step-own :
      (cfg : Config) (e : Event) (bytes : Bytes) (n : Node S)
      → cfg.codec.decode bytes ≡ some e
      → e.source ≡ cfg.node_id
      → step S cfg (gossip (received bytes)) n ≡ ([], n)
  unfolding step on_gossip
  step-own cfg e bytes n decoded own = rw decoded (ground (arith, own))

module _ (S : Sqlite) (F : Files) (X : Secrets F) (H : Host S F X) (D : Stores H) where
  open F use {World}
  open H use {StaticProvider, RelayUrl}

  ok-injective : {k l : X.SecretKey} → ok k ≡ ok l → k ≡ l
  ok-injective h = cc

  -- A node that starts where another's key is in its key file has the other's id.
  pub same_directory-node_id :
      (c c' : XaeroFluxConfig StaticProvider RelayUrl) (w v : World)
      (first second : XaeroFlux S F X H)
      → key_path F X c.db_path ≡ key_path F X c'.db_path
      → IsStarted S F X H D c w first
      → HasKey F X (key_path F X c.db_path) first.secret_key v
      → IsStarted S F X H D c' v second
      → second.node_id ≡ first.node_id
  same_directory-node_id c c' w v first second same a kept b =
      let loads = HasKey-load_or_generate F X _ first.secret_key v kept in
      let keys = ok-injective (
        sym b.key
        ∙ ap (λ path. (load_or_generate F X path v).0) (sym same)
        ∙ ap (λ r. r.0) loads) in
      b.node_id ∙ ap H.show_public keys ∙ sym a.node_id

  -- Two nodes whose databases have the same key file, which is neither database and is there with the
  -- first node's key when the second starts, have one node id: an event of the one that reaches the
  -- other, by a codec that round-trips and whatever the other has done since its start, changes nothing
  -- there and is not handed to its application.
  pub same_directory-ignores :
      (codec : EventCodec) (c c' : XaeroFluxConfig StaticProvider RelayUrl) (w w' v v' : World)
      (first second : XaeroFlux S F X H) (n : Node S) (e : Event) (bytes : Bytes)
      → c.db_path ≢ key_path F X c.db_path
      → c'.db_path ≢ key_path F X c'.db_path
      → key_path F X c.db_path ≡ key_path F X c'.db_path
      → from_config S F X H c w ≡ (ok first, w')
      → HasKey F X (key_path F X c.db_path) first.secret_key v
      → from_config S F X H c' v ≡ (ok second, v')
      → RoundTrips codec
      → e.source ≡ first.node_id
      → codec.encode e ≡ some bytes
      → (second.node_id ≡ first.node_id)
        × (step S (actors_of S F X H D codec second) (gossip (received bytes)) n ≡ ([], n))
  same_directory-ignores codec c c' w w' v v' first second n e bytes apart apart' same started kept
        later rt own encoded =
      let a = from_config-IsStarted S F X H D c w apart first w' started in
      let b = from_config-IsStarted S F X H D c' v apart' second v' later in
      let one = same_directory-node_id c c' w v first second same a kept b in
      (
        one,
        step-own S (actors_of S F X H D codec second) e bytes n (rt e bytes encoded)
            (own ∙ sym one),
      )
