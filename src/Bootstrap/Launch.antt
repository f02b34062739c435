-- ===== src/Bootstrap/Launch.antt =====
-- The start of the bootstrap server: `main` of src/bin/xaeroflux_bootstrap.rs up to its loop.
use xaeroflux.Prelude.{
  ℕ, ◌<◌, ◌^◌, String, ◌≡◌, ◌≢◌, refl, Bool, true, false, Option, none, some, List, arith, length,
}
use xaeroflux.Sqlite.{Sqlite, NeverFails}
use xaeroflux.Startup.Files.{Files}
use xaeroflux.Startup.Boot.{Result, ok, err, no_directory, Boot, pure, ◌>>=◌}
use xaeroflux.Startup.Identity.{Secrets, key_path}
use xaeroflux.Startup.Start.{Host, XaeroFlux, from_config}
use xaeroflux.Startup.Started.{Stores}
use xaeroflux.Startup.Succeeds.{AllWork, IsUsable, from_config-starts}
use xaeroflux.Rendezvous.{Keys}
use xaeroflux.Rendezvous.Publish.{SignedCodec, Advertised, publish_rendezvous}
use xaeroflux.Bootstrap.Scope.{no_scopes}
use xaeroflux.Bootstrap.Iggy.{Client, IggyConnection, new_connection, connect}
use xaeroflux.Bootstrap.Serve.{Server, Setup, Wake, serve}
use xaeroflux.Bootstrap.Counters.{
  IsHonest, IsOrdered, connect_keeps, serve-IsHonest, serve-IsOrdered,
}
use xaeroflux.Bootstrap.Settings.{Settings, node_config}

module _ (C : Client) where
  -- The connection, tried once if it is enabled.
  abbrev pub first_try : Bool → IggyConnection C → C.World → IggyConnection C × C.World
  first_try true conn w = let (e, conn', w') = connect C conn w in (conn', w')
  first_try false conn w = (conn, w)

  unfoldable pub first_server : Settings → C.World → Server C
  first_server s w =
      let (conn, w') = first_try s.iggy_enabled (new_connection C s.iggy_addr s.iggy_enabled) w in
      record {
        tracker = no_scopes;
        iggy = conn;
        world = w';
        events_received = 0;
        events_converted = 0;
        events_forwarded = 0;
      }

  first_try_sent :
      (enabled : Bool) (conn : IggyConnection C) (w : C.World)
      → (first_try enabled conn w).0.messages_sent ≡ conn.messages_sent
  first_try_sent true conn w = (connect_keeps C conn w).1
  first_try_sent false conn w = refl

  first_server-IsHonest : (s : Settings) (w : C.World) → IsHonest C (first_server s w)
  unfolding first_server IsHonest new_connection
  first_server-IsHonest s w =
      let conn = new_connection C s.iggy_addr s.iggy_enabled in
      ground (arith, first_try_sent s.iggy_enabled conn w)

  first_server-IsOrdered : (s : Settings) (w : C.World) → IsOrdered C (first_server s w)
  unfolding first_server
  first_server-IsOrdered s w = record { forwarded = omega arith; converted = omega arith }

module _ (S : Sqlite) (F : Files) (X : Secrets F) (H : Host S F X) (K : Keys) (codec : SignedCodec)
    (C : Client) where
  open F use {World}
  open H use {StaticProvider, RelayUrl, Endpoint}

  -- The node's key as the signing sees it, and the addresses and relays of an endpoint.
  pub record Identified : Type 0 where
    pub signing_key : X.SecretKey → K.SecretKey
    pub ip_addrs : Endpoint → List String
    pub relay_urls : Endpoint → List String

  abbrev if_made : Bool → Result (Unit {0})
  if_made true = ok tt
  if_made false = err no_directory

  -- `create_dir_all` of the database's directory.
  unfoldable pub make_directory : Option String → Boot World (Unit {0})
  make_directory none w = (ok tt, w)
  make_directory (some directory) w =
      let (made, w') = F.create_dir_all directory w in (if_made made, w')

  -- The outcome is only printed.
  unfoldable pub publish_own : Identified → XaeroFlux S F X H → Settings → ℕ → Boot World (Unit {0})
  publish_own I xf s ts w =
      let advertised : Advertised F codec K = record {
        discovery_key = xf.discovery_key;
        node_id = xf.node_id;
        secret_key = I.signing_key xf.secret_key;
        ip_addrs = I.ip_addrs xf.endpoint;
        relay_urls = I.relay_urls xf.endpoint;
      } in
      let (published, w') =
        publish_rendezvous F codec K advertised s.rendezvous_env s.relay_url ts s.rendezvous_path
          w in
      (ok tt, w')

  unfoldable pub launch :
      Identified → Settings → ℕ → C.World → Boot World (XaeroFlux S F X H × Server C)
  unfolding make_directory publish_own
  launch I s ts world = do
    _ ← make_directory (F.parent s.db_path)
    xf ← from_config S F X H (node_config StaticProvider RelayUrl s)
    _ ← publish_own I xf s ts
    pure (xf, first_server C s world)

  make_directory_ok :
      AllWork S F X H
      → (directory : Option String) (w : World)
      → make_directory directory w ≡ (ok tt, (make_directory directory w).1)
  unfolding make_directory
  make_directory_ok all none w = refl
  make_directory_ok all (some directory) w = rw (all.files.creates directory w) refl

  -- The server starts whenever no call of the node's start and no statement fails, the files can be written,
  -- the key file is not the database file and has, if it is there, the bytes of a key: whether or not the
  -- config can be made and encoded and Iggy be reached. Then over fewer wake-ups than a u64 counts its
  -- counters are in order, none ahead of the one before, and the count of messages is that of the events
  -- forwarded with Iggy enabled, and 0 with Iggy disabled.
  pub launch-serves :
      (setup : Setup) (I : Identified) (D : Stores H) (s : Settings) (ts : ℕ) (world : C.World)
      (w : World) (wakes : List Wake)
      → (all : AllWork S F X H) → NeverFails S
      → (node_config StaticProvider RelayUrl s).db_path
        ≢ key_path F X (node_config StaticProvider RelayUrl s).db_path
      → IsUsable S F X H
          (key_path F X (node_config StaticProvider RelayUrl s).db_path)
          (make_directory (F.parent s.db_path) w).1
      → length wakes < 2 ^ 64
      → (xf : XaeroFlux S F X H) × (server : Server C) × (w' : World) × (launch I s ts world w
          ≡ (ok (xf, server), w'))
        × IsHonest C (serve C setup wakes server).1
        × IsOrdered C (serve C setup wakes server).1
  unfolding launch ◌>>=◌ first_server
  launch-serves setup I D s ts world w wakes all never apart usable few =
      let made = make_directory_ok all (F.parent s.db_path) w in
      let v = (make_directory (F.parent s.db_path) w).1 in
      let (xf, v', runs, _) =
        from_config-starts S F X H all never D (node_config StaticProvider RelayUrl s) v apart
          usable in
      let server = first_server C s world in
      (
        xf,
        server,
        (publish_own I xf s ts v').1,
        rw (made, runs) refl,
        serve-IsHonest C setup wakes server (first_server-IsHonest C s world),
        serve-IsOrdered C setup wakes server (omega (arith, few))
            (first_server-IsOrdered C s world),
      )
