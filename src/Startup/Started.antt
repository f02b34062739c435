-- ===== src/Startup/Started.antt =====
-- What a node that has started is.
use mathlib.Core.Path.{subst}
use xaeroflux.Prelude.{
  String, ◌≡◌, ◌≢◌, refl, sym, ap, ◌∙◌, Bool, true, false, Option, none, some, [], arith,
  if◌then◌else◌,
}
use xaeroflux.Sqlite.{Tables, Sqlite}
use xaeroflux.Network.{Bytes}
use xaeroflux.Peers.{Tracker, load_cache}
use xaeroflux.Peers.Statements.{select_online}
use xaeroflux.Peers.Coherence.{IsCoherent, load_cache_cases}
use xaeroflux.Startup.Files.{Files}
use xaeroflux.Startup.Boot.{ok, Gives, Gives-pure, Gives-bind}
use xaeroflux.Startup.Config.{XaeroFluxConfig}
use xaeroflux.Startup.Identity.{
  Secrets, loaded_key, create_parent, write_key, save_key, generate_key, key_path, load_or_generate,
}
use xaeroflux.Startup.Start.{
  Host, XaeroFlux, loaded_tracker, start_tracker, assembled, start_network, ensure_schema,
  create_tables, from_config,
}

-- What is in a database file. It is what a connection to it starts from, and other files may be written.
pub record Stores {S : Sqlite} {F : Files} {X : Secrets F} (H : Host S F X) : Type 0 where
  pub stored : String → F.World → Tables
  pub tables-open_db :
      (p : String) (w : F.World) (c : S.Connection)
      → (H.open_db p w).0 ≡ some c
      → S.tables c ≡ stored p w
  pub stored-fill : (p : String) (w : F.World) → stored p (X.fill w).1 ≡ stored p w
  pub stored-create_dir_all :
      (p q : String) (w : F.World) → stored p (F.create_dir_all q w).1 ≡ stored p w
  pub stored-write :
      (p q : String) (bytes : Bytes) (w : F.World)
      → p ≢ q
      → stored p (F.write q bytes w).1 ≡ stored p w

module _ (S : Sqlite) (F : Files) (X : Secrets F) (H : Host S F X) where
  open F use {World}
  open H use {StaticProvider, RelayUrl, show_public}

  module _ (D : Stores H) (db path : String) (apart : db ≢ path) where
    write_key-stored :
        (made : Bool) (key : X.SecretKey) (w : World)
        → D.stored db (write_key F X made path key w).1 ≡ D.stored db w
    write_key-stored false key w = refl
    write_key-stored true key w = D.stored-write db path (X.to_bytes key) w apart

    create_parent-stored :
        (directory : Option String) (w : World)
        → D.stored db (create_parent F X directory w).1 ≡ D.stored db w
    create_parent-stored none w = refl
    create_parent-stored (some directory) w = D.stored-create_dir_all db directory w

    save_key-stored :
        (seed : Option Bytes) (w : World) → D.stored db (save_key F X seed path w).1 ≡ D.stored db w
    save_key-stored none w = refl
    save_key-stored (some seed) w =
        let (made, w') = create_parent F X (F.parent path) w in
        write_key-stored made (X.generate seed) w' ∙ create_parent-stored (F.parent path) w

    load_or_generate-stored :
        (w : World) → D.stored db (load_or_generate F X path w).1 ≡ D.stored db w
    unfolding load_or_generate
    load_or_generate-stored w = go (F.exists path w)
      where
        go :
            (b : Bool)
            → D.stored db
                (if b then (loaded_key F X (F.read path w), w) else generate_key F X path w).1
              ≡ D.stored db w
        go true = refl
        go false = save_key-stored (X.fill w).0 (X.fill w).1 ∙ D.stored-fill db w

  -- The peers that the tracker of a started node has loaded.
  abbrev pub tracker_of : XaeroFlux S F X H → Tracker S
  tracker_of xf = record { connection = xf.node.connection; cache = xf.cache }

  load_cache-tables :
      (t : Tracker S) → S.tables (load_cache S t).1.connection ≡ S.tables t.connection
  unfolding load_cache select_online
  load_cache-tables t = ground (arith, S.execute_lem select_online t.connection)

  ensure_schema-tables :
      (c db : S.Connection) (w w' : World)
      → ensure_schema S F X H c w ≡ (ok db, w')
      → S.tables db ≡ S.tables c
  unfolding ensure_schema
  ensure_schema-tables c db w w' h = ground (arith, S.execute_lem (create_tables S F X H) c)

  loaded_tracker_ok :
      (r : Option (Unit {0})) (t t' : Tracker S)
      → loaded_tracker S F X H r t ≡ ok t'
      → (r ≡ some tt) × (t ≡ t')
  loaded_tracker_ok none t t' h = cc
  loaded_tracker_ok (some _) t t' h = (refl, cc)

  -- The tracker is one that has loaded its cache through the connection.
  abbrev IsLoaded : S.Connection → Tracker S → Type 0
  IsLoaded db t =
      ((load_cache S (record { connection = db; cache = [] })).0 ≡ some tt)
      × ((load_cache S (record { connection = db; cache = [] })).1 ≡ t)

  start_tracker-Gives :
      (db : S.Connection) (w : World) → Gives (start_tracker S F X H db) w (λ t _. IsLoaded db t)
  start_tracker-Gives db w t w' h =
      let (r, t') = load_cache S (record { connection = db; cache = [] }) in
      loaded_tracker_ok r t' t (ap (λ p. p.0) h)

  start_network-Gives :
      (key : X.SecretKey) (c : XaeroFluxConfig StaticProvider RelayUrl) (db : S.Connection)
      (w : World)
      → Gives (start_network S F X H key c db) w (λ n _. IsLoaded db n.1)
  unfolding start_network
  start_network-Gives key c db w =
      Gives-bind _ _ (λ _ _. Unit) _ w (λ _ _ _. tt)
        (λ endpoint w₁ _.
          Gives-bind _ _ (λ _ _. Unit) _ w₁ (λ _ _ _. tt)
            (λ _ w₂ _.
              Gives-bind _ _ (λ _ _. Unit) _ w₂ (λ _ _ _. tt)
                (λ _ w₃ _.
                  Gives-bind _ _ (λ t _. IsLoaded db t) _ w₃ (start_tracker-Gives db w₃)
                    (λ t w₄ h. Gives-pure (λ n _. IsLoaded db n.1) (endpoint, t) w₄ h))))

  -- The node of the key, over what the database file held, with nothing queued, and with the online peers
  -- of the table in the cache.
  pub record IsStarted (D : Stores H) (c : XaeroFluxConfig StaticProvider RelayUrl) (w : World)
      (xf : XaeroFlux S F X H) : Type 0 where
    pub key : (load_or_generate F X (key_path F X c.db_path) w).0 ≡ ok xf.secret_key
    pub node_id : xf.node_id ≡ show_public xf.secret_key
    pub discovery_key : xf.discovery_key ≡ c.discovery_key
    pub tables : S.tables xf.node.connection ≡ D.stored c.db_path w
    pub no_app : xf.node.app_rx ≡ []
    pub no_outbound : xf.node.outbound_rx ≡ []
    pub coherent : IsCoherent S (tracker_of xf)

  assembled-IsStarted :
      (D : Stores H) (c : XaeroFluxConfig StaticProvider RelayUrl) (w : World) (key : X.SecretKey)
      (db : S.Connection) (n : H.Endpoint × Tracker S)
      → (load_or_generate F X (key_path F X c.db_path) w).0 ≡ ok key
      → S.tables db ≡ D.stored c.db_path w
      → IsLoaded db n.1
      → IsStarted D c w (assembled S F X H key c n)
  assembled-IsStarted D c w key db (e, t) k p (good, same) =
      let fresh : Tracker S = record { connection = db; cache = [] } in
      record {
        key = k;
        node_id = refl;
        discovery_key = refl;
        tables =
            ap (λ (u : Tracker S). S.tables u.connection) (sym same) ∙ load_cache-tables fresh ∙ p;
        no_app = refl;
        no_outbound = refl;
        coherent =
            subst (IsCoherent S) same
              (record { agrees = λ g q. ground (arith, good, load_cache_cases S fresh g q) });
      }

  -- A start that succeeds gives the node of the key that the key file holds or that was made, its table
  -- the one in the database file, its queues empty, and the cache of its peer tracker in agreement with
  -- the table. The key file is not the database file.
  pub from_config-IsStarted :
      (D : Stores H) (c : XaeroFluxConfig StaticProvider RelayUrl) (w : World)
      → c.db_path ≢ key_path F X c.db_path
      → Gives (from_config S F X H c) w (λ xf _. IsStarted D c w xf)
  unfolding from_config
  from_config-IsStarted D c w apart =
      let path = key_path F X c.db_path in
      Gives-bind _ _
        (λ key w₁.
          ((load_or_generate F X path w).0 ≡ ok key)
          × (D.stored c.db_path w₁ ≡ D.stored c.db_path w))
        _ w
        (λ key w₁ h. (
          ap (λ r. r.0) h,
          ap (λ r. D.stored c.db_path r.1) (sym h)
              ∙ load_or_generate-stored D c.db_path path apart w,
        ))
        (λ key w₁ (k, same).
          Gives-bind _ _ (λ file _. S.tables file ≡ D.stored c.db_path w₁) _ w₁
            (λ file w₂ h. D.tables-open_db c.db_path w₁ file (ground (arith, h)))
            (λ file w₂ opened.
              Gives-bind _ _ (λ db _. S.tables db ≡ S.tables file) _ w₂
                (λ db w₃ h. ensure_schema-tables file db w₂ w₃ h)
                (λ db w₃ schema.
                  Gives-bind _ _ (λ n _. IsLoaded db n.1) _ w₃ (start_network-Gives key c db w₃)
                    (λ n w₄ loaded.
                      Gives-pure _ _ w₄
                        (assembled-IsStarted D c w key db n k (schema ∙ opened ∙ same) loaded)))))
