-- ===== src/Startup/Succeeds.antt =====
-- When a node starts.
use xaeroflux.Prelude.{
  String, ◌≡◌, ◌≢◌, refl, true, false, ◌⊎◌, inl, inr, Option, none, some, List, [], arith,
  Option-cases,
}
use xaeroflux.Sqlite.{Sqlite, NeverFails}
use xaeroflux.Network.{Bytes}
use xaeroflux.Peers.{load_cache}
use xaeroflux.Peers.Statements.{select_online}
use xaeroflux.Startup.Files.{Files, NeverDenies}
use xaeroflux.Startup.Boot.{ok, Boot, ◌>>=◌, StartError}
use xaeroflux.Startup.Config.{XaeroFluxConfig}
use xaeroflux.Startup.Identity.{
  Secrets, key_path, load_or_generate, HasKey, HasKey-load_or_generate, save_key, write_key,
  create_parent,
}
use xaeroflux.Startup.Start.{
  Host, XaeroFlux, or_fail, if_good, start_tracker, start_network, ensure_schema, create_tables,
  from_config,
}
use xaeroflux.Startup.Started.{Stores, IsStarted, from_config-IsStarted}

module _ {World A : Type 0} where
  -- The steps succeed from the world.
  abbrev pub Succeeds : Boot World A → World → Type 0
  Succeeds m w = (a : A) × (w' : World) × (m w ≡ (ok a, w'))

module _ {World A B : Type 0} where
  Succeeds-bind :
      (m : Boot World A) (f : A → Boot World B) (w : World)
      → Succeeds m w
      → ((a : A) (w' : World) → Succeeds (f a) w')
      → Succeeds (m >>= f) w
  unfolding ◌>>=◌
  Succeeds-bind m f w (a, w', p) rest = rw p (rest a w')

module _ (S : Sqlite) (F : Files) (X : Secrets F) (H : Host S F X) where
  open F use {World}
  open H use {StaticProvider, RelayUrl}

  -- No call outside fails.
  pub record AllWork : Type 0 where
    pub fills : (w : World) → (X.fill w).0 ≢ none
    pub files : NeverDenies F
    pub opens : (p : String) (w : World) → (H.open_db p w).0 ≢ none
    pub binds : (b : _) (w : World) → (H.bind b w).0 ≢ none
    pub subscribes :
        (e : H.Endpoint) (t : H.Topic) (peers : List H.PublicKey) (w : World)
        → (H.subscribe e t peers w).0 ≡ true

  or_fail-Succeeds :
      {A : Type 0} (e : StartError) (call : World → Option A × World) (w : World)
      → (call w).0 ≢ none
      → Succeeds (λ v. (or_fail S F X H e (call v).0, (call v).1)) w
  or_fail-Succeeds e call w h = elim (Option-cases (call w).0) [
    | inl p ↦ elim (h p) [ ]
    | inr (a, p) ↦ (a, (call w).1, rw p refl)
  ]

  -- There is no key file, or it has the bytes of a key.
  abbrev pub IsUsable : String → World → Type 0
  IsUsable path w = (F.exists path w ≡ false) ⊎ ((k : X.SecretKey) × HasKey F X path k w)

  module _ (all : AllWork) where
    save_key-Succeeds :
        (seed : Option Bytes) (path : String) (w : World)
        → seed ≢ none
        → Succeeds (save_key F X seed path) w
    save_key-Succeeds none path w h = elim (h refl) [ ]
    save_key-Succeeds (some seed) path w h = go (F.parent path)
      where
        go :
            (directory : Option String)
            → Succeeds
                (λ v.
                  write_key F X
                    (create_parent F X directory v).0
                    path
                    (X.generate seed)
                    (create_parent F X directory v).1)
                w
        go none = (
          X.generate seed,
          (F.write path (X.to_bytes (X.generate seed)) w).1,
          rw (all.files.writes path (X.to_bytes (X.generate seed)) w) refl,
        )
        go (some directory) =
            let w' = (F.create_dir_all directory w).1 in
            (
              X.generate seed,
              (F.write path (X.to_bytes (X.generate seed)) w').1,
              rw
                  (
                    all.files.creates directory w,
                    all.files.writes path (X.to_bytes (X.generate seed)) w',
                  )
                  refl,
            )

    load_or_generate-Succeeds :
        (path : String) (w : World) → IsUsable path w → Succeeds (load_or_generate F X path) w
    unfolding load_or_generate
    load_or_generate-Succeeds path w (inl missing) =
        rw missing (save_key-Succeeds (X.fill w).0 path (X.fill w).1 (all.fills w))
    load_or_generate-Succeeds path w (inr (k, has)) =
        (k, w, HasKey-load_or_generate F X path k w has)

    subscribe-Succeeds :
        (e : StartError) (endpoint : H.Endpoint) (t : H.Topic) (peers : List H.PublicKey)
        (w : World)
        → Succeeds
            (λ v. (
              if_good S F X H e (H.subscribe endpoint t peers v).0,
              (H.subscribe endpoint t peers v).1,
            ))
            w
    subscribe-Succeeds e endpoint t peers w =
        (tt, (H.subscribe endpoint t peers w).1, rw (all.subscribes endpoint t peers w) refl)

    module _ (never : NeverFails S) where
      ensure_schema-Succeeds : (c : S.Connection) (w : World) → Succeeds (ensure_schema S F X H c) w
      unfolding ensure_schema
      ensure_schema-Succeeds c w = (
        (S.execute (create_tables S F X H) c).1,
        w,
        ground
            (arith, S.execute_lem (create_tables S F X H) c, never.runs (create_tables S F X H) c),
      )

      start_tracker-Succeeds : (c : S.Connection) (w : World) → Succeeds (start_tracker S F X H c) w
      unfolding load_cache
      start_tracker-Succeeds c w = (
        (load_cache S (record { connection = c; cache = [] })).1,
        w,
        ground (arith, S.execute_lem select_online c, never.runs select_online c),
      )

      -- A node starts whenever no call outside fails, no statement fails, and there is no key file or one that
      -- has the bytes of a key, and which is not the database file: whatever else the configuration says, a relay URL or bootstrap peers that do
      -- not parse included. It is then the node of its key over what the database file held.
      pub from_config-starts :
          (D : Stores H) (c : XaeroFluxConfig StaticProvider RelayUrl) (w : World)
          → c.db_path ≢ key_path F X c.db_path
          → IsUsable (key_path F X c.db_path) w
          → (xf : XaeroFlux S F X H) × (w' : World) × (from_config S F X H c w ≡ (ok xf, w'))
            × IsStarted S F X H D c w xf
      unfolding from_config start_network
      from_config-starts D c w apart usable =
          let (xf, w', runs) =
            Succeeds-bind _ _ w (load_or_generate-Succeeds (key_path F X c.db_path) w usable)
              (λ key w₁.
                Succeeds-bind _ _ w₁
                  (or_fail-Succeeds _ (H.open_db c.db_path) w₁ (all.opens c.db_path w₁))
                  (λ file w₂. Succeeds-bind _ _ w₂ (ensure_schema-Succeeds file w₂) (λ db w₃.
                    Succeeds-bind _ _ w₃
                      (Succeeds-bind _ _ w₃ (or_fail-Succeeds _ (H.bind _) w₃ (all.binds _ w₃))
                        (λ endpoint v₁.
                          Succeeds-bind _ _ v₁ (subscribe-Succeeds _ endpoint _ _ v₁) (λ _ v₂.
                            Succeeds-bind _ _ v₂ (subscribe-Succeeds _ endpoint _ _ v₂) (λ _ v₃.
                              Succeeds-bind _ _ v₃ (start_tracker-Succeeds db v₃)
                                (λ t v₄. ((endpoint, t), v₄, refl))))))
                      (λ n w₄. (_, w₄, refl))))) in
          (xf, w', runs, from_config-IsStarted S F X H D c w apart xf w' runs)
