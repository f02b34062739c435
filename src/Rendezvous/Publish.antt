-- ===== src/Rendezvous/Publish.antt =====
-- Publishing a node's signed config: `signed_rendezvous_config` of src/lib.rs, `FileSink` and
-- `publish_signed` of src/rendezvous.rs, and `publish_rendezvous` of src/bin/xaeroflux_bootstrap.rs.
use xaeroflux.Prelude.{
  ℕ, String, ◌≡◌, sym, ap, ◌∙◌, Bool, true, false, Option, none, some, List, [], ◌∷◌, ◌==◌,
  if◌then◌else◌, arith,
}
use xaeroflux.Network.{Bytes}
use xaeroflux.Startup.Files.{Files, IsDurable, NeverDenies}
use xaeroflux.Rendezvous.{
  Keys, IsSound, RendezvousConfig, SignedRendezvousConfig, sign_config, verify_config, ok,
  verify_config-sign_config,
}

-- `serde_json::to_vec_pretty` and `from_slice`.
pub record SignedCodec : Type 0 where
  pub to_vec_pretty : SignedRendezvousConfig → Option Bytes
  pub from_slice : Bytes → Option SignedRendezvousConfig

-- `none` and `false` are errors.
module _ (F : Files) where
  open F use {World, write, create_dir_all, parent}

  abbrev pub created : Option String → World → Bool × World
  created none w = (true, w)
  created (some directory) w = if directory == "" then (true, w) else create_dir_all directory w

  abbrev pub written : Bool → String → Bytes → World → Bool × World
  written false path bytes w = (false, w)
  written true path bytes w = write path bytes w

  -- `FileSink { path }.publish(bytes)`
  unfoldable pub publish : String → Bytes → World → Bool × World
  publish path bytes w = let (made, w') = created (parent path) w in written made path bytes w'

  module _ (codec : SignedCodec) where
    abbrev pub publish_bytes : Option Bytes → String → World → Bool × World
    publish_bytes none path w = (false, w)
    publish_bytes (some bytes) path w = publish path bytes w

    unfoldable pub publish_signed : SignedRendezvousConfig → String → World → Bool × World
    publish_signed signed path w = publish_bytes (codec.to_vec_pretty signed) path w

    -- What a node knows of itself: its direct addresses and its relays are those of the endpoint.
    pub record Advertised (K : Keys) : Type 0 where
      pub discovery_key : String
      pub node_id : String
      pub secret_key : K.SecretKey
      pub ip_addrs : List String
      pub relay_urls : List String

    module _ (K : Keys) where
      abbrev first_of : List String → Option String
      first_of [] = none
      first_of (url ∷ urls) = some url

      abbrev or_else : Option String → Option String → Option String
      or_else none other = other
      or_else (some url) other = some url

      abbrev config_for : Advertised K → String → Option String → ℕ → RendezvousConfig
      config_for xf env relay_url ts = record {
        env = env;
        discovery_key = xf.discovery_key;
        bootstrap = record { node_id = xf.node_id; addr = xf.ip_addrs };
        relay_url = or_else relay_url (first_of xf.relay_urls);
        ts = ts;
      }

      unfoldable pub signed_rendezvous_config :
          Advertised K → String → Option String → ℕ → Option SignedRendezvousConfig
      signed_rendezvous_config xf env relay_url ts =
          sign_config K (config_for xf env relay_url ts) xf.secret_key

      abbrev publish_if : Option SignedRendezvousConfig → String → World → Bool × World
      publish_if none path w = (false, w)
      publish_if (some signed) path w = publish_signed signed path w

      unfoldable pub publish_rendezvous :
          Advertised K → String → Option String → ℕ → String → World → Bool × World
      publish_rendezvous xf env relay_url ts path w =
          publish_if (signed_rendezvous_config xf env relay_url ts) path w

      module _ (durable : IsDurable F) (allowed : NeverDenies F) where
        publish-read :
            (path : String) (bytes : Bytes) (w : World)
            → ((publish path bytes w).0 ≡ true)
              × (F.read path (publish path bytes w).1 ≡ some bytes)
        unfolding publish
        publish-read path bytes w = go (parent path)
          where
            go :
                (directory : Option String)
                → let (made, w') = created directory w in
                  ((written made path bytes w').0 ≡ true)
                  × (F.read path (written made path bytes w').1 ≡ some bytes)
            go none = (
              allowed.writes path bytes w,
              durable.read-write path bytes w (allowed.writes path bytes w),
            )
            go (some directory) =
                let w' = (create_dir_all directory w).1 in
                ground (
                  arith,
                  allowed.creates directory w,
                  allowed.writes path bytes w,
                  allowed.writes path bytes w',
                  durable.read-write path bytes w,
                  durable.read-write path bytes w',
                )

        -- An app that reads the file that a node has published gets a config that verifies, that the node's
        -- own key has signed, and that names the node and its discovery key. The serializer's two outputs
        -- exist and the second is read back, the keys are sound, and files are durable and writable.
        pub publish_rendezvous-verifies :
            (xf : Advertised K) (env : String) (relay_url : Option String) (ts : ℕ) (path : String)
            (w : World)
            → IsSound K
            → ((config : RendezvousConfig) → (bytes : Bytes) × (K.to_vec config ≡ some bytes))
            → ((signed : SignedRendezvousConfig)
                → (bytes : Bytes) × (codec.to_vec_pretty signed ≡ some bytes)
                  × (codec.from_slice bytes ≡ some signed))
            → xf.node_id ≡ K.show_key (K.public xf.secret_key)
            → ((publish_rendezvous xf env relay_url ts path w).0 ≡ true)
              × ((bytes : Bytes) × (signed : SignedRendezvousConfig) × (F.read path
                      (publish_rendezvous xf env relay_url ts path w).1
                    ≡ some bytes)
                  × (codec.from_slice bytes ≡ some signed)
                  × (verify_config K signed ≡ ok)
                  × (signed.signer ≡ xf.node_id)
                  × (signed.config.bootstrap.node_id ≡ xf.node_id)
                  × (signed.config.discovery_key ≡ xf.discovery_key))
        unfolding publish_rendezvous signed_rendezvous_config publish_signed
        publish_rendezvous-verifies xf env relay_url ts path w sound total read_back own =
            let config = config_for xf env relay_url ts in
            let (json, p) = total config in
            let (signed, made, same, signer, verified, _) =
              verify_config-sign_config K sound config config xf.secret_key json json p p in
            let (bytes, q, r) = read_back signed in
            let (done, there) = publish-read path bytes w in
            rw (made, q)
              (
                done,
                (
                  bytes,
                  signed,
                  there,
                  r,
                  verified,
                  signer ∙ sym own,
                  ap (λ (c : RendezvousConfig). c.bootstrap.node_id) same,
                  ap (λ (c : RendezvousConfig). c.discovery_key) same,
                ),
              )
