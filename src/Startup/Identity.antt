-- ===== src/Startup/Identity.antt =====
-- The node's identity: the key file that `XaeroFlux::from_config` of src/lib.rs reads, or makes.
use xaeroflux.Prelude.{
  ℕ, String, ◌≡◌, refl, Bool, true, false, ◌&&◌, Option, none, some, arith, length, leb,
  if◌then◌else◌,
}
use xaeroflux.Network.{Bytes}
use xaeroflux.Startup.Files.{Files, IsDurable}
use xaeroflux.Startup.Boot.{
  Result, ok, err, unreadable_key, invalid_key, no_seed, no_directory, key_not_written,
}

-- getrandom, and iroh's secret keys: `fill` gives a seed, `generate` is the key that ChaCha8Rng makes of it.
pub record Secrets (F : Files) : Type 1 where
  pub SecretKey : Type 0
  pub fill : F.World → Option Bytes × F.World
  pub generate : Bytes → SecretKey
  pub to_bytes : SecretKey → Bytes
  pub from_bytes : Bytes → SecretKey

-- A key has 32 bytes, of which it is read back.
pub record IsFaithful {F : Files} (X : Secrets F) : Type 0 where
  pub length-to_bytes : (k : X.SecretKey) → length (X.to_bytes k) ≡ 32
  pub from_bytes-to_bytes : (k : X.SecretKey) → X.from_bytes (X.to_bytes k) ≡ k

module _ (F : Files) (X : Secrets F) where
  open F use {World, exists, read, write, create_dir_all, parent, join}
  open X use {SecretKey, fill, generate, to_bytes, from_bytes}

  parent_or_here : Option String → String
  parent_or_here none = "."
  parent_or_here (some directory) = directory

  unfoldable pub key_path : String → String
  unfolding parent_or_here
  key_path db_path = join (parent_or_here (parent db_path)) "node.key"

  -- `try_into::<[u8; 32]>`
  abbrev pub is_32 : ℕ → Bool
  is_32 n = leb n 32 && leb 32 n

  abbrev pub loaded_key : Option Bytes → Result SecretKey
  loaded_key none = err unreadable_key
  loaded_key (some bytes) = if is_32 (length bytes) then ok (from_bytes bytes) else err invalid_key

  abbrev pub create_parent : Option String → World → Bool × World
  create_parent none w = (true, w)
  create_parent (some directory) w = create_dir_all directory w

  abbrev if_written : Bool → SecretKey → Result SecretKey
  if_written true key = ok key
  if_written false key = err key_not_written

  -- The directory is there, or not.
  abbrev pub write_key : Bool → String → SecretKey → World → Result SecretKey × World
  write_key false path key w = (err no_directory, w)
  write_key true path key w =
      let (written, w') = write path (to_bytes key) w in (if_written written key, w')

  abbrev pub save_key : Option Bytes → String → World → Result SecretKey × World
  save_key none path w = (err no_seed, w)
  save_key (some seed) path w =
      let (made, w') = create_parent (parent path) w in write_key made path (generate seed) w'

  abbrev pub generate_key : String → World → Result SecretKey × World
  generate_key path w = let (seed, w') = fill w in save_key seed path w'

  unfoldable pub load_or_generate : String → World → Result SecretKey × World
  load_or_generate path w =
      if exists path w then (loaded_key (read path w), w) else generate_key path w

  -- The file is there and has the bytes of a key.
  abbrev pub HasKey : String → SecretKey → World → Type 0
  HasKey path k w = (exists path w ≡ true) × (loaded_key (read path w) ≡ ok k)

  pub HasKey-load_or_generate :
      (path : String) (k : SecretKey) (w : World)
      → HasKey path k w
      → load_or_generate path w ≡ (ok k, w)
  unfolding load_or_generate
  HasKey-load_or_generate path k w (there, bytes) = rw (there, bytes) refl

  module _ (durable : IsDurable F) (faithful : IsFaithful X) where
    -- A key that has been written is loaded.
    write_key-loads :
        (made : Bool) (path : String) (key k : SecretKey) (w : World)
        → (write_key made path key w).0 ≡ ok k
        → (exists path (write_key made path key w).1 ≡ true)
          × (loaded_key (read path (write_key made path key w).1) ≡ ok k)
    write_key-loads false path key k w h = cc
    write_key-loads true path key k w h = ground (
      arith,
      durable.exists-write path (to_bytes key) w,
      durable.read-write path (to_bytes key) w,
      faithful.length-to_bytes key,
      faithful.from_bytes-to_bytes key,
    )

    save_key-loads :
        (seed : Option Bytes) (path : String) (k : SecretKey) (w : World)
        → (save_key seed path w).0 ≡ ok k
        → (exists path (save_key seed path w).1 ≡ true)
          × (loaded_key (read path (save_key seed path w).1) ≡ ok k)
    save_key-loads none path k w h = cc
    save_key-loads (some seed) path k w h =
        let (made, w') = create_parent (parent path) w in
        write_key-loads made path (generate seed) k w' h

    pub load_or_generate-HasKey :
        (path : String) (w : World) (k : SecretKey)
        → (load_or_generate path w).0 ≡ ok k
        → HasKey path k (load_or_generate path w).1
    unfolding load_or_generate
    load_or_generate-HasKey path w k h = ground (arith, save_key-loads (fill w).0 path k (fill w).1)

    -- A node that has got its key gets the same key at the next start, and changes no file then: the key
    -- that it loaded, or that it made and wrote. Files are durable, and a key is its 32 bytes.
    pub load_or_generate-again :
        (path : String) (w : World) (k : SecretKey)
        → (load_or_generate path w).0 ≡ ok k
        → load_or_generate path (load_or_generate path w).1 ≡ (ok k, (load_or_generate path w).1)
    load_or_generate-again path w k h =
        HasKey-load_or_generate path k (load_or_generate path w).1
          (load_or_generate-HasKey path w k h)
