-- ===== src/Swarm/Blobs.antt =====
-- What src/swarm.rs uses of iroh and iroh-blobs: the local store, the dialling of a node, and the
-- download over a connection. They act on a world that the program does not see into.
use xaeroflux.Prelude.{◌≡◌, String, Bool, true, Option, some}
use xaeroflux.Network.{Bytes}

-- The outcome of a dial within its time limit.
pub data Dial (C : Type 0) : Type 0 where
  connected : C → Dial C
  refused timed_out : Dial C

pub record Blobs : Type 1 where
  pub World : Type 0
  pub Hash : Type 0
  pub hash_dec : Discrete Hash
  -- `hash.to_string()`, `Hash::from_str`, `Hash::new`
  pub show_hash : Hash → String
  pub parse_hash : String → Option Hash
  pub hash_of : Bytes → Hash
  pub PublicKey : Type 0
  pub parse_key : String → Option PublicKey
  pub Connection : Type 0
  -- `none` is an error of the store
  pub add_bytes : Bytes → World → Option Hash × World
  pub has : Hash → World → Option Bool × World
  pub get_bytes : Hash → World → Option Bytes × World
  pub connect : PublicKey → World → Dial Connection × World
  -- `store.remote().fetch`; false is an error
  pub remote_fetch : Connection → Hash → World → Bool × World

-- What is assumed of a store that works: it answers, it gives the content that the hash names, and
-- nothing that is held is lost by a test, a dial or a download.
pub record IsWorking (B : Blobs) : Type 0 where
  pub holds : B.Hash → B.World → Bool
  pub has-holds : (h : B.Hash) (w : B.World) → (B.has h w).0 ≡ some (holds h w)
  pub has-keeps : (g h : B.Hash) (w : B.World) → holds h (B.has g w).1 ≡ holds h w
  pub connect-keeps :
      (p : B.PublicKey) (h : B.Hash) (w : B.World)
      → holds h w ≡ true
      → holds h (B.connect p w).1 ≡ true
  pub remote_fetch-keeps :
      (c : B.Connection) (g h : B.Hash) (w : B.World)
      → holds h w ≡ true
      → holds h (B.remote_fetch c g w).1 ≡ true
  pub get_bytes-holds :
      (h : B.Hash) (w : B.World)
      → holds h w ≡ true
      → (bytes : Bytes) × ((B.get_bytes h w).0 ≡ some bytes) × (B.hash_of bytes ≡ h)
