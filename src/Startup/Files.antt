-- ===== src/Startup/Files.antt =====
-- The file system that src/lib.rs and src/rendezvous.rs use, as a parameter: std::fs on named files.
use xaeroflux.Prelude.{String, ◌≡◌, Bool, true, Option, some}
use xaeroflux.Network.{Bytes}

-- A write and a `create_dir_all` say whether they succeed. `parent` and `join` are those of the platform's
-- paths.
pub record Files : Type 1 where
  pub World : Type 0
  pub exists : String → World → Bool
  pub read : String → World → Option Bytes
  pub write : String → Bytes → World → Bool × World
  pub create_dir_all : String → World → Bool × World
  pub parent : String → Option String
  pub join : String → String → String

-- What has been written is there, and is read back.
pub record IsDurable (F : Files) : Type 0 where
  pub exists-write :
      (p : String) (bytes : Bytes) (w : F.World)
      → (F.write p bytes w).0 ≡ true
      → F.exists p (F.write p bytes w).1 ≡ true
  pub read-write :
      (p : String) (bytes : Bytes) (w : F.World)
      → (F.write p bytes w).0 ≡ true
      → F.read p (F.write p bytes w).1 ≡ some bytes

-- No call fails.
pub record NeverDenies (F : Files) : Type 0 where
  pub creates : (p : String) (w : F.World) → (F.create_dir_all p w).0 ≡ true
  pub writes : (p : String) (bytes : Bytes) (w : F.World) → (F.write p bytes w).0 ≡ true
