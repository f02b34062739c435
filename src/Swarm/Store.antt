-- ===== src/Swarm/Store.antt =====
-- `BlobSwarm::add`, `has` and `get` of src/swarm.rs: the local store.
use xaeroflux.Prelude.{◌≡◌, Bool, true, Option, none, some}
use xaeroflux.Network.{Bytes}
use xaeroflux.Swarm.Blobs.{Blobs, IsWorking}
use xaeroflux.Swarm.Negotiation.{Swarm, Outcome, ok, store_failed}

module _ (B : Blobs) where
  open B use {World, Hash, hash_of, add_bytes, has, get_bytes}

  abbrev or_store_failed : {A : Type 0} → Option A → Outcome A
  or_store_failed none = store_failed
  or_store_failed (some a) = ok a

  unfoldable pub add : Bytes → Swarm B → Outcome Hash × Swarm B
  add bytes s = let (h, w) = add_bytes bytes s.world in (or_store_failed h, record s { world = w })

  unfoldable pub has_blob : Hash → Swarm B → Outcome Bool × Swarm B
  has_blob h s = let (held, w) = has h s.world in (or_store_failed held, record s { world = w })

  unfoldable pub get : Hash → Swarm B → Outcome Bytes × Swarm B
  get h s = let (bytes, w) = get_bytes h s.world in (or_store_failed bytes, record s { world = w })

  -- What is assumed of the adding: the blob is held under the hash of its bytes, which is returned.
  pub record Adds (working : IsWorking B) : Type 0 where
    pub adds : (bytes : Bytes) (w : World) → (add_bytes bytes w).0 ≡ some (hash_of bytes)
    pub holds-add :
        (bytes : Bytes) (w : World) → working.holds (hash_of bytes) (add_bytes bytes w).1 ≡ true
