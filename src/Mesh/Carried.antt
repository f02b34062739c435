-- ===== src/Mesh/Carried.antt =====
-- The ids that the bytes on the air carry.
use xaeroflux.Prelude.{
  get_elem?, zero, suc, ℕ, ◌≡◌, refl, String, true, ◌||◌, some, List, [], ◌∷◌, ◌++◌, arith,
  contains, contains-append,
}
use mathlib.Core.Option.{some-injective}
use xaeroflux.Event.{Event, ids}
use xaeroflux.Network.{Bytes, EventCodec}
use xaeroflux.Node.{sent}
use xaeroflux.Mesh.{}
use xaeroflux.Mesh.Coverage.{}

-- Every event has an encoding.
abbrev pub IsTotal : EventCodec → Type 0
IsTotal codec = (e : Event) → (b : Bytes) × (codec.encode e ≡ some b)

-- The ids of the events that the bytes decode to.
abbrev pub carried : EventCodec → List Bytes → List String
carried codec [] = []
carried codec (b ∷ bs) = ids (sent (codec.decode b)) ++ carried codec bs

pub contains-carried :
    (codec : EventCodec) (xs ys : List Bytes) (x : String)
    → contains (carried codec (xs ++ ys)) x
      ≡ (contains (carried codec xs) x || contains (carried codec ys) x)
contains-carried codec [] ys x = refl
contains-carried codec (b ∷ xs) ys x = ground (
  arith,
  contains-carried codec xs ys x,
  contains-append (ids (sent (codec.decode b))) (carried codec (xs ++ ys)) x,
  contains-append (ids (sent (codec.decode b))) (carried codec xs) x,
)

pub carried-get_elem? :
    (codec : EventCodec) (air : List Bytes) (k : ℕ) (b : Bytes) (e : Event)
    → get_elem? air k ≡ some b
    → codec.decode b ≡ some e
    → contains (carried codec air) e.id ≡ true
carried-get_elem? codec [] k b e p d = cc
carried-get_elem? codec (a ∷ air) zero b e p d = ground (
  arith,
  some-injective a b p,
  d,
  contains-append (ids (sent (codec.decode a))) (carried codec air) e.id,
)
carried-get_elem? codec (a ∷ air) (suc k) b e p d = ground (
  arith,
  carried-get_elem? codec air k b e p d,
  contains-append (ids (sent (codec.decode a))) (carried codec air) e.id,
)
