-- ===== src/Swarm/Share.antt =====
-- From one node to another: a blob that is added on one is found and fetched by another.
use mathlib.Core.Path.{subst}
use xaeroflux.Prelude.{
  String, ◌≡◌, ◌≢◌, refl, ap, ◌∙◌, Bool, true, none, some, List, [], ◌∷◌, ◌++◌, All, contains,
  arith, string_dec, if◌then◌else◌,
}
use xaeroflux.Network.{Bytes}
use xaeroflux.Swarm.Blobs.{Blobs, IsWorking}
use xaeroflux.Swarm.Negotiation.{MessageCodec, ok, Swarm, announce, query, holders, on_message}
use xaeroflux.Swarm.Store.{Adds, add}
use xaeroflux.Swarm.Holders.{RoundTrips, negotiate}
use xaeroflux.Swarm.Fetch.{Fetched, fetch}
use xaeroflux.Swarm.Churn.{IsKey, Serves, fetch-Serves}

-- A text that a list contains stands somewhere in it.
split_at :
    (xs : List String) (a : String)
    → contains xs a ≡ true
    → (before : List String) × (after : List String) × (xs ≡ before ++ a ∷ after)
split_at [] a h = cc
split_at (x ∷ xs) a h = elim (string_dec x a) [
  | yes same ↦ ([], xs, ap (λ y. y ∷ xs) same)
  | no differ ↦
      let (before, after, p) = split_at xs a (ground arith) in
      (x ∷ before, after, ap (λ ys. x ∷ ys) p)
]

All-split {ℓ κ} :
    {A : Type ℓ} (P : A → Type κ) (xs ys : List A) → All P (xs ++ ys) → All P xs × All P ys
All-split P [] ys h = (tt, h)
All-split P (x ∷ xs) ys (p, h) = let (k, l) = All-split P xs ys h in ((p, k), l)

module _ (B : Blobs) where
  open B use {World, Hash, hash_of, PublicKey, parse_key}

  -- Node b adds bytes, node a asks for their hash and takes in b's answer. Then a, by the holders that it has
  -- on record, fetches bytes of the same hash, whatever the other holders do: if the stores work, the message
  -- codec round-trips, the ids of a and b differ, b serves what its store holds after the adding, and every
  -- holder on record is a key.
  pub add-fetch :
      (working : IsWorking B) (codec : MessageCodec) (a b : Swarm B) (bytes question answer : Bytes)
      (p : PublicKey)
      → Adds B working
      → RoundTrips B codec
      → b.node_id ≢ a.node_id
      → codec.encode (query B a (hash_of bytes)) ≡ some question
      → codec.encode (announce B b (hash_of bytes)) ≡ some answer
      → All (IsKey B) (holders B (on_message B codec answer a).1 (hash_of bytes))
      → parse_key b.node_id ≡ some p
      → (working.holds (hash_of bytes) (add B bytes b).1.world ≡ true
          → Serves B working (hash_of bytes) p)
      → ((add B bytes b).0 ≡ ok (hash_of bytes))
        × ((on_message B codec question (add B bytes b).1).0
            ≡ ok (some (announce B b (hash_of bytes))))
        × ((fetched : Bytes) × ((fetch B
                (hash_of bytes)
                (holders B (on_message B codec answer a).1 (hash_of bytes))
                a.world).0
              ≡ Fetched.ok fetched)
            × (hash_of fetched ≡ hash_of bytes))
  unfolding add announce
  add-fetch working codec a b bytes question answer p adds laws other asked answered keys known
        serves =
      let h = hash_of bytes in
      let (replied, found) =
        negotiate B working codec laws a (add B bytes b).1 h question answer other asked answered in
      let hs = holders B (on_message B codec answer a).1 h in
      let (before, after, q) = split_at hs b.node_id found in
      let (ks, ls) =
        All-split (IsKey B) before (b.node_id ∷ after) (subst (All (IsKey B)) q keys) in
      (
        rw (adds.adds bytes b.world) refl,
        replied
            ∙ ap (λ (held : Bool). ok (if held then some (announce B b h) else none))
                (adds.holds-add bytes b.world),
        rw q (
            fetch-Serves B working h before after b.node_id p ks ls.1 known
              (serves (adds.holds-add bytes b.world)) a.world),
      )
