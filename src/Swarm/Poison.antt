-- ===== src/Swarm/Poison.antt =====
-- `BlobSwarm::fetch` of src/swarm.rs when an id among the holders is no key.
use mathlib.Core.Bool.{false≢true}
use xaeroflux.Prelude.{
  String, ◌≡◌, ◌≢◌, refl, ◌∙◌, true, Option, none, some, List, [], ◌∷◌, contains, arith,
}
use xaeroflux.Network.{Bytes}
use xaeroflux.Swarm.Blobs.{Blobs}
use xaeroflux.Swarm.Fetch.{bad_holder, err, parse_holders, with_provider, fetch}
use xaeroflux.Swarm.Negotiation.{MessageCodec, Swarm, holders}
use xaeroflux.Swarm.Holders.{announced_by, receive_all, contains-holders-receive_all}

module _ (B : Blobs) where
  open B use {World, Hash, show_hash, PublicKey, parse_key}

  parse_holders-bad :
      (ids : List String) (bad : String)
      → parse_key bad ≡ none
      → contains ids bad ≡ true
      → (x : String) × (parse_holders B ids ≡ err (bad_holder x))
  unfolding parse_holders
  parse_holders-bad [] bad unparsed listed = absurd (false≢true listed)
  parse_holders-bad (id ∷ ids) bad unparsed listed =
      go (parse_key id) refl (parse_holders-bad ids bad unparsed)
    where
      go :
          (o : Option PublicKey)
          → parse_key id ≡ o
          → (contains ids bad ≡ true → (x : String) × (parse_holders B ids ≡ err (bad_holder x)))
          → (x : String) × (with_provider B id o (parse_holders B ids) ≡ err (bad_holder x))
      go none p rest = (id, refl)
      go (some k) p rest = let (x, q) = rest (ground arith) in (x, rw q refl)

  -- An id among the holders that is no key makes the fetch fail before any holder is tried.
  pub fetch-bad_holder :
      (h : Hash) (ids : List String) (bad : String) (w : World)
      → parse_key bad ≡ none
      → contains ids bad ≡ true
      → (x : String) × (fetch B h ids w ≡ (err (bad_holder x), w))
  unfolding fetch
  fetch-bad_holder h [] bad w unparsed listed = absurd (false≢true listed)
  fetch-bad_holder h (id ∷ ids) bad w unparsed listed =
      let (x, q) = parse_holders-bad (id ∷ ids) bad unparsed listed in (x, rw q refl)

  -- One announcement by any peer whose holder id is no key (and not the node's own) makes every later
  -- fetch of the announced hash from the holders on record fail, whoever else holds the blob and whatever arrives besides.
  pub fetch-poisoned :
      (codec : MessageCodec) (raws : List Bytes) (s : Swarm B) (h : Hash) (bad : String)
      → parse_key bad ≡ none
      → bad ≢ s.node_id
      → announced_by B codec raws (show_hash h) bad ≡ true
      → let after = receive_all B codec raws s in
        (x : String) × (fetch B h (holders B after h) after.world
          ≡ (err (bad_holder x), after.world))
  fetch-poisoned codec raws s h bad unparsed other announced =
      let after = receive_all B codec raws s in
      fetch-bad_holder h (holders B after h) bad after.world unparsed
        (contains-holders-receive_all B codec raws s h bad ∙ ground (arith, other, announced))
