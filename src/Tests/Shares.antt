-- ===== src/Tests/Shares.antt =====
-- A blob that one node adds and another fetches, with the store of BlobRuns.antt.
use mathlib.Core.Bool.{false≢true}
use text.Mathlib.TextEquality.{eq_iff}
use xaeroflux.Prelude.{
  zero, suc, ◌≡◌, refl, ◌≢◌, Bool, true, false, ◌||◌, ◌&&◌, Option, none, some, [], ◌∷◌, ◌==◌,
  string_dec, if◌then◌else◌, arith,
}
use xaeroflux.Network.{Bytes}
use xaeroflux.Swarm.Negotiation.{
  SwarmMessage, i_have, who_has, MessageCodec, ok, Swarm, announce, query, holders, on_message,
  record_holder,
}
use xaeroflux.Swarm.Holders.{RoundTrips}
use xaeroflux.Swarm.Fetch.{Fetched, fetch}
use xaeroflux.Swarm.Churn.{IsKey}
use xaeroflux.Swarm.Store.{Adds, add}
use xaeroflux.Swarm.Share.{add-fetch}
use xaeroflux.Prelude.Dict.{lookup, insert}
use xaeroflux.Tests.BlobRuns.{one_blob, one_blob-IsWorking, is_question, hash_named-name_of}

abbrev message : Bytes → Option SwarmMessage
message [] = none
message (zero ∷ _) = some (who_has "h1" "a")
message (suc _ ∷ _) = some (i_have "h1" "good")

abbrev is_answer : SwarmMessage → Bool
is_answer (who_has h n) = false
is_answer (i_have h n) = h == "h1" && n == "good"

abbrev messages : MessageCodec
messages = record {
  encode =
      λ m. if is_question m then some (0 ∷ []) else if is_answer m then some (1 ∷ []) else none;
  decode = message;
}

message-codes :
    (m : SwarmMessage) (raw : Bytes) → messages.encode m ≡ some raw → messages.decode raw ≡ some m
message-codes (who_has h n) raw p = ground arith
message-codes (i_have h n) raw p = ground arith

messages-RoundTrips : RoundTrips one_blob messages
messages-RoundTrips = (message-codes, hash_named-name_of)

one_blob-Adds : Adds one_blob one_blob-IsWorking
one_blob-Adds = record { adds = λ bytes w. refl; holds-add = λ bytes w. refl }

abbrev asker : Swarm one_blob
asker = record { node_id = "a"; registry = []; world = false }

-- It has nothing yet.
abbrev giver : Swarm one_blob
giver = record { node_id = "good"; registry = []; world = false }

good_ne_a : giver.node_id ≢ asker.node_id
good_ne_a p = false≢true ((eq_iff "good" "a").1 p)

add-fetch_example :
    ((add one_blob [] giver).0 ≡ ok true)
    × ((on_message one_blob messages (0 ∷ []) (add one_blob [] giver).1).0
        ≡ ok (some (announce one_blob giver true)))
    × ((fetched : Bytes) × ((fetch one_blob true
            (holders one_blob (on_message one_blob messages (1 ∷ []) asker).1 true)
            false).0
          ≡ Fetched.ok fetched)
        × (true ≡ true))
unfolding string_dec query announce IsKey holders on_message record_holder lookup insert
add-fetch_example =
    add-fetch one_blob one_blob-IsWorking messages asker giver [] (0 ∷ []) (1 ∷ []) true
      one_blob-Adds messages-RoundTrips good_ne_a refl refl ((true, refl), tt) refl
      (λ held w. (tt, refl, refl, served w))
  where
    served : (w : Bool) → (w || true) ≡ true
    served true = refl
    served false = refl
