-- ===== src/Tests/BlobRuns.antt =====
-- Two nodes of the swarm (Swarm/), with a store that is a list of what it holds.
use mathlib.Core.Bool.{Bool-discrete, false≢true}
use text.Mathlib.TextEquality.{eq_iff}
use xaeroflux.Prelude.{
  zero, suc, String, ◌≡◌, refl, ◌≢◌, Bool, true, false, ◌&&◌, ◌||◌, not, Option, none, some, [],
  ◌∷◌, contains, ◌==◌, string_dec, if◌then◌else◌, arith,
}
use xaeroflux.Network.{Bytes}
use xaeroflux.Swarm.Blobs.{Blobs, IsWorking, Dial, connected, refused}
use xaeroflux.Swarm.Negotiation.{
  SwarmMessage, i_have, who_has, MessageCodec, ok, Swarm, announce, query, holders, on_message,
}
use xaeroflux.Swarm.Holders.{
  announced_by, receive_all, RoundTrips, contains-holders-receive_all, negotiate,
}
use xaeroflux.Swarm.Fetch.{Fetched, fetch, bad_holder}
use xaeroflux.Swarm.Churn.{IsKey, fetch-Serves}
use xaeroflux.Swarm.Poison.{fetch-bad_holder, fetch-poisoned}

-- A store of the one blob `[]`, whose hash is true, or of none: whether it is there is the world.
abbrev dial : Bool → Dial (Unit {0})
dial true = connected tt
dial false = refused

abbrev name_of : Bool → String
name_of true = "h1"
name_of false = "h0"

abbrev hash_named : String → Option Bool
hash_named s = if s == "h1" then some true else if s == "h0" then some false else none

-- The peers that are keys: `good` serves and `gone` does not answer.
abbrev key_named : String → Option Bool
key_named s = if s == "good" then some true else if s == "gone" then some false else none

abbrev holds_it : Bool → Bool → Bool
holds_it true w = w
holds_it false w = false

abbrev pub one_blob : Blobs
one_blob = record {
  World = Bool;
  Hash = Bool;
  hash_dec = Bool-discrete;
  show_hash = name_of;
  parse_hash = hash_named;
  hash_of = λ bytes. true;
  PublicKey = Bool;
  parse_key = key_named;
  Connection = Unit {0};
  add_bytes = λ bytes w. (some true, true);
  has = λ h w. (some (holds_it h w), w);
  get_bytes = λ h w. (if holds_it h w then some [] else none, w);
  connect = λ p w. (dial p, w);
  remote_fetch = λ c h w. (h, w || h);
}

pub get_bytes-holds :
    (h w : Bool)
    → holds_it h w ≡ true
    → (bytes : Bytes) × ((if holds_it h w then some [] else none) ≡ some bytes) × (true ≡ h)
get_bytes-holds true true p = ([], refl, refl)
get_bytes-holds true false p = absurd (false≢true p)
get_bytes-holds false w p = absurd (false≢true p)

pub remote_fetch-keeps : (g h w : Bool) → holds_it h w ≡ true → holds_it h (w || g) ≡ true
remote_fetch-keeps g true true p = refl
remote_fetch-keeps g true false p = absurd (false≢true p)
remote_fetch-keeps g false w p = absurd (false≢true p)

abbrev pub one_blob-IsWorking : IsWorking one_blob
one_blob-IsWorking = record {
  holds = holds_it;
  has-holds = λ h w. refl;
  has-keeps = λ g h w. refl;
  connect-keeps = λ p h w held. held;
  remote_fetch-keeps = λ c g h w held. remote_fetch-keeps g h w held;
  get_bytes-holds = get_bytes-holds;
}

-- The messages of the tests, by one byte each.
abbrev message : Bytes → Option SwarmMessage
message [] = none
message (zero ∷ _) = some (who_has "h1" "a")
message (suc zero ∷ _) = some (i_have "h1" "b")
message (suc (suc zero) ∷ _) = some (i_have "h1" "nonsense")
message (suc (suc (suc _)) ∷ _) = none

abbrev pub is_question : SwarmMessage → Bool
is_question (who_has h n) = h == "h1" && n == "a"
is_question (i_have h n) = false

abbrev is_answer : SwarmMessage → Bool
is_answer (who_has h n) = false
is_answer (i_have h n) = h == "h1" && n == "b"

abbrev messages : MessageCodec
messages = record {
  encode =
      λ m. if is_question m then some (0 ∷ []) else if is_answer m then some (1 ∷ []) else none;
  decode = message;
}

message-codes :
    (m : SwarmMessage) (raw : Bytes) → messages.encode m ≡ some raw → messages.decode raw ≡ some m
message-codes (who_has h n) raw p = ground arith
message-codes (i_have h n) raw p = ground arith

pub hash_named-name_of : (h : Bool) → hash_named (name_of h) ≡ some h
unfolding string_dec
hash_named-name_of true = refl
hash_named-name_of false = refl

messages-RoundTrips : RoundTrips one_blob messages
messages-RoundTrips = (message-codes, hash_named-name_of)

abbrev a : Swarm one_blob
a = record { node_id = "a"; registry = []; world = false }

abbrev b : Swarm one_blob
b = record { node_id = "b"; registry = []; world = true }

contains-holders-receive_all_example :
    contains
      (holders one_blob (receive_all one_blob messages ((1 ∷ []) ∷ (2 ∷ []) ∷ []) a) true)
      "b"
    ≡ (contains (holders one_blob a true) "b"
        || (not ("b" == "a")
            && announced_by one_blob messages ((1 ∷ []) ∷ (2 ∷ []) ∷ []) (name_of true) "b"))
contains-holders-receive_all_example =
    contains-holders-receive_all one_blob messages ((1 ∷ []) ∷ (2 ∷ []) ∷ []) a true "b"

b_ne_a : b.node_id ≢ a.node_id
b_ne_a p = false≢true ((eq_iff "b" "a").1 p)

negotiate_example :
    ((on_message one_blob messages (0 ∷ []) b).0
      ≡ ok (if true then some (announce one_blob b true) else none))
    × (contains (holders one_blob (on_message one_blob messages (1 ∷ []) a).1 true) "b" ≡ true)
unfolding string_dec query announce
negotiate_example =
    negotiate one_blob one_blob-IsWorking messages messages-RoundTrips a b true (0 ∷ []) (1 ∷ [])
      b_ne_a refl refl

fetch-Serves_example :
    (bytes : Bytes) × ((fetch one_blob true ("gone" ∷ "good" ∷ "gone" ∷ []) false).0
      ≡ Fetched.ok bytes)
    × (true ≡ true)
unfolding string_dec IsKey
fetch-Serves_example =
    fetch-Serves one_blob one_blob-IsWorking true ("gone" ∷ []) ("gone" ∷ []) "good" true
      ((false, refl), tt) ((false, refl), tt) refl (λ w. (tt, refl, refl, served w)) false
  where
    served : (w : Bool) → (w || true) ≡ true
    served true = refl
    served false = refl

fetch-bad_holder_example :
    (x : String) × (fetch one_blob true ("good" ∷ "nonsense" ∷ []) false
      ≡ (Fetched.err (bad_holder x), false))
unfolding string_dec
fetch-bad_holder_example =
    fetch-bad_holder one_blob true ("good" ∷ "nonsense" ∷ []) "nonsense" false refl refl

nonsense_ne_a : ◌≢◌ {A = String} "nonsense" "a"
nonsense_ne_a p = false≢true ((eq_iff "nonsense" "a").1 p)

fetch-poisoned_example :
    (x : String) × (fetch one_blob true
        (holders one_blob (receive_all one_blob messages ((1 ∷ []) ∷ (2 ∷ []) ∷ []) a) true)
        (receive_all one_blob messages ((1 ∷ []) ∷ (2 ∷ []) ∷ []) a).world
      ≡ (
        Fetched.err (bad_holder x),
        (receive_all one_blob messages ((1 ∷ []) ∷ (2 ∷ []) ∷ []) a).world,
      ))
unfolding string_dec
fetch-poisoned_example =
    fetch-poisoned one_blob messages ((1 ∷ []) ∷ (2 ∷ []) ∷ []) a true "nonsense" refl nonsense_ne_a
      refl
