-- ===== src/Tests/Printed.antt =====
-- A JSON of texts, lists of texts and objects of these whose objects are printed as bytes and read again, and
-- discovery tasks that answer one another by it.
use xaeroflux.Prelude.{
  ℕ, zero, suc, ◌+◌, ◌≤◌, String, ◌≡◌, refl, Option, Option-cases, inl, inr, none, some, List, [],
  ◌∷◌, ◌++◌, length, map, ◌==◌, if◌then◌else◌,
}
use xaeroflux.Prelude.Int.{ℤ, pos}
use xaeroflux.Prelude.Dict.{Dict, lookup, map_values, lookup-map_values}
use xaeroflux.Network.{Bytes}
use xaeroflux.Json.{Json, get_str, then_str}
use xaeroflux.Discovery.Actions.{World, State}
use xaeroflux.Discovery.{on_message}
use xaeroflux.Discovery.Cascade.{
  Printing, Member, broadcasts, hears, Deliveries, none_yet, more, handles, weights,
  Deliveries-le-weights,
}
use xaeroflux.Tests.Wire.{write_text, read_text, read_text-write_text, ◌>>=◌}
use xaeroflux.Tests.Fixtures.{quiet, no_peers}

-- The texts among an object's members, and the list under `local_groups`.
data Value : Type 0 where
  text : String → Value
  texts : List String → Value
  members : Dict (Option String) → List String → Value

abbrev text_of : Value → Option String
text_of (text s) = some s
text_of (texts ss) = none
text_of (members d groups) = none

abbrev list_of : Value → Option (List Value)
list_of (text s) = none
list_of (texts ss) = some (map text ss)
list_of (members d groups) = none

abbrev member : Option (Option String) → Option Value
member none = none
member (some none) = some (texts [])
member (some (some s)) = some (text s)

abbrev member_or_groups : List String → String → Option Value → Option Value
member_or_groups [] key v = v
member_or_groups (g ∷ groups) key v = if key == "local_groups" then some (texts (g ∷ groups)) else v

abbrev get_member : Value → String → Option Value
get_member (members d groups) key = member_or_groups groups key (member (lookup key d))
get_member (text s) key = none
get_member (texts ss) key = none

abbrev write_entries : Dict (Option String) → Bytes → Bytes
write_entries [] rest = rest
write_entries ((k, none) ∷ d) rest = write_text k ++ (0 ∷ write_entries d rest)
write_entries ((k, some s) ∷ d) rest = write_text k ++ (1 ∷ (write_text s ++ write_entries d rest))

abbrev write_texts : List String → Bytes
write_texts [] = []
write_texts (s ∷ ss) = write_text s ++ write_texts ss

abbrev to_bytes : Value → Bytes
to_bytes (text s) = []
to_bytes (texts ss) = []
to_bytes (members d groups) = length d ∷ write_entries d (length groups ∷ write_texts groups)

abbrev present : Option (String × Bytes) → Option (Option String × Bytes)
present none = none
present (some (s, rest)) = some (some s, rest)

abbrev read_value : Bytes → Option (Option String × Bytes)
read_value [] = none
read_value (zero ∷ rest) = some (none, rest)
read_value (suc n ∷ rest) = present (read_text rest)

abbrev read_entries : ℕ → Bytes → Option (Dict (Option String) × Bytes)
read_entries zero bytes = some ([], bytes)
read_entries (suc n) bytes = do
  (k, after_key) ← read_text bytes
  (v, after_value) ← read_value after_key
  (d, rest) ← read_entries n after_value
  some ((k, v) ∷ d, rest)

abbrev read_texts : ℕ → Bytes → Option (List String)
read_texts zero bytes = some []
read_texts (suc n) bytes = do (s, rest) ← read_text bytes; ss ← read_texts n rest; some (s ∷ ss)

abbrev read_groups : Bytes → Option (List String)
read_groups [] = none
read_groups (n ∷ bytes) = read_texts n bytes

abbrev read_members : Bytes → Option Value
read_members [] = none
read_members (n ∷ bytes) = do
  (d, rest) ← read_entries n bytes
  groups ← read_groups rest
  some (members d groups)

read_entries-write_entries :
    (d : Dict (Option String)) (rest : Bytes)
    → read_entries (length d) (write_entries d rest) ≡ some (d, rest)
read_entries-write_entries [] rest = refl
read_entries-write_entries ((k, none) ∷ d) rest =
    rw (read_text-write_text k (0 ∷ write_entries d rest), read_entries-write_entries d rest) refl
read_entries-write_entries ((k, some s) ∷ d) rest =
    rw
      (
        read_text-write_text k (1 ∷ (write_text s ++ write_entries d rest)),
        read_text-write_text s (write_entries d rest),
        read_entries-write_entries d rest,
      )
      refl

abbrev json : Json
json = record {
  Value = Value;
  from_slice = read_members;
  from_str = λ s. none;
  get = get_member;
  as_str = text_of;
  as_array = list_of;
  as_i64 = λ v. none;
  string = text;
  array = λ vs. texts [];
  object = λ d. members (map_values text_of d) [];
}

get_str-object :
    (d : Dict Value) (k : String)
    → get_str json (members (map_values text_of d) []) k ≡ then_str json (lookup k d)
unfolding get_str
get_str-object d k = elim (Option-cases (lookup k d)) [
  | inl p ↦ rw (lookup-map_values text_of k d, p) refl
  | inr (v, p) ↦ rw (lookup-map_values text_of k d, p) (by_value v)
]
  where
    by_value : (v : Value) → then_str json (member (some (text_of v))) ≡ text_of v
    by_value (text s) = refl
    by_value (texts ss) = refl
    by_value (members e groups) = refl

printing : Printing json
printing = record {
  to_bytes = to_bytes;
  reads = λ d. (
    members (map_values text_of d) [],
    rw (read_entries-write_entries (map_values text_of d) (0 ∷ [])) refl,
    get_str-object d,
  );
  as_str-string = λ s. refl;
}

abbrev world : World
world = record quiet { J = json }

abbrev exchange_of : String → Bytes
exchange_of node_id = to_bytes (
    members (("msg_type", some "groups_exchange") ∷ ("node_id", some node_id) ∷ [])
      ("group-one-is-a-group" ∷ []))

abbrev fresh : State world
fresh = record { tracker = no_peers; senders = []; network = 0; effects = [] }

abbrev clock : ℕ → ℤ
clock i = pos i

abbrev with_inbox : State world → List Bytes → Member world printing
with_inbox s inbox = record { state = s; inbox = inbox }

-- Two nodes hear of two others, and then the first introduces these to the second.
abbrev ann : Bytes
ann = exchange_of "annannannannannann"

abbrev bob : Bytes
bob = exchange_of "bobbobbobbobbobbob"

abbrev other : List (Member world printing)
other = with_inbox fresh [] ∷ []

abbrev met_ann : State world
met_ann = (on_message clock ann fresh).1

abbrev met_both : State world
met_both = (on_message clock bob met_ann).1

abbrev other_then : List (Member world printing)
other_then = map (hears world printing (broadcasts world printing fresh met_ann)) other

abbrev net_after : List (Member world printing)
net_after =
    with_inbox met_both []
    ∷ map (hears world printing (broadcasts world printing met_ann met_both)) other_then

abbrev net_before : List (Member world printing)
net_before = with_inbox fresh (ann ∷ bob ∷ []) ∷ other

both_met : Deliveries world printing net_before 2 net_after
both_met =
    more (more none_yet (handles [] other fresh [] (bob ∷ []) ann clock refl refl))
      (handles [] other_then met_ann [] [] bob clock refl refl)

Deliveries-le-weights_example :
    2 + weights world printing 2 net_after ≤ weights world printing 2 net_before
Deliveries-le-weights_example = Deliveries-le-weights world printing both_met
