-- ===== src/Tests/Fixtures.antt =====
-- Small instances of what the program is built on: a JSON of texts, lists of texts and objects of
-- these, and a network that accepts everything.
use xaeroflux.Prelude.{
  ℕ, zero, suc, String, Bool, true, false, Option, none, some, List, [], ◌∷◌, map, ◌==◌,
}
use xaeroflux.Prelude.Dict.{Dict, lookup}
use xaeroflux.Sqlite.{Tables}
use xaeroflux.Sqlite.Memory.{reliable}
use xaeroflux.Json.{Json}
use xaeroflux.Peers.{Tracker}
use xaeroflux.Discovery.Actions.{World, State}

pub data Value : Type 0 where
  text : String → Value
  texts : List String → Value
  fields : Dict String → List String → Value

abbrev pub text_of : Value → Option String
text_of (text s) = some s
text_of _ = none

abbrev pub list_of : Value → Option (List Value)
list_of (texts xs) = some (map text xs)
list_of _ = none

abbrev pub text_option : Option String → Option Value
text_option none = none
text_option (some s) = some (text s)

abbrev pub unless_groups : Bool → List String → Option Value → Option Value
unless_groups true groups v = some (texts groups)
unless_groups false groups v = v

-- An object's texts, and the list under `local_groups`.
abbrev pub field_of : Value → String → Option Value
field_of (fields d groups) key =
    unless_groups (key == "local_groups") groups (text_option (lookup key d))
field_of _ key = none

abbrev pub hello_groups : Value
hello_groups =
    fields (("msg_type", "groups_exchange") ∷ ("node_id", "abcdefghijklmnopq") ∷ [])
      ("group-one-is-a-group" ∷ [])

-- The id has fifteen ASCII characters, and then one of two bytes.
abbrev pub bad_groups : Value
bad_groups = fields (("msg_type", "groups_exchange") ∷ ("node_id", "aaaaaaaaaaaaaaaéa") ∷ []) []

abbrev pub parse_bytes : List ℕ → Option Value
parse_bytes [] = none
parse_bytes (suc zero ∷ _) = some hello_groups
parse_bytes (_ ∷ _) = some bad_groups

abbrev pub flat : Json
flat = record {
  Value = Value;
  from_slice = parse_bytes;
  from_str = λ s. some (fields (("type", s) ∷ ("id", "x") ∷ []) []);
  get = field_of;
  as_str = text_of;
  as_array = list_of;
  as_i64 = λ v. none;
  string = text;
  array = λ vs. texts [];
  object = λ d. fields [] [];
}

abbrev pub quiet : World
quiet = record {
  S = reliable;
  J = flat;
  PublicKey = String;
  parse_key = λ s. some s;
  Network = ℕ;
  try_subscribe = λ g p n. (true, n);
  try_join = λ g p n. (true, n);
  is_on = λ level. true;
}

abbrev pub empty_tables : Tables
empty_tables = record { events = []; group_peers = [] }

abbrev pub no_peers : Tracker reliable
no_peers = record { connection = empty_tables; cache = [] }

abbrev pub idle : State quiet
idle = record { tracker = no_peers; senders = []; network = 0; effects = [] }
