-- ===== src/Discovery/Introductions.antt =====
-- How many introductions the discovery task sends in answer to a message.
use xaeroflux.Prelude.{
  ℕ, suc, Bool, true, false, ◌+◌, ◌≤◌, Bool-cases, inl, inr, String, Option, none, some, List, [],
  ◌∷◌, ◌++◌, arith, ltb, length, length-append, if◌then◌else◌, ◌==◌,
}
use xaeroflux.Prelude.Int.{ℤ}
use xaeroflux.Json.{Json, get_str, get_array}
use xaeroflux.Network.{Bytes}
use xaeroflux.Discovery.Actions.{World, introduce, State, pure, emit, info, log_slice}
use xaeroflux.Discovery.Rules.{Any, Keeps, Keeps-pure, Keeps-if, Keeps-bind}
use xaeroflux.Discovery.Closed.{log_both_keeps, join_group_keeps, track_peer_keeps}
use xaeroflux.Discovery.{
  log_both, join_group, track_peer, note_peer, track_group, track_groups, introduce_all,
  exchange_groups, exchange, on_typed, on_parsed, on_message,
}
use xaeroflux.Discovery.Adds.{
  introductions, Below, Below-IsGroupClosed, Adds, Adds-Keeps, Adds-bind, Adds-pure, Adds-log_slice,
  Adds-emit,
}

abbrev AtMost : ℕ → List (String × List String) → Type 0
AtMost n due = length due ≤ n

due_length :
    (b : Bool) (gid : String) (peers : List String) → AtMost 1 (if b then (gid, peers) ∷ [] else [])
due_length true gid peers = omega arith
due_length false gid peers = omega arith

-- The length of a list that may be missing.
abbrev count : {A : Type 0} → Option (List A) → ℕ
count none = 0
count (some vs) = length vs

-- How many groups a message names, if it is a `groups_exchange`.
module _ (J : Json) where
  abbrev typed_groups : Option String → J.Value → ℕ
  typed_groups none json = 0
  typed_groups (some msg_type) json =
      if msg_type == "groups_exchange" then count (get_array J json "local_groups") else 0

  abbrev parsed_groups : Option J.Value → ℕ
  parsed_groups none = 0
  parsed_groups (some json) = typed_groups (get_str J json "msg_type") json

  abbrev pub groups_of : Bytes → ℕ
  groups_of content = parsed_groups (J.from_slice content)

module _ {W : World} where
  open W use {J}

  note_peer-length :
      (n : ℕ) (from gid : String) (o : Option Bool) (peers : List String)
      → Keeps (Below n) (note_peer {W = W} from gid (o, peers)) (AtMost 1)
  unfolding note_peer
  note_peer-length n from gid none peers = Keeps-pure [] (omega arith)
  note_peer-length n from gid (some new) peers =
      Keeps-bind (if new then log_both info from gid else pure tt) _
        (Keeps-if new _ _ (log_both_keeps (Below n) (Below-IsGroupClosed n) info from gid)
          (Keeps-pure {Q = Any} tt tt))
        (λ _ _. Keeps-pure _ (due_length (ltb 1 (length peers)) gid peers))

  track_group-length :
      (n : ℕ) (now : ℤ) (from : String) (gid : Option String)
      → Keeps (Below n) (track_group {W = W} now from gid) (AtMost 1)
  unfolding track_group
  track_group-length n now from none = Keeps-pure [] (omega arith)
  track_group-length n now from (some gid) =
      Keeps-bind (join_group from gid) _
        (join_group_keeps (Below n) (Below-IsGroupClosed n) from gid)
        (λ _ _.
          Keeps-bind (track_peer now from gid) _
            (track_peer_keeps (Below n) (Below-IsGroupClosed n) now from gid)
            (λ tracked _. note_peer-length n from gid tracked.0 tracked.1))

  track_groups-length :
      (n : ℕ) (clock : ℕ → ℤ) (from : String) (i : ℕ) (vs : List J.Value)
      → Keeps (Below n) (track_groups {W = W} clock from i vs) (AtMost (length vs))
  unfolding track_groups
  track_groups-length n clock from i [] = Keeps-pure [] (omega arith)
  track_groups-length n clock from i (v ∷ vs) =
      Keeps-bind (track_group (clock i) from (J.as_str v)) _
        (track_group-length n (clock i) from (J.as_str v))
        (λ first f.
          Keeps-bind (track_groups clock from (suc i) vs) _
            (track_groups-length n clock from (suc i) vs)
            (λ rest r. Keeps-pure (first ++ rest) (omega (arith, length-append first rest, f, r))))

  introduce_all-Adds :
      (due : List (String × List String)) (n : ℕ)
      → length due ≤ n
      → Adds (introduce_all {W = W} due) n Any
  unfolding introduce_all
  introduce_all-Adds [] n h = Adds-pure tt n tt
  introduce_all-Adds ((gid, peers) ∷ rest) n h =
      Adds-bind (log_slice info gid) _ 0 n n (omega arith) (Adds-log_slice info gid) (λ _ _.
        Adds-bind (emit (introduce gid peers)) _ 1 (length rest) n (omega arith)
          (Adds-emit gid peers) (λ _ _. introduce_all-Adds rest (length rest) (omega arith)))

  exchange_groups-Adds :
      (clock : ℕ → ℤ) (from : String) (groups : Option (List J.Value))
      → Adds (exchange_groups {W = W} clock from groups) (count groups) Any
  unfolding exchange_groups
  exchange_groups-Adds clock from none = Adds-pure tt 0 tt
  exchange_groups-Adds clock from (some vs) =
      let n = length vs in
      Adds-bind (log_slice info from) _ 0 n n (omega arith) (Adds-log_slice info from) (λ _ _.
        Adds-bind (track_groups clock from 0 vs) _ 0 n n (omega arith)
          (Adds-Keeps (track_groups clock from 0 vs) (λ k. track_groups-length k clock from 0 vs))
          (λ due h. introduce_all-Adds due n h))

  exchange-Adds :
      (clock : ℕ → ℤ) (from : Option String) (json : J.Value)
      → Adds (exchange {W = W} clock from json) (count (get_array J json "local_groups")) Any
  unfolding exchange
  exchange-Adds clock none json = Adds-pure tt _ tt
  exchange-Adds clock (some from) json =
      let n = count (get_array J json "local_groups") in
      Adds-bind (log_slice info from) _ 0 n n (omega arith) (Adds-log_slice info from)
        (λ _ _. exchange_groups-Adds clock from (get_array J json "local_groups"))

  on_typed-Adds :
      (clock : ℕ → ℤ) (msg_type : Option String) (json : J.Value)
      → Adds (on_typed {W = W} clock msg_type json) (typed_groups J msg_type json) Any
  unfolding on_typed
  on_typed-Adds clock none json = Adds-pure tt 0 tt
  on_typed-Adds clock (some msg_type) json = elim (Bool-cases (msg_type == "groups_exchange")) [
    | inl e ↦ rw e (exchange-Adds clock (get_str J json "node_id") json)
    | inr e ↦ rw e (Adds-pure tt 0 tt)
  ]

  on_parsed-Adds :
      (clock : ℕ → ℤ) (json : Option J.Value)
      → Adds (on_parsed {W = W} clock json) (parsed_groups J json) Any
  unfolding on_parsed
  on_parsed-Adds clock none = Adds-pure tt 0 tt
  on_parsed-Adds clock (some json) = on_typed-Adds clock (get_str J json "msg_type") json

  -- A message is answered with at most one introduction for each group that it names, and with none unless it
  -- is a `groups_exchange`.
  pub on_message-introductions :
      (clock : ℕ → ℤ) (content : Bytes) (s : State W)
      → introductions (on_message clock content s).1 ≤ introductions s + groups_of J content
  unfolding on_message
  on_message-introductions clock content s = ((on_parsed-Adds clock (J.from_slice content)).at s).0
