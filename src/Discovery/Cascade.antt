-- ===== src/Discovery/Cascade.antt =====
-- The discovery tasks of any number of nodes on one topic, and the messages that they cause.
use native.Mathlib.Nat.{add-mul, mul-le-mul_right}
use xaeroflux.Prelude.{
  ℕ, suc, ◌+◌, ◌*◌, ◌≤◌, ◌≡◌, refl, ap, ◌∙◌, String, some, List, [], ◌∷◌, ◌++◌, arith, drop, length,
  length-append, length-drop, map, string_dec,
}
use xaeroflux.Prelude.Int.{ℤ}
use xaeroflux.Prelude.Dict.{Dict, lookup, insert}
use xaeroflux.Json.{Json, get_str, then_str}
use xaeroflux.Network.{Bytes}
use xaeroflux.Discovery.Actions.{World, State}
use xaeroflux.Discovery.{on_message, peer_introduction}
use xaeroflux.Discovery.Adds.{introduced, introductions}
use xaeroflux.Discovery.Introductions.{groups_of, on_message-introductions}

-- serde_json's printing, as far as an object whose text is read again has the texts among its members.
pub record Printing (J : Json) : Type 0 where
  pub to_bytes : J.Value → Bytes
  pub reads :
      (d : Dict J.Value)
      → (v : J.Value) × (J.from_slice (to_bytes (J.object d)) ≡ some v)
        × ((k : String) → get_str J v k ≡ then_str J (lookup k d))
  pub as_str-string : (s : String) → J.as_str (J.string s) ≡ some s

module _ (W : World) (printing : Printing W.J) where
  open W use {J}
  open printing use {to_bytes}

  -- The bytes of an introduction, by `peer_introduction_json`.
  abbrev introduction_bytes : String × List String → Bytes
  introduction_bytes (gid, peers) = to_bytes (peer_introduction J gid peers)

  -- A node: the state of its task, and what it has still to receive.
  pub record Member : Type 0 where
    pub state : State W
    pub inbox : List Bytes

  -- What the task broadcasts on its way from one state to another: the introductions since.
  abbrev pub broadcasts : State W → State W → List Bytes
  broadcasts s t = map introduction_bytes (drop (introductions s) (introduced t.effects))

  -- The others hear it.
  abbrev pub hears : List Bytes → Member → Member
  hears messages m = record m { inbox = m.inbox ++ messages }

  -- A node handles a message that it has still to receive, in any order, or the message is lost on its way to
  -- the node. Every other node has then to receive what the task broadcasts.
  pub data Delivers (net net' : List Member) : Type 0 where
    handles :
        (left right : List Member) (s : State W) (before after : List Bytes) (message : Bytes)
        (clock : ℕ → ℤ)
        → net ≡ left ++ record { state = s; inbox = before ++ message ∷ after } ∷ right
        → net'
          ≡ map (hears (broadcasts s (on_message clock message s).1)) left
            ++ record { state = (on_message clock message s).1; inbox = before ++ after }
              ∷ map (hears (broadcasts s (on_message clock message s).1)) right
        → Delivers net net'
    loses :
        (left right : List Member) (s : State W) (before after : List Bytes) (message : Bytes)
        → net ≡ left ++ record { state = s; inbox = before ++ message ∷ after } ∷ right
        → net' ≡ left ++ record { state = s; inbox = before ++ after } ∷ right
        → Delivers net net'

  -- So many deliveries, one after the other.
  pub data Deliveries (net : List Member) : ℕ → List Member → Type 0 where
    none_yet : Deliveries net 0 net
    more :
        {k : ℕ} {net' net'' : List Member}
        → Deliveries net k net'
        → Delivers net' net''
        → Deliveries net (suc k) net''

  -- A message may be answered with an introduction for each of its groups, to each of `n` nodes.
  abbrev pub weight : ℕ → List Bytes → ℕ
  weight n [] = 0
  weight n (message ∷ inbox) = suc (n * groups_of J message + weight n inbox)

  abbrev pub weights : ℕ → List Member → ℕ
  weights n [] = 0
  weights n (m ∷ net) = weight n m.inbox + weights n net

  weight-append : (n : ℕ) (xs ys : List Bytes) → weight n (xs ++ ys) ≡ weight n xs + weight n ys
  weight-append n [] ys = omega arith
  weight-append n (x ∷ xs) ys = omega (arith, weight-append n xs ys)

  weights-append :
      (n : ℕ) (xs ys : List Member) → weights n (xs ++ ys) ≡ weights n xs + weights n ys
  weights-append n [] ys = omega arith
  weights-append n (x ∷ xs) ys = omega (arith, weights-append n xs ys)

  -- An introduction is answered with nothing.
  groups_of-introduction : (due : String × List String) → groups_of J (introduction_bytes due) ≡ 0
  unfolding peer_introduction lookup insert string_dec
  groups_of-introduction (gid, peers) =
      let members : Dict J.Value =
        insert "peers" (J.array (map J.string peers)) (
          insert "group_id" (J.string gid) (insert "msg_type" (J.string "peer_introduction") [])) in
      let (v, read, texts) = printing.reads members in
      rw (read, texts "msg_type", printing.as_str-string "peer_introduction") refl

  weight-introductions :
      (n : ℕ) (due : List (String × List String))
      → weight n (map introduction_bytes due) ≡ length due
  weight-introductions n [] = refl
  weight-introductions n (d ∷ due) =
      grind (arith, groups_of-introduction d, weight-introductions n due)

  -- What a task answers a message with weighs no more, at one node, than the groups that the message names.
  broadcasts-weight :
      (n : ℕ) (clock : ℕ → ℤ) (message : Bytes) (s : State W)
      → weight n (broadcasts s (on_message clock message s).1) ≤ groups_of J message
  broadcasts-weight n clock message s =
      let t = (on_message clock message s).1 in
      omega (
        arith,
        weight-introductions n (drop (introductions s) (introduced t.effects)),
        length-drop (introductions s) (introduced t.effects),
        on_message-introductions clock message s,
      )

  weights-hears :
      (n k : ℕ) (messages : List Bytes) (net : List Member)
      → weight n messages ≤ k
      → weights n (map (hears messages) net) ≤ weights n net + length net * k
  weights-hears n k messages [] h = omega arith
  weights-hears n k messages (m ∷ net) h =
      grind (arith, weights-hears n k messages net h, weight-append n m.inbox messages)

  length-hears :
      (messages : List Bytes) (net : List Member) → length (map (hears messages) net) ≡ length net
  length-hears messages [] = refl
  length-hears messages (m ∷ net) = ap suc (length-hears messages net)

  -- A delivery leaves the number of nodes as it is.
  Delivers-length : {net net' : List Member} → Delivers net net' → length net' ≡ length net
  Delivers-length (handles left right s before after message clock p q) =
      let answers = broadcasts s (on_message clock message s).1 in
      rw (p, q)
        (omega (
          arith,
          length-append left (record { state = s; inbox = before ++ message ∷ after } ∷ right),
          length-append (map (hears answers) left) (
              record { state = (on_message clock message s).1; inbox = before ++ after }
              ∷ map (hears answers) right),
          length-hears answers left,
          length-hears answers right,
        ))
  Delivers-length (loses left right s before after message p q) =
      rw (p, q)
        (omega (
          arith,
          length-append left (record { state = s; inbox = before ++ message ∷ after } ∷ right),
          length-append left (record { state = s; inbox = before ++ after } ∷ right),
        ))

  shares_le : (a b k n : ℕ) → a + suc b ≤ n → a * k + b * k ≤ n * k
  shares_le a b k n h =
      omega (arith, add-mul a b k, mul-le-mul_right {m = a + b} {n = n} k (omega arith))

  -- What is on its way to a node weighs less without the message that it handles.
  inbox-weight :
      (n : ℕ) (before after : List Bytes) (message : Bytes)
      → weight n (before ++ message ∷ after)
        ≡ suc (n * groups_of J message + weight n (before ++ after))
  inbox-weight n before after message =
      omega (arith, weight-append n before (message ∷ after), weight-append n before after)

  -- Each delivery takes something off the weight of what is on its way.
  Delivers-weights :
      {net net' : List Member} (n : ℕ)
      → length net ≤ n
      → Delivers net net'
      → suc (weights n net') ≤ weights n net
  Delivers-weights {net} n small (handles left right s before after message clock p q) =
      let t = (on_message clock message s).1 in
      let answers = broadcasts s t in
      let here : Member = record { state = s; inbox = before ++ message ∷ after } in
      let k = groups_of J message in
      let light = broadcasts-weight n clock message s in
      let room : length left + suc (length right) ≤ n =
        omega (arith, small, ap length p, length-append left (here ∷ right)) in
      rw (p, q)
        (omega (
          arith,
          weights-append n left (here ∷ right),
          weights-append n (map (hears answers) left)
              (record { state = t; inbox = before ++ after } ∷ map (hears answers) right),
          weights-hears n k answers left light,
          weights-hears n k answers right light,
          inbox-weight n before after message,
          shares_le (length left) (length right) k n room,
        ))
  Delivers-weights n small (loses left right s before after message p q) =
      rw (p, q)
        (omega (
          arith,
          weights-append n left (record { state = s; inbox = before ++ message ∷ after } ∷ right),
          weights-append n left (record { state = s; inbox = before ++ after } ∷ right),
          inbox-weight n before after message,
        ))

  Deliveries-length :
      {net : List Member} {k : ℕ} {net' : List Member}
      → Deliveries net k net'
      → length net' ≡ length net
  Deliveries-length none_yet = refl
  Deliveries-length (more ds d) = Delivers-length d ∙ Deliveries-length ds

  -- The discovery tasks stop answering one another: from any states, and with any messages on their way, no
  -- more deliveries than the weight of these messages are possible, whatever order they come in, if each
  -- broadcast reaches each node once at most. A message weighs one, and one more for each of its groups at
  -- each node if it is a `groups_exchange`.
  pub Deliveries-le-weights :
      {net : List Member} {k : ℕ} {net' : List Member}
      → Deliveries net k net'
      → k + weights (length net) net' ≤ weights (length net) net
  Deliveries-le-weights none_yet = omega arith
  Deliveries-le-weights {net = net} (more ds d) = omega (
    arith,
    Deliveries-le-weights ds,
    Delivers-weights (length net) (omega (arith, Deliveries-length ds)) d,
  )
