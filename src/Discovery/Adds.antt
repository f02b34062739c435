-- ===== src/Discovery/Adds.antt =====
-- How many introductions an action of the discovery task adds to its effects, one rule for each way to build an
-- action.
use xaeroflux.Prelude.{
  ℕ, ◌+◌, ◌≤◌, ◌≡◌, refl, Bool-cases, inl, inr, String, Option, List, [], ◌∷◌, ◌++◌, arith, length,
  length-append,
}
use xaeroflux.Discovery.Actions.{
  World, Effect, Exit, ok, panic, announce, introduce, subscribed, subscribe_failed, join_peers,
  State, Task, pure, emit, Level, log_slice, with_tracker, subscribe, join, ◌>>=◌,
}
use xaeroflux.Discovery.Rules.{Returned, Any, Keeps, Keeps-log_slice}
use xaeroflux.Discovery.Closed.{IsGroupClosed}
use xaeroflux.Discovery.{}

module _ {W : World} where
  open W use {S, J, PublicKey, parse_key, try_subscribe}

  -- The introductions among the effects, in order.
  abbrev pub introduced : List (Effect W) → List (String × List String)
  introduced [] = []
  introduced (announce ∷ es) = introduced es
  introduced (introduce g ps ∷ es) = (g, ps) ∷ introduced es
  introduced (subscribed g p ∷ es) = introduced es
  introduced (subscribe_failed g p ∷ es) = introduced es
  introduced (join_peers g p ∷ es) = introduced es

  -- How many there are so far.
  abbrev pub introductions : State W → ℕ
  introductions s = length (introduced s.effects)

  introduced-append :
      (xs ys : List (Effect W)) → introduced (xs ++ ys) ≡ introduced xs ++ introduced ys
  introduced-append [] ys = refl
  introduced-append (announce ∷ xs) ys = introduced-append xs ys
  introduced-append (introduce g ps ∷ xs) ys = rw (introduced-append xs ys)
  introduced-append (subscribed g p ∷ xs) ys = introduced-append xs ys
  introduced-append (subscribe_failed g p ∷ xs) ys = introduced-append xs ys
  introduced-append (join_peers g p ∷ xs) ys = introduced-append xs ys

  length-introduced :
      (xs : List (Effect W)) (e : Effect W)
      → length (introduced (xs ++ e ∷ [])) ≡ length (introduced xs) + length (introduced (e ∷ []))
  length-introduced xs e =
      rw (introduced-append xs (e ∷ [])) (length-append (introduced xs) (introduced (e ∷ [])))

  abbrev pub Below : ℕ → State W → Type 0
  Below n s = introductions s ≤ n

  subscribe-Below :
      (n : ℕ) (gid : String) (peer : Option PublicKey) (s : State W)
      → Below n s
      → Below n (subscribe gid peer s).1
  unfolding subscribe
  subscribe-Below n gid peer s h = elim (Bool-cases (try_subscribe gid peer s.network).0) [
    | inl e ↦ rw e (omega (arith, length-introduced s.effects (subscribed gid peer)))
    | inr e ↦ rw e (omega (arith, length-introduced s.effects (subscribe_failed gid peer)))
  ]

  -- The actions on one group introduce nobody.
  pub Below-IsGroupClosed : (n : ℕ) → IsGroupClosed (Below n)
  unfolding join with_tracker
  Below-IsGroupClosed n = record {
    joins = λ gid pk. record {
      at = λ s h. (omega (arith, length-introduced s.effects (join_peers gid pk)), tt);
    };
    subscribes = λ gid peer s fresh h. subscribe-Below n gid peer s h;
    upserts = λ now gid p. record { at = λ s h. (h, tt) };
  }

  -- The action adds at most so many introductions, and a value that it returns has `Q`.
  pub record Adds {A : Type 0} (m : Task W A) (k : ℕ) (Q : A → Type 0) : Type 0 where
    pub at : (s : State W) → (introductions (m s).1 ≤ introductions s + k) × Returned Q (m s).0

  pub Adds-Keeps :
      {A : Type 0} {Q : A → Type 0} (m : Task W A) → ((n : ℕ) → Keeps (Below n) m Q) → Adds m 0 Q
  Adds-Keeps m h = record {
    at = λ s.
        let (below, returned) = (h (introductions s)).at s (omega arith) in
        (omega (arith, below), returned);
  }

  Adds_continue :
      {A B : Type 0} {Q : A → Type 0} {R : B → Type 0} (f : A → Task W B) (j k n : ℕ) (r : Exit A)
      (t s : State W)
      → j + k ≤ n
      → introductions t ≤ introductions s + j
      → Returned Q r
      → ((a : A) → Q a → Adds (f a) k R)
      → (introductions (((λ (u : State W). (r, u)) >>= f) t).1 ≤ introductions s + n)
        × Returned R (((λ (u : State W). (r, u)) >>= f) t).0
  unfolding ◌>>=◌
  Adds_continue f j k n (ok a) t s le h q af =
      (omega (arith, h, ((af a q).at t).0), ((af a q).at t).1)
  Adds_continue f j k n panic t s le h q af = (omega (arith, h), tt)

  pub Adds-bind :
      {A B : Type 0} {Q : A → Type 0} {R : B → Type 0} (m : Task W A) (f : A → Task W B) (j k n : ℕ)
      → j + k ≤ n
      → Adds m j Q
      → ((a : A) → Q a → Adds (f a) k R)
      → Adds (m >>= f) n R
  unfolding ◌>>=◌
  Adds-bind m f j k n le am af = record {
    at = λ s. let (r, t) = m s in Adds_continue f j k n r t s le (am.at s).0 (am.at s).1 af;
  }

  pub Adds-pure : {A : Type 0} {Q : A → Type 0} (a : A) (k : ℕ) → Q a → Adds (pure a) k Q
  unfolding pure
  Adds-pure a k q = record { at = λ s. (omega arith, q) }

  pub Adds-log_slice : (level : Level) (text : String) → Adds (log_slice {W = W} level text) 0 Any
  Adds-log_slice level text = Adds-Keeps (log_slice level text) (λ n. Keeps-log_slice level text)

  pub Adds-emit :
      (gid : String) (peers : List String) → Adds (emit {W = W} (introduce gid peers)) 1 Any
  unfolding emit
  Adds-emit gid peers = record {
    at = λ s. (omega (arith, length-introduced s.effects (introduce gid peers)), tt);
  }
