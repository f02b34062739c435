-- ===== src/Startup/Boot.antt =====
-- Steps that may fail, over a world that they change: `Result` and the `?` of src/lib.rs.
use mathlib.Core.Path.{subst}
use xaeroflux.Prelude.{◌≡◌, refl}

-- Why a node does not start, by the call that failed.
pub data StartError : Type 0 where
  unreadable_key invalid_key no_seed no_directory key_not_written : StartError
  no_database no_schema not_bound no_events_topic no_discovery_topic no_peers : StartError

pub data Result (A : Type 0) : Type 0 where
  ok : A → Result A
  err : StartError → Result A

abbrev pub Boot : Type 0 → Type 0 → Type 0
Boot World A = World → Result A × World

module _ {World A : Type 0} where
  abbrev pub pure : A → Boot World A
  pure a w = (ok a, w)

  -- From the world `w`, if the steps succeed, `Q` holds of what they return and of the world after them.
  abbrev pub Gives : Boot World A → World → (A → World → Type 0) → Type 0
  Gives m w Q = (a : A) (w' : World) → m w ≡ (ok a, w') → Q a w'

  -- What holds of an outcome, if it is a success.
  abbrev Holds : (A → World → Type 0) → Result A × World → Type 0
  Holds Q (ok a, w) = Q a w
  Holds Q (err e, w) = Unit

  pub Gives-pure : (Q : A → World → Type 0) (a : A) (w : World) → Q a w → Gives (pure a) w Q
  Gives-pure Q a w q b w' h = subst (Holds Q) h q

module _ {World A B : Type 0} where
  abbrev pub continue : Result A → (A → Boot World B) → World → Result B × World
  continue (ok a) f w = f a w
  continue (err e) f w = (err e, w)

  infixl 10 ◌>>=◌
  unfoldable pub ◌>>=◌ : Boot World A → (A → Boot World B) → Boot World B
  (m >>= f) w = let (r, w') = m w in continue r f w'

  -- A chain that succeeds has succeeded at each step.
  pub Gives-bind :
      (m : Boot World A) (f : A → Boot World B) (Q : A → World → Type 0) (P : B → World → Type 0)
      (w : World)
      → Gives m w Q
      → ((a : A) (w' : World) → Q a w' → Gives (f a) w' P)
      → Gives (m >>= f) w P
  unfolding ◌>>=◌
  Gives-bind m f Q P w first rest b w'' h = go (m w).0 (m w).1 refl h
    where
      go : (r : Result A) (v : World) → m w ≡ (r, v) → continue r f v ≡ (ok b, w'') → P b w''
      go (ok a) v p k = rest a v (first a v p) b w'' k
      go (err e) v p k = cc
