-- ===== src/Discovery/Rules.antt =====
-- Invariants of the task's actions, one rule for each way to build an action. What is written before
-- a panic stays written, so an invariant is kept by that exit too.
use xaeroflux.Prelude.{
  Bool-cases, inl, inr, Bool, true, false, String, Option, none, some, if◌then◌else◌,
}
use xaeroflux.Discovery.Actions.{
  World, State, Exit, ok, panic, Task, pure, read, Level, log_slice, log_id, ◌>>=◌, short_slice,
  sliced,
}

-- What holds of the value of an action that goes on.
abbrev pub Returned : {A : Type 0} → (A → Type 0) → Exit A → Type 0
Returned Q (ok a) = Q a
Returned Q panic = Unit

abbrev pub Any : {A : Type 0} → A → Type 0
Any a = Unit

module _ {W : World} where
  -- The action keeps `I`, and a value that it returns has `Q`.
  pub record Keeps {A : Type 0} (I : State W → Type 0) (m : Task W A) (Q : A → Type 0)
      : Type 0 where
    pub at : (s : State W) → I s → I (m s).1 × Returned Q (m s).0

  module _ {A : Type 0} {I : State W → Type 0} {Q : A → Type 0} where
    pub Keeps-pure : (a : A) → Q a → Keeps I (pure a) Q
    unfolding pure
    Keeps-pure a q = record { at = λ s h. (h, q) }

    pub Keeps-if :
        (b : Bool) (m n : Task W A) → Keeps I m Q → Keeps I n Q → Keeps I (if b then m else n) Q
    Keeps-if true m n km kn = km
    Keeps-if false m n km kn = kn

  module _ {A B : Type 0} {I : State W → Type 0} {Q : A → Type 0} {R : B → Type 0} where
    pub Keeps_continue :
        (f : A → Task W B) (r : Exit A) (s : State W)
        → I s
        → Returned Q r
        → ((a : A) → Q a → Keeps I (f a) R)
        → I (((λ (t : State W). (r, t)) >>= f) s).1
          × Returned R (((λ (t : State W). (r, t)) >>= f) s).0
    unfolding ◌>>=◌
    Keeps_continue f (ok a) s h q kf = (kf a q).at s h
    Keeps_continue f panic s h q kf = (h, tt)

    pub Keeps-bind :
        (m : Task W A) (f : A → Task W B)
        → Keeps I m Q
        → ((a : A) → Q a → Keeps I (f a) R)
        → Keeps I (m >>= f) R
    unfolding ◌>>=◌
    Keeps-bind m f km kf = record {
      at = λ s h. let (r, t) = m s in Keeps_continue f r t (km.at s h).0 (km.at s h).1 kf;
    }

  module _ {A : Type 0} {I : State W → Type 0} where
    pub Keeps-read : (f : State W → A) → Keeps I (read f) Any
    unfolding read
    Keeps-read f = record { at = λ s h. (h, tt) }

  sliced_keeps :
      (I : State W → Type 0) (o : Option String) (s : State W)
      → I s
      → I (sliced o s).1 × Returned Any (sliced o s).0
  sliced_keeps I none s h = (h, tt)
  sliced_keeps I (some t) s h = (h, tt)

  module _ {I : State W → Type 0} where
    pub Keeps-log_slice :
        (level : Level) (text : String) → Keeps I (log_slice {W = W} level text) Any
    unfolding log_slice
    Keeps-log_slice level text = record {
      at = λ s h. elim (Bool-cases (W.is_on level)) [
        | inl e ↦ rw e (sliced_keeps I (short_slice text) s h)
        | inr e ↦ rw e (h, tt)
      ];
    }

    pub Keeps-log_id : (level : Level) (text : String) → Keeps I (log_id {W = W} level text) Any
    unfolding log_id
    Keeps-log_id level text = record {
      at = λ s h. elim (Bool-cases (W.is_on level)) [
        | inl e ↦ rw e (sliced_keeps I _ s h)
        | inr e ↦ rw e (h, tt)
      ];
    }

pub Returned-Any : {A : Type 0} (r : Exit A) → Returned Any r
Returned-Any (ok a) = tt
Returned-Any panic = tt
