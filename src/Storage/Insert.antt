-- ===== src/Storage/Insert.antt =====
-- What an INSERT OR IGNORE through a connection does to the `events` table.
use xaeroflux.Prelude.{
  true, if◌then◌else◌, ◌≡◌, refl, false, Option, none, some, List, [], ◌∷◌, ◌++◌, arith, contains,
  contains-append,
}
use mathlib.Core.List.{append-nil}
use xaeroflux.Event.{Event, ids}
use xaeroflux.Sqlite.{Sqlite, NeverFails}
use xaeroflux.Storage.{insert_event, store_event}
use xaeroflux.Node.{sent}

pub ids-append : (xs ys : List Event) → ids (xs ++ ys) ≡ ids xs ++ ids ys
ids-append [] ys = refl
ids-append (x ∷ xs) ys = rw (ids-append xs ys)

pub contains-ids-append : (es : List Event) (e : Event) → contains (ids (es ++ e ∷ [])) e.id ≡ true
contains-ids-append es e =
    ground (arith, ids-append es (e ∷ []), contains-append (ids es) (e.id ∷ []) e.id)

module _ (S : Sqlite) where
  -- The rows of the events table.
  abbrev pub events : S.Connection → List Event
  events c = (S.tables c).events

  -- What one insert leaves behind: `o` is the event that the actor passes on.
  pub record Inserts (e : Event) (c : S.Connection) (o : Option Event) (c' : S.Connection)
      : Type 0 where
    pub rows : events c' ≡ events c ++ sent o
    pub only : (x : Event) → o ≡ some x → x ≡ e
    pub fresh : (x : Event) → o ≡ some x → contains (ids (events c)) e.id ≡ false

  pub store_event-Inserts :
      (e : Event) (c : S.Connection) → Inserts e c (store_event S e c).0 (store_event S e c).1
  unfolding store_event insert_event
  store_event-Inserts e c = record {
    rows = ground (arith, S.execute_lem (insert_event e) c, append-nil (events c));
    only = λ x h. ground (arith, S.execute_lem (insert_event e) c);
    fresh = λ x h. ground (arith, S.execute_lem (insert_event e) c);
  }

  -- As long as the statement runs, the id of the event is in the table afterwards, and the event is
  -- passed on just if it was not there before.
  pub store_event-stored :
      (e : Event) (c : S.Connection)
      → NeverFails S
      → (contains (ids (events (store_event S e c).1)) e.id ≡ true)
        × ((store_event S e c).0 ≡ (if contains (ids (events c)) e.id then none else some e))
  unfolding store_event insert_event
  store_event-stored e c ok = ground (
    arith,
    S.execute_lem (insert_event e) c,
    ok.runs (insert_event e) c,
    contains-ids-append (events c) e,
  )
