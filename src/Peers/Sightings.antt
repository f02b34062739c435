-- ===== src/Peers/Sightings.antt =====
-- Which pairs of group and peer have a row of `group_peers`, and which are online with a last sighting that
-- passes a test, after each statement.
use xaeroflux.Prelude.{
  String, ◌≡◌, refl, Bool, true, false, ◌&&◌, List, [], ◌∷◌, arith, ◌==◌, if◌then◌else◌,
}
use xaeroflux.Prelude.Int.{ℤ, ltb_ℤ}
use xaeroflux.Sqlite.{PeerRow}
use xaeroflux.Peers.Statements.{is_row, any_row, update_rows}
use xaeroflux.Peers.Rows.{online}

-- The pair has a row.
abbrev pub known : List PeerRow → String → String → Bool
known rows g p = any_row (is_row g p) rows

-- The peer is online in the group, and was last seen at a time that passes the test.
abbrev pub seen : List PeerRow → (ℤ → Bool) → String → String → Bool
seen rows test g p = any_row (λ r. is_row g p r && (r.is_online && test r.last_seen)) rows

-- Any time will do.
abbrev pub any_time : ℤ → Bool
any_time t = true

-- No earlier than the cutoff, and by the test.
abbrev pub since : ℤ → (ℤ → Bool) → ℤ → Bool
since cutoff test t = if ltb_ℤ t cutoff then false else test t

pub seen-any_time : (rows : List PeerRow) (g p : String) → seen rows any_time g p ≡ online rows g p
seen-any_time [] g p = refl
seen-any_time (r ∷ rows) g p = ground (arith, seen-any_time rows g p)

pub seen-unknown :
    (rows : List PeerRow) (test : ℤ → Bool) (g p : String)
    → known rows g p ≡ false
    → seen rows test g p ≡ false
seen-unknown [] test g p h = refl
seen-unknown (r ∷ rows) test g p h = ground (arith, seen-unknown rows test g p)

-- A change of rows that keeps their keys.
pub known-update :
    (test : PeerRow → Bool) (change : PeerRow → PeerRow) (rows : List PeerRow) (h q : String)
    → ((r : PeerRow) → is_row h q (change r) ≡ is_row h q r)
    → known (update_rows test change rows) h q ≡ known rows h q
known-update test change [] h q keeps = refl
known-update test change (r ∷ rows) h q keeps =
    ground (arith, keeps r, known-update test change rows h q keeps)

pub seen-seen_again :
    (now : ℤ) (g p : String) (rows : List PeerRow) (test : ℤ → Bool) (h q : String)
    → seen
        (update_rows (is_row g p) (λ r. record r { last_seen = now; is_online = true }) rows)
        test
        h
        q
      ≡ (if g == h && p == q then known rows g p && test now else seen rows test h q)
seen-seen_again now g p [] test h q = ground arith
seen-seen_again now g p (r ∷ rows) test h q = ground (arith, seen-seen_again now g p rows test h q)

pub seen-offline :
    (now : ℤ) (p : String) (rows : List PeerRow) (test : ℤ → Bool) (h q : String)
    → seen
        (update_rows
          (λ r. r.peer_id == p)
          (λ r. record r { is_online = false; last_seen = now })
          rows)
        test
        h
        q
      ≡ (if p == q then false else seen rows test h q)
seen-offline now p [] test h q = ground arith
seen-offline now p (r ∷ rows) test h q = ground (arith, seen-offline now p rows test h q)

pub seen-stale :
    (cutoff : ℤ) (rows : List PeerRow) (test : ℤ → Bool) (h q : String)
    → seen
        (update_rows
          (λ r. ltb_ℤ r.last_seen cutoff && r.is_online)
          (λ r. record r { is_online = false })
          rows)
        test
        h
        q
      ≡ seen rows (since cutoff test) h q
seen-stale cutoff [] test h q = refl
seen-stale cutoff (r ∷ rows) test h q = ground (arith, seen-stale cutoff rows test h q)
