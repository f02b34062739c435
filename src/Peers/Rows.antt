-- ===== src/Peers/Rows.antt =====
-- Who is online by the rows of `group_peers`, and how each statement changes it.
use xaeroflux.Prelude.{
  String, ◌≡◌, refl, Bool, true, false, ◌&&◌, ◌||◌, List, [], ◌∷◌, ◌++◌, arith, contains, ◌==◌,
  if◌then◌else◌,
}
use xaeroflux.Prelude.Int.{ℤ, ltb_ℤ}
use xaeroflux.Sqlite.{PeerRow}
use xaeroflux.Peers.Statements.{is_row, any_row, update_rows, online_pairs, online_groups}

-- The table says that the peer is online in the group.
abbrev pub online : List PeerRow → String → String → Bool
online rows g p = any_row (λ r. is_row g p r && r.is_online) rows

abbrev pub has_pair : List (String × String) → String → String → Bool
has_pair [] g p = false
has_pair ((h, q) ∷ pairs) g p = (h == g && q == p) || has_pair pairs g p

pub any_row-append :
    (test : PeerRow → Bool) (xs ys : List PeerRow)
    → any_row test (xs ++ ys) ≡ (any_row test xs || any_row test ys)
any_row-append test [] ys = refl
any_row-append test (x ∷ xs) ys = ground (arith, any_row-append test xs ys)

pub online-known :
    (rows : List PeerRow) (g p : String) → online rows g p ≡ true → any_row (is_row g p) rows ≡ true
online-known [] g p h = h
online-known (r ∷ rows) g p h = ground (arith, online-known rows g p)

pub online-seen :
    (now : ℤ) (g p : String) (rows : List PeerRow) (h q : String)
    → online
        (update_rows (is_row g p) (λ r. record r { last_seen = now; is_online = true }) rows)
        h
        q
      ≡ (if g == h && p == q then any_row (is_row g p) rows else online rows h q)
online-seen now g p [] h q = ground arith
online-seen now g p (r ∷ rows) h q = ground (arith, online-seen now g p rows h q)

pub online-offline :
    (now : ℤ) (p : String) (rows : List PeerRow) (h q : String)
    → online
        (update_rows
          (λ r. r.peer_id == p)
          (λ r. record r { is_online = false; last_seen = now })
          rows)
        h
        q
      ≡ (if p == q then false else online rows h q)
online-offline now p [] h q = ground arith
online-offline now p (r ∷ rows) h q = ground (arith, online-offline now p rows h q)

-- The row is online and was seen no earlier than the cutoff.
abbrev pub is_recent : ℤ → PeerRow → Bool
is_recent cutoff r = if ltb_ℤ r.last_seen cutoff then false else r.is_online

pub online-stale :
    (cutoff : ℤ) (rows : List PeerRow) (h q : String)
    → online
        (update_rows
          (λ r. ltb_ℤ r.last_seen cutoff && r.is_online)
          (λ r. record r { is_online = false })
          rows)
        h
        q
      ≡ any_row (λ r. is_row h q r && is_recent cutoff r) rows
online-stale cutoff [] h q = refl
online-stale cutoff (r ∷ rows) h q = ground (arith, online-stale cutoff rows h q)

pub has_pair-online_pairs :
    (rows : List PeerRow) (g p : String) → has_pair (online_pairs rows) g p ≡ online rows g p
unfolding online_pairs
has_pair-online_pairs [] g p = refl
has_pair-online_pairs (r ∷ rows) g p = ground (arith, has_pair-online_pairs rows g p)

pub contains-online_groups :
    (p : String) (rows : List PeerRow) (g : String)
    → contains (online_groups p rows) g ≡ online rows g p
unfolding online_groups
contains-online_groups p [] g = refl
contains-online_groups p (r ∷ rows) g = ground (arith, contains-online_groups p rows g)
