-- ===== src/Swarm/Fetch.antt =====
-- `BlobSwarm::fetch` of src/swarm.rs.
use mathlib.Core.Logic.{ite}
use xaeroflux.Prelude.{String, Bool, true, false, Option, none, some, List, [], ◌∷◌}
use xaeroflux.Network.{Bytes}
use xaeroflux.Swarm.Blobs.{Blobs, Dial, connected, refused, timed_out}

module _ (B : Blobs) where
  open B use {
    World, Hash, hash_dec, hash_of, PublicKey, parse_key, Connection, has, get_bytes, connect,
    remote_fetch,
  }

  -- The errors, by the step that failed.
  pub data FetchError : Type 0 where
    no_holders : FetchError
    bad_holder : String → FetchError
    store_failed : FetchError
    dial_failed dial_timed_out transfer_failed : PublicKey → FetchError
    none_could_serve : FetchError
    integrity : Hash → FetchError

  pub data Fetched {ℓ} (A : Type ℓ) : Type ℓ where
    ok : A → Fetched A
    err : FetchError → Fetched A

  abbrev pub add_provider : Fetched (List PublicKey) → PublicKey → Fetched (List PublicKey)
  add_provider (ok ps) p = ok (p ∷ ps)
  add_provider (err e) p = err e

  abbrev pub with_provider :
      String → Option PublicKey → Fetched (List PublicKey) → Fetched (List PublicKey)
  with_provider id none rest = err (bad_holder id)
  with_provider id (some p) rest = add_provider rest p

  -- The holders' ids, parsed: the first that is none is the error.
  unfoldable pub parse_holders : List String → Fetched (List PublicKey)
  parse_holders [] = ok []
  parse_holders (id ∷ ids) = let rest = parse_holders ids in with_provider id (parse_key id) rest

  -- The outcome of a download: the error to report if no holder is left.
  abbrev after_transfer : Bool → PublicKey → Option FetchError → Option FetchError
  after_transfer true p last_err = last_err
  after_transfer false p last_err = some (transfer_failed p)

  -- One holder: a dial, and a download if the dial succeeds.
  abbrev pub try_dialled :
      Hash → PublicKey → Dial Connection → Option FetchError → World → Option FetchError × World
  try_dialled h p (connected c) last_err w =
      let (good, w') = remote_fetch c h w in (after_transfer good p last_err, w')
  try_dialled h p refused last_err w = (some (dial_failed p), w)
  try_dialled h p timed_out last_err w = (some (dial_timed_out p), w)

  unfoldable pub try_provider :
      Hash → PublicKey → Option FetchError → World → Option FetchError × World
  try_provider h p last_err w = let (d, w') = connect p w in try_dialled h p d last_err w'

  -- The test before a dial: the loop ends with an error, or early once the blob is there, or goes on.
  abbrev pub unless_held :
      Option Bool
      → Option FetchError
      → World
      → Fetched (Option FetchError) × World
      → Fetched (Option FetchError) × World
  unless_held none last_err w rest = (err store_failed, w)
  unless_held (some true) last_err w rest = (ok last_err, w)
  unless_held (some false) last_err w rest = rest

  -- The loop over the holders.
  unfoldable pub try_providers :
      Hash → List PublicKey → Option FetchError → World → Fetched (Option FetchError) × World
  try_providers h [] last_err w = (ok last_err, w)
  try_providers h (p ∷ ps) last_err w =
      let (held, w') = has h w in
      let (e, w'') = try_provider h p last_err w' in
      let rest = try_providers h ps e w'' in unless_held held last_err w' rest

  -- The integrity gate.
  abbrev pub surface : Hash → Option Bytes → World → Fetched Bytes × World
  surface h none w = (err store_failed, w)
  surface h (some bytes) w =
      (ite (hash_dec (hash_of bytes) h) (ok bytes) (err (integrity (hash_of bytes))), w)

  abbrev pub error_or : Option FetchError → FetchError
  error_or none = none_could_serve
  error_or (some e) = e

  abbrev pub read_blob : Hash → Option Bool → Option FetchError → World → Fetched Bytes × World
  read_blob h none last_err w = (err store_failed, w)
  read_blob h (some false) last_err w = (err (error_or last_err), w)
  read_blob h (some true) last_err w = let (bytes, w') = get_bytes h w in surface h bytes w'

  abbrev pub finish : Hash → Fetched (Option FetchError) → World → Fetched Bytes × World
  finish h (err e) w = (err e, w)
  finish h (ok last_err) w = let (held, w') = has h w in read_blob h held last_err w'

  abbrev pub fetch_parsed : Hash → Fetched (List PublicKey) → World → Fetched Bytes × World
  fetch_parsed h (err e) w = (err e, w)
  fetch_parsed h (ok ps) w = let (r, w') = try_providers h ps none w in finish h r w'

  unfoldable pub fetch : Hash → List String → World → Fetched Bytes × World
  fetch h [] w = (err no_holders, w)
  fetch h (id ∷ ids) w = fetch_parsed h (parse_holders (id ∷ ids)) w
