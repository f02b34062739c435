-- ===== src/Tests/Disk.antt =====
-- A small machine: a disk of named files and one database, keys that are numbers, and an endpoint that
-- always works.
use Prim.Native.String.{◌++◌ as ◌<>◌}
use xaeroflux.Prelude.{
  ℕ, String, ◌≡◌, refl, sym, ◌∙◌, Bool, true, false, Option, none, some, [], ◌∷◌, string_dec,
}
use mathlib.Core.Logic.{if_pos}
use mathlib.Core.Option.{some-injective}
use xaeroflux.Prelude.Dict.{Dict, lookup, insert, lookup-insert}
use xaeroflux.Event.{decimal}
use xaeroflux.Sqlite.{Tables}
use xaeroflux.Sqlite.Memory.{reliable}
use xaeroflux.Network.{Bytes}
use xaeroflux.Startup.Files.{Files, IsDurable, NeverDenies}
use xaeroflux.Startup.Identity.{Secrets, IsFaithful}
use xaeroflux.Startup.Start.{Host}
use xaeroflux.Startup.Started.{Stores}
use xaeroflux.Startup.Succeeds.{AllWork}

pub record Disk : Type 0 where
  pub files : Dict Bytes
  pub database : Tables

abbrev is_there : Option Bytes → Bool
is_there none = false
is_there (some bytes) = true

abbrev pub disk : Files
disk = record {
  World = Disk;
  exists = λ p w. is_there (lookup p w.files);
  read = λ p w. lookup p w.files;
  write = λ p bytes w. (true, record w { files = insert p bytes w.files });
  create_dir_all = λ p w. (true, w);
  parent = λ p. some "data";
  join = λ p q. p <> ("/" <> q);
}

lookup-write :
    (p : String) (bytes : Bytes) (d : Dict Bytes) → lookup p (insert p bytes d) ≡ some bytes
lookup-write p bytes d =
    lookup-insert p p bytes d ∙ rw (if_pos (string_dec p p) refl true false) refl

pub disk-IsDurable : IsDurable disk
disk-IsDurable = record {
  exists-write = λ p bytes w _. rw (lookup-write p bytes w.files) refl;
  read-write = λ p bytes w _. lookup-write p bytes w.files;
}

pub disk-NeverDenies : NeverDenies disk
disk-NeverDenies = record { creates = λ p w. refl; writes = λ p bytes w. refl }

abbrev zeros : Bytes
zeros =
    0 ∷ 0 ∷ 0 ∷ 0 ∷ 0 ∷ 0 ∷ 0 ∷ 0 ∷ 0 ∷ 0 ∷ 0 ∷ 0 ∷ 0 ∷ 0 ∷ 0 ∷ 0 ∷ 0 ∷ 0 ∷ 0 ∷ 0 ∷ 0 ∷ 0 ∷ 0 ∷ 0
    ∷ 0 ∷ 0 ∷ 0 ∷ 0 ∷ 0 ∷ 0 ∷ 0 ∷ []

abbrev head_of : Bytes → ℕ
head_of [] = 0
head_of (b ∷ bytes) = b

abbrev pub secrets : Secrets disk
secrets = record {
  SecretKey = ℕ;
  fill = λ w. (some (7 ∷ []), w);
  generate = head_of;
  to_bytes = λ k. k ∷ zeros;
  from_bytes = head_of;
}

pub secrets-IsFaithful : IsFaithful secrets
secrets-IsFaithful = record { length-to_bytes = λ k. refl; from_bytes-to_bytes = λ k. refl }

abbrev pub host : Host reliable disk secrets
host = record {
  StaticProvider = Unit {0};
  RelayUrl = String;
  PublicKey = String;
  Topic = String;
  Endpoint = Unit {0};
  parse_url = λ s. none;
  parse_key = λ s. none;
  show_public = decimal;
  hash = λ s. s;
  open_db = λ p w. (some w.database, w);
  bind = λ b w. (some tt, w);
  subscribe = λ e t peers w. (true, w);
}

abbrev pub host_Stores : Stores host
host_Stores = record {
  stored = λ p w. w.database;
  tables-open_db = λ p w c h. sym (some-injective _ _ h);
  stored-fill = λ p w. refl;
  stored-create_dir_all = λ p q w. refl;
  stored-write = λ p q bytes w _. refl;
}

pub host-AllWork : AllWork reliable disk secrets host
host-AllWork = record {
  fills = λ w h. cc;
  files = disk-NeverDenies;
  opens = λ p w h. cc;
  binds = λ b w h. cc;
  subscribes = λ e t peers w. refl;
}
