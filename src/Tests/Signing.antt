-- ===== src/Tests/Signing.antt =====
-- A config that is signed and verified (Rendezvous.antt), with one key.
use xaeroflux.Prelude.{
  String, ◌≡◌, refl, Bool, true, false, Option, none, some, [], ◌∷◌, if◌then◌else◌, ◌==◌, not,
  string_dec,
}
use xaeroflux.Network.{Bytes}
use xaeroflux.Rendezvous.{
  RendezvousConfig, SignedRendezvousConfig, Keys, IsSound, ok, failed, sign_config, verify_config,
  verify_config-sign_config,
}

-- A signature is whether the bytes are empty, and a key verifies it against the bytes.
abbrev is_empty : Bytes → Bool
is_empty [] = true
is_empty (b ∷ bytes) = false

abbrev same : Bool → Bool → Bool
same true b = b
same false true = false
same false false = true

same_refl : (b : Bool) → same b b ≡ true
same_refl true = refl
same_refl false = refl

abbrev flag_of : Bool → Bytes
flag_of true = 1 ∷ []
flag_of false = []

abbrev bytes_of : Option String → Bytes
bytes_of none = []
bytes_of (some url) = 1 ∷ []

abbrev hex_of : Bool → String
hex_of true = "01"
hex_of false = "00"

abbrev pub keys : Keys
keys = record {
  SecretKey = Unit {0};
  PublicKey = Unit {0};
  Signature = Bool;
  sign = λ sk bytes. is_empty bytes;
  public = λ sk. tt;
  verify = λ pk bytes s. same (is_empty bytes) s;
  show_key = λ pk. "key";
  parse_key = λ s. some tt;
  show_signature = hex_of;
  decode_hex = λ s. some (flag_of (s == "01"));
  from_bytes = λ bytes. some (not (is_empty bytes));
  to_vec = λ c. some (bytes_of c.relay_url);
}

decode_hex-hex_of : (b : Bool) → keys.decode_hex (hex_of b) ≡ some (flag_of b)
unfolding string_dec
decode_hex-hex_of true = refl
decode_hex-hex_of false = refl

from_bytes-flag_of : (b : Bool) → keys.from_bytes (flag_of b) ≡ some b
from_bytes-flag_of true = refl
from_bytes-flag_of false = refl

pub keys-IsSound : IsSound keys
keys-IsSound = record {
  verify-sign = λ sk bytes. same_refl (is_empty bytes);
  parse_key-show_key = λ pk. refl;
  decoded = flag_of;
  decode_hex-show_signature = decode_hex-hex_of;
  from_bytes-decoded = from_bytes-flag_of;
}

abbrev config_with : Option String → RendezvousConfig
config_with url = record {
  env = "dev";
  discovery_key = "cyan-dev";
  bootstrap = record { node_id = "key"; addr = [] };
  relay_url = url;
  ts = 5;
}

-- The changed config does not verify.
verify_config-sign_config_example :
    (signed : SignedRendezvousConfig) × (sign_config keys (config_with none) tt ≡ some signed)
    × (signed.config ≡ config_with none)
    × (signed.signer ≡ "key")
    × (verify_config keys signed ≡ ok)
    × (verify_config keys (record signed { config = config_with (some "u") })
        ≡ (if false then ok else failed))
verify_config-sign_config_example =
    verify_config-sign_config keys keys-IsSound (config_with none) (config_with (some "u")) tt []
      (1 ∷ []) refl refl
