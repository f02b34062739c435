-- ===== src/Rendezvous.antt =====
-- src/rendezvous.rs: the signed config by which apps find the bootstrap node. The keys (iroh), hex and
-- serde_json are a parameter.
pub mod Publish
use xaeroflux.Prelude.{
  ℕ, String, ◌≡◌, refl, Bool, true, false, Option, none, some, List, if◌then◌else◌,
}
use xaeroflux.Network.{Bytes}

pub record BootstrapInfo : Type 0 where
  pub node_id : String
  pub addr : List String

-- `ts` is a u64.
pub record RendezvousConfig : Type 0 where
  pub env : String
  pub discovery_key : String
  pub bootstrap : BootstrapInfo
  pub relay_url : Option String
  pub ts : ℕ

pub record SignedRendezvousConfig : Type 0 where
  pub config : RendezvousConfig
  pub signer : String
  pub signature : String

pub record Keys : Type 1 where
  pub SecretKey : Type 0
  pub PublicKey : Type 0
  pub Signature : Type 0
  pub sign : SecretKey → Bytes → Signature
  pub public : SecretKey → PublicKey
  pub verify : PublicKey → Bytes → Signature → Bool
  -- `to_string` and `from_str` of a public key
  pub show_key : PublicKey → String
  pub parse_key : String → Option PublicKey
  -- `hex::encode(to_bytes())`; `hex::decode`, and the array of `Signature::LENGTH` bytes
  pub show_signature : Signature → String
  pub decode_hex : String → Option Bytes
  pub from_bytes : Bytes → Option Signature
  -- `serde_json::to_vec`
  pub to_vec : RendezvousConfig → Option Bytes

-- What is assumed of them: what a key has signed it verifies, and a key and a signature are read back.
pub record IsSound (K : Keys) : Type 0 where
  pub verify-sign :
      (sk : K.SecretKey) (bytes : Bytes) → K.verify (K.public sk) bytes (K.sign sk bytes) ≡ true
  pub parse_key-show_key : (pk : K.PublicKey) → K.parse_key (K.show_key pk) ≡ some pk
  pub decoded : K.Signature → Bytes
  pub decode_hex-show_signature :
      (s : K.Signature) → K.decode_hex (K.show_signature s) ≡ some (decoded s)
  pub from_bytes-decoded : (s : K.Signature) → K.from_bytes (decoded s) ≡ some s

-- The outcome of a verification, by the step that failed.
pub data Verified : Type 0 where
  ok : Verified
  bad_signer bad_hex bad_length not_serialized failed : Verified

module _ (K : Keys) where
  open K use {
    SecretKey, PublicKey, Signature, sign, public, verify, show_key, parse_key, show_signature,
    decode_hex, from_bytes, to_vec,
  }

  abbrev signed_with : RendezvousConfig → SecretKey → Option Bytes → Option SignedRendezvousConfig
  signed_with config sk none = none
  signed_with config sk (some bytes) = some (record {
    config = config;
    signer = show_key (public sk);
    signature = show_signature (sign sk bytes);
  })

  -- `none` is an error of the serializer.
  unfoldable pub sign_config : RendezvousConfig → SecretKey → Option SignedRendezvousConfig
  sign_config config sk = signed_with config sk (to_vec config)

  abbrev checked : Bool → Verified
  checked true = ok
  checked false = failed

  abbrev verify_bytes : PublicKey → Signature → Option Bytes → Verified
  verify_bytes pk s none = not_serialized
  verify_bytes pk s (some bytes) = checked (verify pk bytes s)

  abbrev verify_signature : PublicKey → Option Signature → RendezvousConfig → Verified
  verify_signature pk none config = bad_length
  verify_signature pk (some s) config = verify_bytes pk s (to_vec config)

  abbrev verify_hex : PublicKey → Option Bytes → RendezvousConfig → Verified
  verify_hex pk none config = bad_hex
  verify_hex pk (some sig_bytes) config = verify_signature pk (from_bytes sig_bytes) config

  abbrev verify_by : Option PublicKey → SignedRendezvousConfig → Verified
  verify_by none signed = bad_signer
  verify_by (some pk) signed = verify_hex pk (decode_hex signed.signature) signed.config

  unfoldable pub verify_config : SignedRendezvousConfig → Verified
  verify_config signed = verify_by (parse_key signed.signer) signed

  -- A config that a key signed verifies, names that key as its signer and is the config that was given;
  -- one that is changed afterwards verifies exactly if the key verifies the old signature for the bytes
  -- of the new config.
  pub verify_config-sign_config :
      IsSound K
      → (config changed : RendezvousConfig) (sk : SecretKey) (bytes bytes' : Bytes)
      → to_vec config ≡ some bytes
      → to_vec changed ≡ some bytes'
      → (signed : SignedRendezvousConfig) × (sign_config config sk ≡ some signed)
        × (signed.config ≡ config)
        × (signed.signer ≡ show_key (public sk))
        × (verify_config signed ≡ ok)
        × (verify_config (record signed { config = changed })
            ≡ (if verify (public sk) bytes' (sign sk bytes) then ok else failed))
  unfolding sign_config verify_config
  verify_config-sign_config sound config changed sk bytes bytes' p q =
      let s = sign sk bytes in
      (
        record { config = config; signer = show_key (public sk); signature = show_signature s },
        rw p refl,
        refl,
        refl,
        rw
            (
              sound.parse_key-show_key, sound.decode_hex-show_signature, sound.from_bytes-decoded,
              p, sound.verify-sign,
            )
            refl,
        rw (sound.parse_key-show_key, sound.decode_hex-show_signature, sound.from_bytes-decoded, q)
            (checked_if (verify (public sk) bytes' s)),
      )
    where
      checked_if : (b : Bool) → checked b ≡ (if b then ok else failed)
      checked_if true = refl
      checked_if false = refl
