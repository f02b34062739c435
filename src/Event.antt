-- ===== src/Event.antt =====
-- The event of src/lib.rs and the id that it is given.
pub mod Ids
use Prim.Native.String.{◌++◌ as ◌<>◌}
use xaeroflux.Prelude.{ℕ, zero, suc, ◌/◌, ◌%◌, String, List, [], ◌∷◌, ltb, if◌then◌else◌}

-- `ts` is a u64.
pub record Event : Type 0 where
  pub id : String
  pub payload : String
  pub source : String
  pub ts : ℕ

digit : ℕ → String
digit zero = "0"
digit (suc zero) = "1"
digit (suc (suc zero)) = "2"
digit (suc (suc (suc zero))) = "3"
digit (suc (suc (suc (suc zero)))) = "4"
digit (suc (suc (suc (suc (suc zero))))) = "5"
digit (suc (suc (suc (suc (suc (suc zero)))))) = "6"
digit (suc (suc (suc (suc (suc (suc (suc zero))))))) = "7"
digit (suc (suc (suc (suc (suc (suc (suc (suc zero)))))))) = "8"
digit (suc (suc (suc (suc (suc (suc (suc (suc (suc n))))))))) = "9"

decimal_fuel : ℕ → ℕ → String
decimal_fuel zero n = ""
decimal_fuel (suc fuel) n =
    let rest = decimal_fuel fuel (n / 10) in if ltb n 10 then digit n else rest <> digit (n % 10)

-- `{}` of a u64, which has at most 20 digits.
unfoldable pub decimal : ℕ → String
unfolding decimal_fuel digit
decimal n = decimal_fuel 20 n

-- `blake3` is the hex digest of the hash crate over the bytes of a text.
module _ (blake3 : String → String) where
  unfoldable pub generate_event_id : String → String → ℕ → String
  generate_event_id payload source ts = blake3 ((payload <> source) <> decimal ts)

-- The ids of a list of events.
abbrev pub ids : List Event → List String
ids [] = []
ids (e ∷ es) = e.id ∷ ids es
