-- ===== src/Sqlite/Memory.antt =====
-- An engine that meets the assumptions: the tables, and the number of statements until the next one
-- that fails.
use xaeroflux.Prelude.{ℕ, zero, suc, ◌≡◌, refl, ◌⊎◌, inl, inr, Option, none, some}
use xaeroflux.Sqlite.{Tables, Statement, Sqlite, NeverFails}

pub record Engine : Type 0 where
  pub content : Tables
  pub until_failure : Option ℕ

abbrev pub execute : {R : Type 0} → Statement R → Option ℕ → Tables → Option R × Engine
execute stmt none t = (some (stmt t).0, record { content = (stmt t).1; until_failure = none })
execute stmt (some zero) t = (none, record { content = t; until_failure = none })
execute stmt (some (suc n)) t =
    (some (stmt t).0, record { content = (stmt t).1; until_failure = some n })

pub execute_cases :
    {R : Type 0} (stmt : Statement R) (u : Option ℕ) (t : Tables)
    → (((execute stmt u t).0 ≡ none) × ((execute stmt u t).1.content ≡ t))
      ⊎ (((execute stmt u t).0 ≡ some (stmt t).0) × ((execute stmt u t).1.content ≡ (stmt t).1))
execute_cases stmt none t = inr (refl, refl)
execute_cases stmt (some zero) t = inl (refl, refl)
execute_cases stmt (some (suc n)) t = inr (refl, refl)

abbrev pub memory : Sqlite
memory = record {
  Connection = Engine;
  tables = λ c. c.content;
  execute = λ stmt c. execute stmt c.until_failure c.content;
  execute_lem = λ stmt c. execute_cases stmt c.until_failure c.content;
}

-- An engine on which no statement fails: the connection is the tables.
abbrev pub reliable : Sqlite
reliable = record {
  Connection = Tables;
  tables = λ t. t;
  execute = λ stmt t. (some (stmt t).0, (stmt t).1);
  execute_lem = λ stmt t. inr (refl, refl);
}

pub reliable-NeverFails : NeverFails reliable
reliable-NeverFails = record { runs = λ stmt t h. cc }
