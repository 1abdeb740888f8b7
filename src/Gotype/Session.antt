-- ===== src/Gotype/Session.antt =====
-- gotype/session.go: the one-shot transactions of `Database`.
pub mod Trace
pub mod Scoped
mod Tests
use go_typeql.Base.{String, Bool, List, Option, none, some, Result, ok, err, ◌<>◌}

pub data TransactionType : Type 0 where
  read write schema : TransactionType

-- What a `Database` uses of its context, its connection and a transaction.
pub record Driver (W Tx Row : Type 0) : Type 0 where
  pub cancelled : W → Option String
  pub open_ : TransactionType → W → Result String Tx × W
  pub query : Tx → String → W → Result String (List Row) × W
  pub commit : Tx → W → Option String × W
  pub close_ : Tx → W → W

module _ {W Tx Row : Type 0} (driver : Driver W Tx Row) where
  -- The transaction is closed on every way out, behind the result.
  unfoldable pub execute_write : String → W → Result String (List Row) × W
  execute_write text w = elim (driver.cancelled w) [
    | some e ↦ (err ("write: context cancelled: " <> e), w)
    | none ↦
        let (opened, w₁) = driver.open_ write w in
        elim opened [
          | err e ↦ (err ("open write transaction: " <> e), w₁)
          | ok tx ↦
              let (answer, w₂) = driver.query tx text w₁ in
              elim answer [
                | err e ↦ (err e, driver.close_ tx w₂)
                | ok rows ↦
                    let (failed, w₃) = driver.commit tx w₂ in
                    elim failed [
                      | some e ↦ (err ("commit: " <> e), driver.close_ tx w₃)
                      | none ↦ (ok rows, driver.close_ tx w₃)
                    ]
              ]
        ]
  ]

  unfoldable pub execute_read : String → W → Result String (List Row) × W
  execute_read text w = elim (driver.cancelled w) [
    | some e ↦ (err ("read: context cancelled: " <> e), w)
    | none ↦
        let (opened, w₁) = driver.open_ read w in
        elim opened [
          | err e ↦ (err ("open read transaction: " <> e), w₁)
          | ok tx ↦ let (answer, w₂) = driver.query tx text w₁ in (answer, driver.close_ tx w₂)
        ]
  ]

  unfoldable pub execute_schema : String → W → Option String × W
  execute_schema text w = elim (driver.cancelled w) [
    | some e ↦ (some ("schema: context cancelled: " <> e), w)
    | none ↦
        let (opened, w₁) = driver.open_ schema w in
        elim opened [
          | err e ↦ (some ("open schema transaction: " <> e), w₁)
          | ok tx ↦
              let (answer, w₂) = driver.query tx text w₁ in
              elim answer [
                | err e ↦ (some e, driver.close_ tx w₂)
                | ok rows ↦ let (failed, w₃) = driver.commit tx w₂ in (failed, driver.close_ tx w₃)
              ]
        ]
  ]
