-- ===== src/Gotype/Query/Together.antt =====
-- gotype/query.go: `UpdateWith` fetches and updates in one transaction.
use go_typeql.Base.{
  String, ◌<◌, length, ◌≢◌, true, false, List, [], ◌∷◌, ◌++◌, map, ℕ, Result, ok, err, is_ok, ◌≡◌,
}
use go_typeql.Ast.Compiler.{CompileError}
use go_typeql.Gotype.Session.{Driver, write}
use go_typeql.Gotype.Session.Trace.{Request, opens, queries, commits, closes}
use go_typeql.Gotype.Models.{Instance}
use go_typeql.Gotype.Manager.{RowReader, Manager}
use go_typeql.Gotype.Manager.Reads.{hydrate_results}
use go_typeql.Gotype.Manager.Sent.{sent, sent_until, updates}
use go_typeql.Gotype.Query.{Query}

module _ {W Tx Row : Type 0} (driver : Driver W Tx Row) (rows : RowReader Row)
    (explain : CompileError → String) (m : Manager Tx) (change : Instance → Instance) where
  -- What a call has sent behind a log and what it returns: no transaction was opened; the fetch failed; its
  -- rows could not be read; nothing was found; the update at some position failed; the commit failed; or
  -- all went well.
  pub data Updated (text : String) (log log' : List Request)
      (result : Result String (List Instance)) : Type 0 where
    unopened :
        log' ≡ log ++ opens write false ∷ [] → is_ok result ≡ false → Updated text log log' result
    unanswered :
        log' ≡ log ++ opens write true ∷ queries text false ∷ closes ∷ []
        → is_ok result ≡ false
        → Updated text log log' result
    unread :
        (found : List Row) (e : String)
        → hydrate_results driver rows explain m found ≡ err e
        → log' ≡ log ++ opens write true ∷ queries text true ∷ closes ∷ []
        → is_ok result ≡ false
        → Updated text log log' result
    nothing_found :
        (found : List Row)
        → hydrate_results driver rows explain m found ≡ ok []
        → log' ≡ log ++ opens write true ∷ queries text true ∷ closes ∷ []
        → result ≡ ok []
        → Updated text log log' result
    broken :
        (found : List Row) (xs : List Instance) (n : ℕ)
        → hydrate_results driver rows explain m found ≡ ok xs
        → n < length xs
        → log'
          ≡ log
            ++ opens write true
              ∷ queries text true
              ∷ (sent_until (updates m.info) n (map change xs) ++ closes ∷ [])
        → is_ok result ≡ false
        → Updated text log log' result
    uncommitted :
        (found : List Row) (xs : List Instance)
        → hydrate_results driver rows explain m found ≡ ok xs
        → xs ≢ []
        → log'
          ≡ log
            ++ opens write true
              ∷ queries text true
              ∷ (sent (updates m.info) (map change xs) ++ commits false ∷ closes ∷ [])
        → is_ok result ≡ false
        → Updated text log log' result
    finished :
        (found : List Row) (xs : List Instance)
        → hydrate_results driver rows explain m found ≡ ok xs
        → xs ≢ []
        → log'
          ≡ log
            ++ opens write true
              ∷ queries text true
              ∷ (sent (updates m.info) (map change xs) ++ commits true ∷ closes ∷ [])
        → result ≡ ok (map change xs)
        → Updated text log log' result
