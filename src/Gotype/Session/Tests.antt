-- ===== src/Gotype/Session/Tests.antt =====
-- Runs of gotype/session.go on a driver that answers every query with its text.
use go_typeql.Base.{String, true, [], ◌∷◌, none, ok, is_ok, ◌≡◌, refl}
use go_typeql.Gotype.Session.{
  Driver, write, schema, execute_write, execute_read, execute_schema, read,
}
use go_typeql.Gotype.Session.Trace.{
  tracing, opens, queries, closes, Grown, succeeded, execute_write-Grown,
}

abbrev echo : Driver Unit Unit String
echo = record {
  cancelled = λ w. none;
  open_ = λ t w. (ok tt, w);
  query = λ tx q w. (ok (q ∷ []), w);
  commit = λ tx w. (none, w);
  close_ = λ tx w. w;
}

read_requests :
    execute_read (tracing echo) "match $x;" ([], tt)
    ≡ (ok ("match $x;" ∷ []), (opens read true ∷ queries "match $x;" true ∷ closes ∷ [], tt))
unfolding execute_read
read_requests = refl

execute_write-Grown_example :
    Grown write "q" []
      (execute_write (tracing echo) "q" ([], tt)).1.0
      (is_ok (execute_write (tracing echo) "q" ([], tt)).0)
    × Grown schema "q" []
        (execute_schema (tracing echo) "q" ([], tt)).1.0
        (succeeded (execute_schema (tracing echo) "q" ([], tt)).0)
execute_write-Grown_example = execute_write-Grown echo "q" [] tt
