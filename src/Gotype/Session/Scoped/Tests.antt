-- ===== src/Gotype/Session/Scoped/Tests.antt =====
-- A history of transaction contexts of gotype/session.go, and runs of `EnsureDatabase`.
use go_typeql.Base.{String, true, false, List, [], ◌∷◌, pos, ◌+ℤ◌, none, some, ok, ◌==◌, ◌≡◌, refl}
use go_typeql.Gotype.Session.{Driver, read, write}
use go_typeql.Gotype.Session.Scoped.{
  Control, Event, begins, commits, rolls_back, closes, leaks, Process, Server, mark_done,
  begin_context, commit_context, rollback_context, close_context, handle_leak, process_step,
  run_events, ensure_database,
}
use go_typeql.Gotype.Session.Scoped.Counts.{Counted, run_events-Counted}

-- A driver whose commits fail and leave the transaction open.
abbrev stubborn : Driver Unit Unit String
stubborn = record {
  cancelled = λ w. none;
  open_ = λ t w. (ok tt, w);
  query = λ tx q w. (ok [], w);
  commit = λ tx w. (some "lost", w);
  close_ = λ tx w. w;
}

abbrev control : Control Unit Unit
control = record { rollback_ = λ tx w. (none, w); is_open = λ tx w. true; report_leak = λ w. w }

abbrev started : Process stubborn control
started = record { contexts = []; counters = record { active = pos 0; leaked = pos 0 }; world = tt }

-- The first context is rolled back and closed, the second one leaks behind a commit that failed, and the
-- third one stays.
abbrev history : List (Event stubborn control)
history =
    begins write
    ∷ begins write
    ∷ rolls_back 0
    ∷ closes 0
    ∷ commits 1
    ∷ leaks 1
    ∷ leaks 1
    ∷ leaks 0
    ∷ begins read
    ∷ []

history_counts :
    Process.counters (run_events stubborn control history started)
    ≡ record { active = pos 1; leaked = pos 1 }
unfolding run_events process_step begin_context commit_context rollback_context close_context
    handle_leak mark_done ◌+ℤ◌
history_counts = refl

run_events-Counted_example : Counted stubborn control (run_events stubborn control history started)
run_events-Counted_example = run_events-Counted stubborn control history tt

-- A server is the name of its one database.
abbrev server : Server String
server = record {
  cancelled = λ w. none;
  database_contains = λ name w. (ok (name == w), w);
  database_create = λ name w. (none, name);
}

ensure_twice :
    (ensure_database server "people" "other" ≡ (ok true, "people"))
    × (ensure_database server "people" "people" ≡ (ok false, "people"))
unfolding ensure_database
ensure_twice = (refl, refl)
