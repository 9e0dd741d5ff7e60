-- ===== src/Cron/Examples.antt =====
-- Runs of a delivery, and the theorems at concrete inputs.
use daemon.Common.{ℕ, ◌+◌, ◌≡◌, refl, Bool, true, Option, none, some, List, [], ◌∷◌, arith, ◌==◌}
use daemon.Common.Int.{pos}
use daemon.Cron.{BatchItem, is_refused, settle, deliver}
use daemon.Cron.Delivery.{IsPrefix, deliver-IsPrefix}
use daemon.Cron.Refusal.{panel, Delivered, deliver-Delivered}

program : Unit {0}
unfolding is_refused settle deliver
program = tt

abbrev stored : ℕ → BatchItem ℕ
stored n = record { activity = n; ids = pos n ∷ pos (n + 100) ∷ [] }

abbrev waiting : List (BatchItem ℕ)
waiting = stored 1 ∷ stored 2 ∷ stored 3 ∷ stored 4 ∷ []

abbrev is_third : ℕ → Bool
is_third a = a == 3

-- An error is its status.
abbrev status : ℕ → Option ℕ
status code = some code

third_dropped : deliver (panel is_third 422) status 4 [] waiting ≡ (
  1 ∷ 2 ∷ 4 ∷ [],
  pos 1 ∷ pos 101 ∷ pos 2 ∷ pos 102 ∷ pos 3 ∷ pos 103 ∷ pos 4 ∷ pos 104 ∷ [],
  none,
)
unfolding program
third_dropped = refl

unavailable : deliver (panel is_third 503) status 4 [] waiting ≡ ([], [], some 503)
unfolding program
unavailable = refl

deliver-IsPrefix_example : IsPrefix waiting (deliver (panel is_third 503) status 4 [] waiting)
deliver-IsPrefix_example = deliver-IsPrefix (panel is_third 503) status 4 [] waiting (omega arith)

refused : is_refused status 422 ≡ true
unfolding program
refused = refl

deliver-Delivered_example :
    Delivered is_third [] waiting (deliver (panel is_third 422) status 4 [] waiting)
deliver-Delivered_example = deliver-Delivered is_third status 422 refused 4 [] waiting (omega arith)
