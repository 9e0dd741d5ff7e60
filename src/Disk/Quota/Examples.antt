-- ===== src/Disk/Quota/Examples.antt =====
-- Calls of `Add` that meet, and the theorem at concrete inputs.
use daemon.Common.{◌≡◌, refl, none, some, [], ◌∷◌, arith}
use daemon.Common.Int.{ℤ, pos, negsuc, ◌+ℤ◌, ◌-ℤ◌, neg_ℤ}
use daemon.Disk.Quota.{Quota, add_next, add_commit, add_round, add}
use daemon.Disk.Quota.Callers.{
  Caller, Callers, Reach, here, next, calls, loads, retries, returns, IsSummed, Reach-IsSummed,
}

program : Unit {0}
unfolding add_next add_commit add_round add ◌+ℤ◌ ◌-ℤ◌ neg_ℤ
program = tt

abbrev half : Quota
half = record { limit = pos 100; usage = pos 50 }

abbrev free : Callers
free = record { quota = half; calls = []; returned = [] }

abbrev reading : ℤ → Caller
reading i = record { amount = i; seen = none }

abbrev read_fifty : ℤ → Caller
read_fifty i = record { amount = i; seen = some (pos 50) }

interfered : add (pos 40 ∷ []) half (pos 5) ≡ (record half { usage = pos 45 }, pos 45)
unfolding program
interfered = refl

-- Two calls read the usage before either swaps.
both_read : Reach free (record free { calls = read_fifty (negsuc 9) ∷ read_fifty (pos 5) ∷ [] })
both_read =
    next
      (next
        (next (next here (calls (pos 5) (omega arith) (omega arith)))
          (calls (negsuc 9) (omega arith) (omega arith)))
        (loads (reading (negsuc 9) ∷ []) [] (pos 5) refl))
      (loads [] (read_fifty (pos 5) ∷ []) (negsuc 9) refl)

abbrev first_returned : Callers
first_returned = record {
  quota = record half { usage = pos 40 };
  calls = read_fifty (pos 5) ∷ [];
  returned = negsuc 9 ∷ [];
}

abbrev both_returned : Callers
both_returned = record {
  quota = record half { usage = pos 45 };
  calls = [];
  returned = pos 5 ∷ negsuc 9 ∷ [];
}

-- The swap of the second fails, and the call reads the usage again.
second_retried : Reach free (record first_returned { calls = reading (pos 5) ∷ [] })
unfolding program
second_retried =
    next
      (next both_read (
        returns [] (read_fifty (pos 5) ∷ []) (negsuc 9) (pos 50) (pos 40)
          (record half { usage = pos 40 }) refl refl))
      (retries [] [] (pos 5) (pos 50) (record half { usage = pos 40 }) refl refl)

both_reached : Reach free both_returned
unfolding program
both_reached =
    next (next second_retried (loads [] [] (pos 5) refl))
      (returns [] [] (pos 5) (pos 40) (pos 45) (record half { usage = pos 45 }) refl refl)

Reach-IsSummed_example : IsSummed half both_returned
Reach-IsSummed_example = Reach-IsSummed half (omega arith) (omega arith) both_reached
