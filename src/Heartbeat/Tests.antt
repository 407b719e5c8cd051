-- ===== src/Heartbeat/Tests.antt =====
-- Runs of the heartbeat monitor, and its theorems at them. The keys are numbers.
use radical_utils.Prelude.{ℕ, ◌≡◌, refl, none, some, [], ◌∷◌, if◌then◌else◌}
use radical_utils.Prelude.Eq.{nat_eq}
use radical_utils.Prelude.Dict.{lookup, insert, remove}
use radical_utils.Heartbeat.{
  Heartbeat, goes_on, killed, crashed, given_or, stamp, beat, beat_all, ask, replace, check,
  and_then, check_all, watch_round, seen, unseen, wait_loop, wait_startup,
}
use radical_utils.Heartbeat.Watch.{is_late, some_late, watch_round_decides}

program : Unit {0}
unfolding given_or stamp beat beat_all ask replace check and_then check_all watch_round seen unseen
    wait_loop wait_startup is_late some_late lookup insert remove
program = tt

-- Key 1 last beat at time 90, and key 2 at time 40.
abbrev pair : Heartbeat ℕ
pair = record { tstamps = (1, 90) ∷ (2, 40) ∷ []; timeout = some 20; interval = 1 }

watch_round_decides_example :
    watch_round 99 none 100 (λ k. []) (λ k. 101) pair
    ≡ (if some_late 20 100 pair (1 ∷ 2 ∷ []) then killed pair else goes_on pair)
unfolding program
watch_round_decides_example = watch_round_decides 99 100 (λ k. 101) pair 19 refl

-- Key 2 is replaced by key 3.
abbrev repaired : Heartbeat ℕ
repaired = record { tstamps = (1, 90) ∷ (3, 101) ∷ []; timeout = some 20; interval = 1 }

-- A watcher without a timeout dies at the first key that it checks.
no_timeout :
    watch_round 99 none 100 (λ k. []) (λ k. 101) (record pair { timeout = none })
    ≡ crashed (record pair { timeout = none })
unfolding program
no_timeout = refl

-- A callback that returns `True`, the key 99 here, gets the late key forgotten.
true_key :
    watch_round 99 (some (λ k. some 99)) 100 (λ k. []) (λ k. 101) pair
    ≡ goes_on (record pair { tstamps = (1, 90) ∷ (99, 101) ∷ [] })
unfolding program
true_key = refl
