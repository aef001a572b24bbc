-- ===== src/Poller/Tests.antt =====
-- net/EPollPoller.cc: the life of a channel that writes, stops and is closed.
use my_game_server.Base.{ℕ, true, false, List, [], ◌∷◌, ◌≡◌, refl, arith, replicate, take, drop}
use my_game_server.Poller.{Revents}
use my_game_server.Poller.Poll.{init_event_list_size, polls, polls-all}
use my_game_server.Poller.{
  fresh, run, enables_reading, enables_writing, disables_writing, disables_all, removes,
}
use my_game_server.Poller.Registered.{InStep, run-fresh-InStep}

run-fresh-InStep_example :
    InStep (
      run
        (enables_reading ∷ enables_writing ∷ disables_writing ∷ disables_all ∷ removes ∷ [])
        fresh)
run-fresh-InStep_example =
    run-fresh-InStep
      (enables_reading ∷ enables_writing ∷ disables_writing ∷ disables_all ∷ removes ∷ [])

abbrev readable : Revents
readable = record {
  hup = false;
  err = false;
  can_read = true;
  pri = false;
  rdhup = false;
  can_write = false;
}

-- Forty channels in two polls.
abbrev forty : List (ℕ × Revents)
forty = replicate 40 (3, readable)

abbrev kernel : ℕ → List (ℕ × Revents) → List (ℕ × Revents) × List (ℕ × Revents)
kernel size ready = (take size ready, drop size ready)

polls-all_example : polls kernel 2 forty init_event_list_size ≡ forty
polls-all_example = polls-all kernel (λ size ready. refl) 2 forty (omega arith)
