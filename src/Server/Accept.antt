-- ===== src/Server/Accept.antt =====
-- src/server.rs: `Server::run` and `Server::run_until`. A task has a socket of its own, so the tasks do not meet but in the
-- files: what the k-th socket receives is `nets k`, and `bound k` is how its binding went.
use atftp.Common.{
  ℕ, ◌+◌, ◌≡◌, ◌≤◌, refl, ap, ◌∙◌, Bool, true, false, List, [], ◌∷◌, length, take, Bytes, All,
}
use atftp.Error.{Result, ok, err, io}
use atftp.Files.{Files, FilesLaws, Attempt}
use atftp.Io.{Address, Event, datagram, failure, silence, Net}
use atftp.Proto.{max_packet_size}
use atftp.Server.Initial.Ends.{IsOut, handle_initial_ends}
use atftp.Server.Initial.{Handled, handle_initial}
use atftp.Server.{Config}

-- Where the loop is: still listening, or returned.
pub data Loop : Type 0 where
  listening : Loop
  returned : Result (Unit {0}) → Loop

-- The end of a loop that is told to shut down.
abbrev pub shut_down : Loop → Loop
shut_down listening = returned (ok tt)
shut_down (returned r) = returned r

module _ (fs : Files) where
  abbrev pub Task : Type 0
  Task = Result (Handled fs) × Net

  module _ (fuel : ℕ) (cfg : Config) (bound : ℕ → Attempt (Unit {0})) (nets : ℕ → Net) where
    abbrev pub task : ℕ → Address → Bytes → Task
    task k peer buf = handle_initial fs fuel cfg peer (bound k) (take max_packet_size buf) (nets k)

    -- The loop of `Server::run`, from the k-th task on: the tasks that are spawned, and where the
    -- loop is. A task that fails does not end the loop, an error of the listener does. There is no
    -- deadline, so silence is no event.
    unfoldable pub run_from : ℕ → List Event → List Task × Loop
    run_from k [] = ([], listening)
    run_from k (silence ∷ events) = run_from k events
    run_from k (failure kind ∷ events) = ([], returned (err (io kind)))
    run_from k (datagram peer buf ∷ events) =
        let (tasks, loop) = run_from (k + 1) events in (task k peer buf ∷ tasks, loop)

    unfoldable pub run : List Event → List Task × Loop
    unfolding run_from
    run events = run_from 0 events

    -- `Server::run_until`: the `select!` of `run` on what has arrived and the shutdown, which may have
    -- come behind it. The tasks are detached: a task is here with all that it does.
    unfoldable pub run_until : List Event → Bool → List Task × Loop
    unfolding run
    run_until events false = run events
    run_until events true = let (tasks, loop) = run events in (tasks, shut_down loop)

module _ (fs : Files) (laws : FilesLaws fs) where
  -- A task that has returned, with an error or without.
  abbrev pub HasEnded : Result (Handled fs) × Net → Type 0
  HasEnded (r, net') = (h : Handled fs) → r ≡ ok h → ¬ IsOut fs laws h

  run_from-HasEnded :
      (fuel : ℕ) (cfg : Config) (bound : ℕ → Attempt (Unit {0})) (nets : ℕ → Net) (k : ℕ)
      (events : List Event)
      → ((n : ℕ) → length (nets n).inbox + cfg.retries + 2 ≤ fuel)
      → All HasEnded (run_from fs fuel cfg bound nets k events).0
  unfolding run_from
  run_from-HasEnded fuel cfg bound nets k [] enough = tt
  run_from-HasEnded fuel cfg bound nets k (silence ∷ events) enough =
      run_from-HasEnded fuel cfg bound nets k events enough
  run_from-HasEnded fuel cfg bound nets k (failure kind ∷ events) enough = tt
  run_from-HasEnded fuel cfg bound nets k (datagram peer buf ∷ events) enough = (
    task_ends (task fs fuel cfg bound nets k peer buf) refl,
    run_from-HasEnded fuel cfg bound nets (k + 1) events enough,
  )
    where
      task_ends : (r : Task fs) → task fs fuel cfg bound nets k peer buf ≡ r → HasEnded r
      task_ends (r, net') is h r_is out =
          handle_initial_ends fs laws fuel cfg peer (bound k) (take max_packet_size buf) h (nets k)
            net' (enough k) (is ∙ ap (λ (x : Result (Handled fs)). (x, net')) r_is) out

  -- Every task that the server spawns comes to an end, whatever arrives at the listening socket and
  -- at the sockets of the transfers, and whether or not a shutdown comes: each returns within a
  -- round for each event on its socket, each retry, and two more.
  pub run_until-HasEnded :
      (fuel : ℕ) (cfg : Config) (bound : ℕ → Attempt (Unit {0})) (nets : ℕ → Net)
      (events : List Event) (stop : Bool)
      → ((n : ℕ) → length (nets n).inbox + cfg.retries + 2 ≤ fuel)
      → All HasEnded (run_until fs fuel cfg bound nets events stop).0
  unfolding run_until run
  run_until-HasEnded fuel cfg bound nets events false enough =
      run_from-HasEnded fuel cfg bound nets 0 events enough
  run_until-HasEnded fuel cfg bound nets events true enough =
      run_from-HasEnded fuel cfg bound nets 0 events enough
