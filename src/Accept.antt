-- ===== src/Accept.antt =====
-- src/io_service_thread.cpp: the threads with their connections to the platform, and the acceptance
-- of devices. The sessions have numbers, from 1, and so have the threads and their connections.
pub mod Stops
use modbus_ssa_project.Prelude.{ℕ, zero, suc, ◌+◌, List, [], ◌∷◌, ◌++◌, Option, none, some}
use modbus_ssa_project.Prelude.Int.{ℤ, pos}
use modbus_ssa_project.Prelude.Map.{Map, int_key, assign}

-- The loop of ThreadPool over the workers that are left: `_thread_https_pool`, by thread.
unfoldable pub add_workers : ℕ → ℕ → Map ℤ ℕ → Map ℤ ℕ
add_workers first zero pool = pool
add_workers first (suc left) pool = add_workers (first + 1) left (assign (pos first) first pool)

-- ThreadPool: thread 0 is the one that constructs it.
unfoldable pub thread_pool : ℕ → Map ℤ ℕ
unfolding add_workers
thread_pool size = assign (pos 0) 0 (add_workers 1 size [])

-- How an asynchronous accept ends: with an error, with a peer that is gone when its address is
-- asked, or with a peer.
pub data Accepted : Type 0 where
  failed : Accepted
  gone : Accepted
  connected : Accepted

-- The sessions constructed, the one that waits for a peer, and those whose `init` has been called.
pub record Acceptor : Type 0 where
  pub constructed : ℕ
  pub waiting : Option ℕ
  pub initialised : List ℕ

-- StartHandleAccept
unfoldable pub start_handle_accept : Acceptor → Acceptor
start_handle_accept a = record a {
  constructed = a.constructed + 1;
  waiting = some (a.constructed + 1);
}

-- ProcessAccept, of the session that was waiting.
unfoldable pub process_accept : Accepted → ℕ → Acceptor → Acceptor
unfolding start_handle_accept
process_accept failed n a = record a { waiting = none }
process_accept gone n a = record a { waiting = none }
process_accept connected n a =
    start_handle_accept (record a { initialised = a.initialised ++ n ∷ [] })

-- IOServiceThread
unfoldable pub io_service_thread : Acceptor
unfolding start_handle_accept
io_service_thread =
    start_handle_accept (record { constructed = 0; waiting = none; initialised = [] })

-- The ends of accepts, one after the other, as long as there is a session that waits.
unfoldable pub accepts : List Accepted → Acceptor → Acceptor
unfolding process_accept
accepts [] a = a
accepts (e ∷ es) a = elim a.waiting [ none ↦ a | some n ↦ accepts es (process_accept e n a) ]
