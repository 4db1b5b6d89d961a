-- ===== src/Accept/Stops.antt =====
-- How long devices are accepted (src/io_service_thread.cpp).
use modbus_ssa_project.Prelude.{
  ℕ, suc, ◌+◌, List, [], ◌∷◌, length, length-append, none, some, ◌≡◌, refl, ◌∙◌, arith,
}
use modbus_ssa_project.Accept.{
  Accepted, failed, gone, connected, Acceptor, process_accept, io_service_thread, accepts,
}

-- The connections before the first accept that does not end well.
abbrev pub leading : List Accepted → ℕ
leading [] = 0
leading (connected ∷ es) = suc (leading es)
leading (_ ∷ es) = 0

accepts-stopped : (es : List Accepted) (a : Acceptor) → a.waiting ≡ none → accepts es a ≡ a
unfolding accepts
accepts-stopped [] a h = refl
accepts-stopped (e ∷ es) a h = rw h refl

accepts-initialised :
    (es : List Accepted) (a : Acceptor) (n : ℕ)
    → a.waiting ≡ some n
    → length (accepts es a).initialised ≡ length a.initialised + leading es
unfolding accepts process_accept
accepts-initialised [] a n h = omega arith
accepts-initialised (failed ∷ es) a n h =
    rw (accepts, h, accepts-stopped es (record a { waiting = none }) refl) (omega arith)
accepts-initialised (gone ∷ es) a n h =
    rw (accepts, h, accepts-stopped es (record a { waiting = none }) refl) (omega arith)
accepts-initialised (connected ∷ es) a n h =
    rw (accepts, h)
      (accepts-initialised es (process_accept connected n a) (a.constructed + 1) refl
        ∙ omega (arith, length-append a.initialised (n ∷ [])))

-- A device is accepted for every connection before the first accept that ends with an error or with
-- a peer that is gone, and none after it.
pub accepts_until_failure :
    (es : List Accepted) → length (accepts es io_service_thread).initialised ≡ leading es
unfolding io_service_thread
accepts_until_failure es = accepts-initialised es io_service_thread 1 refl ∙ omega arith
