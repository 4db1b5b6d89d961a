-- ===== src/Agent/Sound.antt =====
-- The operations of src/agent_msg_handler.cpp leave the tables of every session sound, with the types
-- that it has had.
use mathlib.Core.Path.{subst}
use modbus_ssa_project.Prelude.{
  ℕ, ◌||◌, true, [], ◌∷◌, ◌++◌, ◌==◌, ◌≡◌, refl, sym, if-intro, Bool-cases, inl, inr, arith,
}
use modbus_ssa_project.Prelude.Text.{Text, text, atoi}
use modbus_ssa_project.Model.{SrRecord, Floats, MbDevices}
use modbus_ssa_project.Model.Dispatch.{Handled, handled, bad_call, undefined, is}
use modbus_ssa_project.Model.WellFormed.{Yields}
use modbus_ssa_project.Platform.{Platform}
use modbus_ssa_project.C8y.Load.{add_devices}
use modbus_ssa_project.Session.Record.{Session}
use modbus_ssa_project.Session.Registration.{thousand}
use modbus_ssa_project.Session.Polling.{ModbusLibrary}
use modbus_ssa_project.Session.Sound.{IsSound, Kept}
use modbus_ssa_project.Session.Sound.Handlers.{Same-Keeps}
use modbus_ssa_project.Session.Sound.Loading.{add_devices-Kept}
use modbus_ssa_project.Agent.{
  Gateway, update_session, find_session, Search, nobody, null_session, free, find_free, post_busy,
  set_value, set_operation, add_operation, rate_operation, operate,
}

abbrev pub AllSound : Gateway → Type 0
AllSound g = (n : ℕ) → IsSound (g.sessions n)

-- Every session is sound, with its types in an earlier state.
abbrev pub AllKept : Gateway → Gateway → Type 0
AllKept g g' = (n : ℕ) → Kept (g.sessions n) (g'.sessions n)

unchanged : (g : Gateway) → AllSound g → AllKept g g
unchanged g all n = (all n, λ t known. known)

-- One session changed, and the others as they are.
updated-AllKept :
    (k : ℕ) (f : Session → Session) (g : Gateway)
    → Kept (g.sessions k) (f (g.sessions k))
    → AllSound g
    → AllKept g (update_session k f g)
updated-AllKept k f g h all n = elim (Bool-cases (n == k)) [
  | inl e ↦ rw e (subst (λ j. Kept (g.sessions j) (f (g.sessions j))) (ground arith) h)
  | inr e ↦ rw e (all n, λ t known. known)
]

same_sessions : (g g' h : Gateway) → h.sessions ≡ g'.sessions → AllKept g g' → AllKept g h
same_sessions g g' h e all = subst (λ s. (n : ℕ) → Kept (g.sessions n) (s n)) (sym e) all

module _ (pf : Platform) (fl : Floats) (mb : ModbusLibrary) where
  open pf use {World}

  pub set_value-sessions :
      (sid : Text) (r : SrRecord) (mbd : MbDevices) (g : Gateway)
      → (set_value pf fl mb sid r mbd g).sessions ≡ g.sessions
  unfolding set_value find_session
  set_value-sessions sid r mbd g = ground arith

  set_operation-AllKept :
      (r : SrRecord) (g : Gateway) (w : World)
      → AllSound g
      → Yields (AllKept g) (set_operation pf fl mb r g w).0
  unfolding set_operation
  set_operation-AllKept r g w all = found (find_free pf fl mb (r.value 3) g.sessions g.did_to_cs).1
    where
      told : World
      told =
          post_busy pf fl mb (r.value 2) (find_free pf fl mb (r.value 3) g.sessions g.did_to_cs).0
            (pf.post (text "303," ++ (r.value 2 ++ (text ",EXECUTING" ++ 10 ∷ []))) w).1

      success : World
      success = (pf.post (text "303," ++ (r.value 2 ++ (text ",SUCCESSFUL" ++ 10 ∷ []))) told).1

      taken : ℕ → Gateway
      taken n = update_session n (λ c. record c { locked = true }) g

      found :
          (x : Search)
          → Yields (AllKept g) (
              (elim x as (λ _. Handled Gateway × World) [
                | nobody ↦ (handled g, success)
                | null_session ↦ (undefined, told)
                | free n mbd ↦
                    (handled (set_value pf fl mb (g.sessions n).sid r mbd (taken n)), success)
              ]).0)
      found nobody = unchanged g all
      found null_session = tt
      found (free n mbd) =
          same_sessions g (taken n) (set_value pf fl mb (g.sessions n).sid r mbd (taken n))
            (set_value-sessions (g.sessions n).sid r mbd (taken n))
            (updated-AllKept n (λ c. record c { locked = true }) g
              (Same-Keeps (g.sessions n) _ (refl, refl) (all n)) all)

  add_operation-AllKept :
      (r : SrRecord) (g : Gateway) (w : World)
      → AllSound g
      → Yields (AllKept g) (add_operation pf fl mb r g w).0
  unfolding add_operation find_session
  add_operation-AllKept r g w all = if-intro KeptAll (n == 0) _ _ (unchanged g all) (
      added (add_devices pf fl r (g.sessions n) w)
        (add_devices-Kept pf fl r (g.sessions n) w (all n)))
    where
      KeptAll : Handled Gateway × World → Type 0
      KeptAll x = Yields (AllKept g) x.0

      n : ℕ
      n = (find_session (r.value 6) g).0

      g' : Gateway
      g' = (find_session (r.value 6) g).1

      done : Text
      done =
          text "303,"
          ++ (r.value 8
              ++ (text ",EXECUTING"
                  ++ (10 ∷ [] ++ (text "303," ++ (r.value 8 ++ (text ",SUCCESSFUL" ++ 10 ∷ []))))))

      added :
          (x : Handled Session × World)
          → Yields (Kept (g.sessions n)) x.0
          → Yields (AllKept g) (
              (elim x.0 as (λ _. Handled Gateway × World) [
                | handled cs ↦ (handled (update_session n (λ c. cs) g'), (pf.post done x.1).1)
                | bad_call cs ↦ (bad_call (update_session n (λ c. cs) g'), x.1)
                | undefined ↦ (undefined, x.1)
              ]).0)
      added (handled cs, w') v = updated-AllKept n (λ c. cs) g' v all
      added (bad_call cs, w') v = updated-AllKept n (λ c. cs) g' v all
      added (undefined, w') v = tt

  rate_operation-AllKept :
      (r : SrRecord) (g : Gateway) (w : World)
      → AllSound g
      → AllKept g (rate_operation pf fl mb r g w).0
  unfolding rate_operation find_session
  rate_operation-AllKept r g w all =
      if-intro (λ (x : Gateway × World). AllKept g x.0) (n == 0) _ _ (unchanged g all)
        (updated-AllKept n (λ c. record c { timer_interval = thousand (atoi (r.value 3)) })
          (find_session (r.value 5) g).1 (Same-Keeps (g.sessions n) _ (refl, refl) (all n)) all)
    where
      n : ℕ
      n = (find_session (r.value 5) g).0

  -- Whatever the platform asks for, the tables of every session are sound afterwards, with every type
  -- that they have had; also where a message throws.
  pub operate-AllKept :
      (r : SrRecord) (g : Gateway) (w : World)
      → AllSound g
      → Yields (AllKept g) (operate pf fl mb r g w).0
  unfolding operate
  operate-AllKept r g w all =
      if-intro KeptAll (is r (text "832") || is r (text "847")) _ _
        (add_operation-AllKept r g w all)
        (if-intro KeptAll (is r (text "833") || is r (text "834")) _ _
          (set_operation-AllKept r g w all)
          (if-intro KeptAll (is r (text "817")) _ _ (rate_operation-AllKept r g w all)
            (unchanged g all)))
    where
      KeptAll : Handled Gateway × World → Type 0
      KeptAll x = Yields (AllKept g) x.0
