-- ===== src/Session/Takeover.antt =====
-- Sessions of one device id (src/client_session.cpp): the one that registers last has the entry of
-- `did_to_cs`, and every other one finds itself replaced at its next event.
use modbus_ssa_project.Prelude.{ℕ, Bool, true, false, ◌≡◌, ◌≢◌, arith}
use modbus_ssa_project.Prelude.Text.{Text, empty}
use modbus_ssa_project.Prelude.Map.{
  Map, key_refl, text_key, get, assign, get-assign, erase, get-erase,
}
use modbus_ssa_project.Model.{Floats}
use modbus_ssa_project.Platform.{Platform}
use modbus_ssa_project.Session.Machine.{Machine, on_cs, replaced, close, act}
use modbus_ssa_project.Session.Registration.{reg_dev}

get_assigned : (d : Text) (s : ℕ) (m : Map Text ℕ) → get 0 d (assign d s m) ≡ s
get_assigned d s m = ground (arith, get-assign 0 d d s m, key_refl d)

get_erased : (d : Text) (m : Map Text ℕ) → get 0 d (erase d m) ≡ 0
get_erased d m = ground (arith, get-erase 0 d d m, key_refl d)

module _ (pf : Platform) (fl : Floats) where
  open pf use {World}

  -- When regDev knows the device, its session is not replaced afterwards, and every other session of
  -- the device id is.
  pub reg_dev-takes_over :
      (m n : Machine) (w : World)
      → empty (m.cs).did ≡ false
      → (reg_dev pf fl m w).0 ≡ true
      → (n.cs).did ≡ (m.cs).did
      → n.this ≢ m.this
      → (replaced (reg_dev pf fl m w).1 ≡ false)
        × (replaced (record n { registry = ((reg_dev pf fl m w).1).registry }) ≡ true)
  unfolding reg_dev replaced on_cs
  reg_dev-takes_over m n w named known same_did other =
      ground (arith, same_did, get_assigned (m.cs).did m.this (m.registry).did_to_cs)

  -- When regDev knows the device of a session, the session is not replaced; but as soon as an
  -- earlier session of the device id closes, it is, though no other has registered since.
  pub close_replaces :
      (cancelled : Bool) (m n : Machine) (w : World)
      → empty (n.cs).did ≡ false
      → (reg_dev pf fl n w).0 ≡ true
      → (m.cs).did ≡ (n.cs).did
      → n.this ≢ 0
      → (replaced (reg_dev pf fl n w).1 ≡ false)
        × (replaced (record ((reg_dev pf fl n w).1) {
          registry =
              (close cancelled (record m { registry = ((reg_dev pf fl n w).1).registry })).registry;
        })
            ≡ true)
  unfolding reg_dev replaced close act on_cs
  close_replaces cancelled m n w named known same_did not_null = ground (
    arith,
    same_did,
    get_assigned (n.cs).did n.this (n.registry).did_to_cs,
    get_erased (n.cs).did (((reg_dev pf fl n w).1).registry).did_to_cs,
  )
