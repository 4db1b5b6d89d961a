-- ===== src/Session/Sound.antt =====
-- What holds of a session's tables from its registration on (src/client_session.cpp, src/c8y.cpp,
-- src/modbus_p.cpp): the point tables are well formed, and the type of every device with a slave
-- has its range maps.
pub mod Lookups
pub mod Responses
pub mod Handlers
pub mod Thread
pub mod Types
pub mod Loading
pub mod Registered
use modbus_ssa_project.Prelude.{Bool, true, false, List, Option, none, some, ◌≡◌, refl, ap}
use modbus_ssa_project.Prelude.Text.{Text, empty}
use modbus_ssa_project.Prelude.Map.{
  Map, text_key, contains, AllValues, AllValues-imp, modify, assign, modify-AllValues,
}
use modbus_ssa_project.Model.{RangeMap, MbDevices, new_mbdevices}
use modbus_ssa_project.Model.WellFormed.{IsWellFormed}
use modbus_ssa_project.Session.Record.{Session}

abbrev pub Ranges : Type 0
Ranges = Map Text (List RangeMap)

-- Every key stays.
abbrev pub Grows : Ranges → Ranges → Type 0
Grows t t' = (k : Text) → contains k t ≡ true → contains k t' ≡ true

-- A device that can be polled has range maps.
abbrev pub IsServed : Ranges → MbDevices → Type 0
IsServed t d = empty d.slave ≡ false → contains d.type t ≡ true

pub record IsSound (cs : Session) : Type 0 where
  pub tables : IsWellFormed cs.mbtypes
  pub devices : AllValues (IsServed (cs.mbtypes).typenum) cs.mbdevices

-- A sound session, with every type of an earlier one.
abbrev pub Kept : Session → Session → Type 0
Kept cs cs' = IsSound cs' × Grows (cs.mbtypes).typenum (cs'.mbtypes).typenum

-- A change of a session that keeps this, and every type.
abbrev pub Keeps : Session → Session → Type 0
Keeps cs cs' = IsSound cs → Kept cs cs'

pub Kept-trans : (a b c : Session) → Kept a b → Kept b c → Kept a c
Kept-trans a b c h k = (k.0, λ t e. k.1 t (h.1 t e))

pub Keeps-trans : (a b c : Session) → Keeps a b → Keeps b c → Keeps a c
Keeps-trans a b c f g s = ((g (f s).0).0, λ k h. (g (f s).0).1 k ((f s).1 k h))

pub Keeps-of_same :
    (cs cs' : Session) → cs'.mbtypes ≡ cs.mbtypes → cs'.mbdevices ≡ cs.mbdevices → Keeps cs cs'
Keeps-of_same cs cs' e f s =
    (record { tables = rw e s.tables; devices = rw (e, f) s.devices }, λ k h. rw e h)

pub IsServed-Grows :
    (t t' : Ranges) (m : Map Text MbDevices)
    → Grows t t'
    → AllValues (IsServed t) m
    → AllValues (IsServed t') m
IsServed-Grows t t' m g = AllValues-imp (IsServed t) (IsServed t') m (λ d h e. g d.type (h e))

-- A new device has no slave.
pub new_mbdevices-IsServed : (t : Ranges) → IsServed t new_mbdevices
unfolding empty
new_mbdevices-IsServed t e = cc

pub found-IsServed :
    (t : Ranges) (sid : Text) (m : Map Text MbDevices)
    → AllValues (IsServed t) m
    → AllValues (IsServed t) (modify new_mbdevices sid (λ d. d) m)
found-IsServed t sid m h =
    modify-AllValues (IsServed t) new_mbdevices sid (λ d. d) m (new_mbdevices-IsServed t) (λ d s. s)
      h

-- A predicate of a result, if there is one.
abbrev pub IfSome {ℓ κ} : {A : Type ℓ} → (A → Type κ) → Option A → Type κ
IfSome P none = Unit
IfSome P (some a) = P a
