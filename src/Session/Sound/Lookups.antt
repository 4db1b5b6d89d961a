-- ===== src/Session/Sound/Lookups.antt =====
-- The look-ups of a response's device (src/modbus_p.cpp) keep a session sound.
use modbus_ssa_project.Prelude.{
  ℕ, [], some, get_elem?, set, length-set, ◌≡◌, Option-cases, inl, inr, arith,
}
use modbus_ssa_project.Prelude.Text.{Text}
use modbus_ssa_project.Prelude.Map.{
  text_key, get, contains-assign, modify, assign, modify-AllValues, assign-AllValues, get-AllValues,
  get-AllValues_of_contains,
}
use modbus_ssa_project.Model.{RangeMap, MbDevices, new_mbdevices, new_mbtypes}
use modbus_ssa_project.Model.WellFormed.{IsTyped, FourMaps, new-IsTyped, known_of_map}
use modbus_ssa_project.Parse.Sid.{get_sid}
use modbus_ssa_project.Parse.Coils.{Located, locate, put_device}
use modbus_ssa_project.Parse.Registers.{locate_device}
use modbus_ssa_project.Session.Record.{Session}
use modbus_ssa_project.Session.Sound.{
  Ranges, Grows, IsServed, IsSound, Keeps, Keeps-of_same, new_mbdevices-IsServed, found-IsServed,
  IsServed-Grows, IfSome,
}

pub get_sid-Keeps : (cs : Session) → Keeps cs (get_sid cs).1
get_sid-Keeps cs = Keeps-of_same cs (get_sid cs).1 (types cs) (devices cs)
  where
    types : (cs : Session) → ((get_sid cs).1).mbtypes ≡ cs.mbtypes
    types cs = unfold get_sid in ground arith

    devices : (cs : Session) → ((get_sid cs).1).mbdevices ≡ cs.mbdevices
    devices cs = unfold get_sid in ground arith

-- A device that keeps its type and slave.
pub put_device-Keeps :
    (sid : Text) (d : MbDevices) (cs : Session)
    → IsServed (cs.mbtypes).typenum d
    → Keeps cs (put_device sid d cs)
unfolding put_device
put_device-Keeps sid d cs h s = (
  record {
    tables = s.tables;
    devices = assign-AllValues (IsServed (cs.mbtypes).typenum) sid d cs.mbdevices h s.devices;
  },
  λ k e. e,
)

-- The entries that look-ups create.
pub looked-Keeps :
    (sid type : Text) (cs : Session)
    → Keeps cs (record cs {
      mbdevices = modify new_mbdevices sid (λ d. d) cs.mbdevices;
      mbtypes = record (cs.mbtypes) { types = modify new_mbtypes type (λ t. t) (cs.mbtypes).types };
    })
looked-Keeps sid type cs s = (
  record {
    tables = record {
      typed =
          modify-AllValues IsTyped new_mbtypes type (λ t. t) (cs.mbtypes).types new-IsTyped
            (λ t h. h) (s.tables).typed;
      vectors = (s.tables).vectors;
    };
    devices = found-IsServed (cs.mbtypes).typenum sid cs.mbdevices s.devices;
  },
  λ k e. e,
)

pub device-IsServed :
    (sid : Text) (cs : Session)
    → IsSound cs
    → IsServed
        (cs.mbtypes).typenum
        (get new_mbdevices sid (modify new_mbdevices sid (λ d. d) cs.mbdevices))
device-IsServed sid cs s =
    get-AllValues (IsServed (cs.mbtypes).typenum) new_mbdevices sid
      (modify new_mbdevices sid (λ d. d) cs.mbdevices) (new_mbdevices-IsServed (cs.mbtypes).typenum)
      (found-IsServed (cs.mbtypes).typenum sid cs.mbdevices s.devices)

-- A vector with one of its maps replaced.
replaced-Keeps :
    (type : Text) (place : ℕ) (before after : RangeMap) (cs : Session)
    → get_elem? (get [] type (cs.mbtypes).typenum) place ≡ some before
    → Keeps cs (record cs {
      mbtypes = record (cs.mbtypes) {
        typenum =
            assign type (set (get [] type (cs.mbtypes).typenum) place after) (cs.mbtypes).typenum;
      };
    })
replaced-Keeps type place before after cs e s = (
  record {
    tables = record {
      typed = (s.tables).typed;
      vectors =
          assign-AllValues FourMaps type _ t
            (rw (length-set (get [] type t) place after) (
              get-AllValues_of_contains FourMaps [] type t (known_of_map type t place before e)
                (s.tables).vectors))
            (s.tables).vectors;
    };
    devices = IsServed-Grows t _ cs.mbdevices grows s.devices;
  },
  grows,
)
  where
    t : Ranges
    t = (cs.mbtypes).typenum

    grows : Grows t (assign type (set (get [] type t) place after) t)
    grows k h = contains-assign type k _ t h

-- What parseCO and parseDI look up.
pub Looked : Session → Located → Type 0
Looked cs l =
    IsSound cs
    → (IsSound l.cs × Grows (cs.mbtypes).typenum ((l.cs).mbtypes).typenum)
      × IsServed ((l.cs).mbtypes).typenum l.device

pub locate-Looked : (place : ℕ) (cs : Session) → IfSome (Looked cs) (locate place cs)
unfolding locate Looked
locate-Looked place cs₀ =
    elim (Option-cases (get_elem? (get [] d.type (cs.mbtypes).typenum) place)) [
      | inl e ↦ rw e tt
      | inr (m, e) ↦ rw e (located m _ e)
    ]
  where
    cs : Session
    cs = (get_sid cs₀).1

    d : MbDevices
    d =
        get new_mbdevices (get_sid cs₀).0
          (modify new_mbdevices (get_sid cs₀).0 (λ d. d) cs.mbdevices)

    looked : Session
    looked = record cs {
      mbdevices = modify new_mbdevices (get_sid cs₀).0 (λ d. d) cs.mbdevices;
      mbtypes = record (cs.mbtypes) {
        types = modify new_mbtypes d.type (λ t. t) (cs.mbtypes).types;
      };
    }

    finally : RangeMap → Session
    finally after = record looked {
      mbtypes = record (looked.mbtypes) {
        typenum =
            assign d.type (set (get [] d.type (cs.mbtypes).typenum) place after)
              (cs.mbtypes).typenum;
      };
    }

    located :
        (before : RangeMap)
        → (after : RangeMap) → get_elem? (get [] d.type (cs.mbtypes).typenum) place ≡ some before
        → IsSound cs₀
        → (IsSound (finally after) × Grows (cs₀.mbtypes).typenum ((finally after).mbtypes).typenum)
          × IsServed ((finally after).mbtypes).typenum d
    located before after e s =
        let named = get_sid-Keeps cs₀ s in
        let there = looked-Keeps (get_sid cs₀).0 d.type cs named.0 in
        let set_there = replaced-Keeps d.type place before after looked e there.0 in
        (
          (set_there.0, λ k h. set_there.1 k (there.1 k (named.1 k h))),
          λ h. set_there.1 d.type (device-IsServed (get_sid cs₀).0 cs named.0 h),
        )

pub put_located-Keeps :
    (cs : Session) (l : Located) (d : MbDevices)
    → d.type ≡ (l.device).type
    → d.slave ≡ (l.device).slave
    → Looked cs l
    → Keeps cs (put_device l.sid d l.cs)
unfolding Looked
put_located-Keeps cs l d type slave looked s =
    let found = looked s in
    let put = put_device-Keeps l.sid d l.cs (rw (type, slave) found.1) (found.0).0 in
    (put.0, λ k h. put.1 k ((found.0).1 k h))

pub locate_device-Keeps :
    (cs : Session) (d : MbDevices)
    → d.type ≡ ((locate_device cs).1).type
    → d.slave ≡ ((locate_device cs).1).slave
    → Keeps cs (put_device (locate_device cs).0 d (locate_device cs).3)
unfolding locate_device
locate_device-Keeps cs d type slave s =
    let sid = (get_sid cs).0 in
    let named = get_sid-Keeps cs s in
    let there = looked-Keeps sid _ (get_sid cs).1 named.0 in
    let put =
      put_device-Keeps sid d _ (rw (type, slave) (device-IsServed sid (get_sid cs).1 named.0))
        there.0 in
    (put.0, λ k h. put.1 k (there.1 k (named.1 k h)))
