-- ===== src/Session/Polling/Address.antt =====
-- The address of a request is kept as text (`_current_num`), and is read back from it when the
-- response is (src/client_session.cpp, src/modbus_p.cpp).
use modbus_ssa_project.Prelude.{ℕ, ◌==◌, Bool, false, List, some, ◌≡◌, ap, ◌∙◌, arith}
use modbus_ssa_project.Prelude.Int.{ℤ}
use modbus_ssa_project.Prelude.Text.{Text, atoi, to_string}
use modbus_ssa_project.Prelude.Map.{text_key}
use modbus_ssa_project.Prelude.Decimal.{atoi-to_string}
use modbus_ssa_project.Model.{RangeMap}
use modbus_ssa_project.Parse.Sid.{get_sid}
use modbus_ssa_project.Parse.Coils.{Located, locate}
use modbus_ssa_project.Session.Record.{Session}
use modbus_ssa_project.Session.Machine.{Machine, on_cs, write}
use modbus_ssa_project.Session.Polling.{ModbusLibrary, Polled, Place, goes, request}

get_sid-num : (cs : Session) → ((get_sid cs).1).current_num ≡ cs.current_num
unfolding get_sid
get_sid-num cs = ground arith

locate-cn :
    (place : ℕ) (cs : Session) (l : Located) → locate place cs ≡ some l → l.cn ≡ atoi cs.current_num
unfolding locate
locate-cn place cs l e = ground (arith, get_sid-num cs)

module _ (mb : ModbusLibrary) where
  request-num :
      (sid : Text) (d : Polled) (kind : ℕ) (vector : List RangeMap) (first count : ℤ)
      (ranges : RangeMap) (m n : Machine) (q : Place)
      → ((m.cs).flag == 1) ≡ false
      → request mb sid d kind vector first count ranges m ≡ goes q n
      → (n.cs).current_num ≡ to_string first
  unfolding request on_cs write
  request-num sid d kind vector first count ranges m n q go e = ground arith

  -- A response is read at the address that was asked for: whatever bytes have come since the request,
  -- where the coils or discrete inputs of the response are located, their first address is the one of
  -- the request, unless the slave's time had run out before.
  pub request-locate :
      (sid : Text) (d : Polled) (kind place : ℕ) (vector : List RangeMap) (first count : ℤ)
      (ranges : RangeMap) (m n : Machine) (q : Place) (bytes : List ℕ) (len : ℕ) (tcp_flag : Bool)
      (l : Located)
      → ((m.cs).flag == 1) ≡ false
      → request mb sid d kind vector first count ranges m ≡ goes q n
      → locate place (record (n.cs) { buffer = bytes; len = len; tcp_flag = tcp_flag }) ≡ some l
      → l.cn ≡ first
  request-locate sid d kind place vector first count ranges m n q bytes len tcp_flag l go e found =
      locate-cn place (record (n.cs) { buffer = bytes; len = len; tcp_flag = tcp_flag }) l found
      ∙ (ap atoi (request-num sid d kind vector first count ranges m n q go e)
          ∙ atoi-to_string first)
