-- ===== src/Model/Devices.antt =====
-- src/modbus_model.cpp: class MBDEVICES, the child devices of a session.
use modbus_ssa_project.Prelude.{List, [], ◌∷◌, ◌++◌, none, some, ◌==◌, if◌then◌else◌}
use modbus_ssa_project.Prelude.Text.{Text, text, same, behind}
use modbus_ssa_project.Prelude.Map.{Map, text_key, modify, assign, insert, contains, erase}
use modbus_ssa_project.Model.{
  SrRecord, new_mbtypes, RangeMap, MbTypeTable, new_mbdevices, DeviceTable,
}

-- The type of a device: what follows the path of the inventory in its link.
unfoldable pub type_of_link : Text → Text
type_of_link link = elim (behind (text "/inventory/managedObjects/") link) [
  | none ↦ []
  | some rest ↦ rest
]

-- The four range maps of a type, pushed behind those that are there.
unfoldable pub push_ranges : Text → Map Text (List RangeMap) → Map Text (List RangeMap)
push_ranges type m = modify [] type (λ v. v ++ [] ∷ [] ∷ [] ∷ [] ∷ []) m

-- 816, 847, 832, 848
unfoldable pub add_device : SrRecord → DeviceTable × MbTypeTable → DeviceTable × MbTypeTable
unfolding type_of_link push_ranges
add_device r (devices, s) =
    let slave = r.value 3 in
    let sid = r.value 4 in
    let name = r.value 6 in
    let s_type = type_of_link (r.value 5) in
    let ops_id = if r.size == 9 then r.value 8 else [] in
    let addr = if same (r.value 2) (text "TCP") then r.value 2 else [] in
    let inserted = insert sid new_mbdevices devices in
    let filled =
      modify new_mbdevices sid
        (λ d. record d { name = name; addr = addr; slave = slave; type = s_type; ops_id = ops_id })
        inserted in
    let typenum = if contains s_type filled then erase s_type s.typenum else s.typenum in
    (
      filled,
      record s { types = assign s_type new_mbtypes s.types; typenum = push_ranges s_type typenum },
    )

-- Forgets what a poll has collected; `forward_msg` stays.
unfoldable pub clear : Text → DeviceTable → DeviceTable
clear sid devices =
    modify new_mbdevices sid
      (λ d. record d {
        template_msg = [];
        co_num = 0;
        di_num = 0;
        hr_num = 0;
        ir_num = 0;
        co = [];
        di = [];
        hr = [];
        ir = [];
      })
      devices
