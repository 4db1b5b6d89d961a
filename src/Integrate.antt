-- ===== src/Integrate.antt =====
-- src/integrate.cpp: the registration of the gateway itself with the platform. The registration of
-- the template is the agent library's, a parameter.
use modbus_ssa_project.Prelude.{Bool, ◌&&◌, not, List, [], ◌∷◌, ◌++◌, if◌then◌else◌, ◌==◌}
use modbus_ssa_project.Prelude.Int.{ℤ, pos, negsuc}
use modbus_ssa_project.Prelude.Text.{Text, text}
use modbus_ssa_project.Model.{SrRecord}
use modbus_ssa_project.Model.Dispatch.{is}
use modbus_ssa_project.Platform.{Platform}
use modbus_ssa_project.C8y.Query.{post_ok, is_sized}

-- `sr.next()` of a fresh answer: its first line, or one of no values.
abbrev pub first : List SrRecord → SrRecord
first [] = record { size = 0; value = λ i. [] }
first (r ∷ rs) = r

-- What integrate returns, and the member `id` after it.
pub record Integrated : Type 0 where
  pub code : ℤ
  pub id : Text

module _ (pf : Platform) (register : Text → (pf.World) → Bool × (pf.World)) where
  open pf use {World, response, clear}

  -- Step 5 to 8: the gateway is created, and its id confirmed.
  unfoldable pub create : Text → Text → World → Integrated × World
  create device_id id w =
      let (ok, added) = post_ok pf (text "301," ++ (device_id ++ text ",30")) (clear w) in
      let r = first (response added) in
      let given = r.value 2 in
      let (ok', confirmed) = post_ok pf (text "302," ++ (given ++ (text "," ++ device_id))) added in
      if not ok
      then (record { code = negsuc 0; id = id }, added)
      else if is_sized 3 (text "801") r
      then (if ok'
          then (record { code = pos 0; id = given }, clear confirmed)
          else (record { code = negsuc 0; id = given }, confirmed))
      else (record { code = negsuc 0; id = id }, added)

  -- integrate
  unfoldable pub integrate : Text → Text → Text → World → Integrated × World
  unfolding create
  integrate device_id srt id w =
      let (registered, w₁) = register srt w in
      let (ok, asked) = post_ok pf (text "300," ++ device_id) (clear w₁) in
      let r = first (response asked) in
      if not registered
      then (record { code = negsuc 0; id = id }, w₁)
      else if not ok
      then (record { code = negsuc 0; id = id }, asked)
      else if not (r.size == 0) && is r (text "50")
      then create device_id id asked
      else if is_sized 3 (text "800") r
      then (record { code = pos 0; id = r.value 2 }, clear asked)
      else (record { code = negsuc 0; id = id }, asked)
