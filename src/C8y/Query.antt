-- ===== src/C8y/Query.antt =====
-- src/c8y.cpp: questions to the platform.
use modbus_ssa_project.Prelude.{
  ℕ, Bool, ◌&&◌, List, [], ◌∷◌, ◌++◌, Option, none, some, if◌then◌else◌, ◌==◌,
}
use modbus_ssa_project.Prelude.Int.{ℤ, pos, lt_ℤ}
use modbus_ssa_project.Prelude.Text.{Text, text, empty, atoi}
use modbus_ssa_project.Model.{SrRecord}
use modbus_ssa_project.Model.Dispatch.{is}
use modbus_ssa_project.Platform.{Platform}

-- `r.size() == n && r.value(0) == id`
abbrev pub is_sized : ℕ → Text → SrRecord → Bool
is_sized n id r = r.size == n && is r id

module _ (pf : Platform) where
  open pf use {World, post, response, clear, agent_id}

  -- A post, and whether its result is positive.
  abbrev pub post_ok : Text → World → Bool × World
  post_ok s w = let (n, w') = post s w in (lt_ℤ (pos 0) n, w')

  -- The answer to 133: the first line 801 of three values gives the sid, which 302 confirms.
  -- `none`: a post failed, and the function returns an empty text.
  unfoldable pub created : Text → List SrRecord → Text → World → Option Text × World
  created did [] sid w = (some sid, w)
  created did (r ∷ rs) sid w =
      let rest = created did rs sid w in
      let (ok, w') = post_ok (text "302," ++ (r.value 2 ++ (text "," ++ did))) w in
      if is_sized 3 (text "801") r
      then (if ok then (some (r.value 2), clear w') else (none, w'))
      else rest

  -- The answer to 300: a line 50 has the device created, a line 800 of three values knows it.
  unfoldable pub known : Text → List SrRecord → Text → World → Option Text × World
  unfolding created
  known did [] sid w = (some sid, w)
  known did (r ∷ rs) sid w =
      let (ok, asked) = post_ok (text "133," ++ (did ++ text ",\"modbus_DTU\"")) (clear w) in
      let (made, w') = created did (response asked) sid asked in
      let after_creation : Option Text × World = elim made [
        | none ↦ (none, w')
        | some sid' ↦ known did rs sid' w'
      ] in
      let rest = known did rs sid w in
      if is r (text "50")
      then (if ok then after_creation else (none, asked))
      else if is_sized 3 (text "800") r
      then (some (r.value 2), clear w)
      else rest

  -- getDevInfo: the sid of a device, or an empty text.
  unfoldable pub get_dev_info : Text → World → Text × World
  unfolding known
  get_dev_info did w =
      let (ok, asked) = post_ok (text "300," ++ did) (clear w) in
      let (found, w') = known did (response asked) [] asked in
      if ok
      then elim found [
        | none ↦ ([], w')
        | some sid ↦
            if empty sid
            then ([], w')
            else (sid, (post (text "132," ++ (agent_id ++ (text "," ++ sid))) w').1)
      ]
      else ([], asked)

  unfoldable pub properties : List SrRecord → List ℤ
  properties [] = []
  properties (r ∷ rs) =
      let rest = properties rs in
      if is_sized 4 (text "900") r then atoi (r.value 2) ∷ atoi (r.value 3) ∷ rest else rest

  -- getProperties
  unfoldable pub get_properties : Text → World → List ℤ × World
  unfolding properties
  get_properties sid w =
      let (n, w') = post (text "309," ++ sid) w in
      if lt_ℤ (pos 0) n then (properties (response w'), clear w') else ([], w')

  abbrev quoted : Text → Text
  quoted x = 34 ∷ 34 ∷ [] ++ (x ++ 34 ∷ 34 ∷ [])

  -- The operations that a gateway supports.
  abbrev ops : Text
  ops =
      text ","
      ++ (34 ∷ []
          ++ (quoted (text "c8y_Command")
              ++ (text ","
                  ++ (quoted (text "c8y_ModbusDevice")
                      ++ (text ","
                          ++ (quoted (text "c8y_SetRegister")
                              ++ (text ","
                                  ++ (quoted (text "c8y_ModbusConfiguration")
                                      ++ (text ","
                                          ++ (quoted (text "c8y_SerialConfiguration")
                                              ++ (text ","
                                                  ++ (quoted (text "c8y_SetCoil")
                                                      ++ (text ","
                                                          ++ (quoted (text "c8y_LogfileRequest")
                                                            ++ (text ","
                                                            ++ (quoted
                                                            (text "c8y_RemoteAccessConnect")
                                                            ++ 34 ∷ []))))))))))))))))

  -- setModbusParms
  unfoldable pub set_modbus_parms : Text → World → World
  set_modbus_parms sid w =
      let msg =
        text "327,"
        ++ (sid
            ++ (ops
                ++ (text " "
                    ++ (10 ∷ []
                        ++ (text "321,"
                            ++ (sid
                                ++ (text ",5,3600"
                                    ++ (10 ∷ []
                                        ++ (text "335,"
                                            ++ (sid ++ (text ",9600,8,N,1" ++ 10 ∷ []))))))))))) in
      clear (post msg w).1
