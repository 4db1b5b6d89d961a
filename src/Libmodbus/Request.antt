-- ===== src/Libmodbus/Request.antt =====
-- The requests of class Modbus over a serial line.
use modbus_ssa_project.Prelude.{
  ℕ, suc, ◌-◌, ◌/◌, ◌%◌, ◌^◌, ◌≤◌, ◌<◌, true, List, [], ◌∷◌, ◌++◌, ◌≡◌, refl, ap, if◌then◌else◌,
  some, arith,
}
use modbus_ssa_project.Prelude.Int.{ℤ, pos, negsuc, ◌-ℤ◌, eq_ℤ}
use modbus_ssa_project.Prelude.Text.{text, same}
use modbus_ssa_project.Crc.{crc16}
use modbus_ssa_project.Frame.{check_crc}
use modbus_ssa_project.Frame.Corrupt.{with_crc, check_crc-with_crc, crc16-lt}
use modbus_ssa_project.Libmodbus.{
  Library, rtu, modbus_library, new_modbus, init, build, bytes_or_none,
}

-- An `int` as a `uint16_t`.
abbrev pub word : ℤ → ℕ
word (pos n) = n % 2 ^ 16
word (negsuc n) = 2 ^ 16 - 1 - n % 2 ^ 16

-- What the modbus library documents of RTU: a request is the slave, the function, and the address and
-- the number with the high byte first; the checksum is appended, its low byte first.
pub record IsRtu (lib : Library) : Type 0 where
  pub allocates : lib.malloc rtu ≡ true
  pub sets : (slave : ℕ) → slave ≤ 247 → lib.set_slave rtu (pos slave) ≡ pos 0
  pub builds :
      (slave func : ℕ) (addr nb : ℤ)
      → lib.build_request_basis rtu (pos slave) func addr nb
        ≡ slave
          ∷ func
          ∷ (word addr / 256)
          ∷ (word addr % 256)
          ∷ (word nb / 256)
          ∷ (word nb % 256)
          ∷ []
  pub completes :
      (bytes : List ℕ)
      → lib.send_msg_pre rtu bytes ≡ bytes ++ (crc16 bytes % 256) ∷ (crc16 bytes / 256) ∷ []

-- A request for the address `addr`, which counts from 0.
abbrev pub request_body : ℕ → ℕ → ℕ → ℕ → List ℕ
request_body slave func addr nb =
    slave ∷ func ∷ (addr / 256) ∷ (addr % 256) ∷ (nb / 256) ∷ (nb % 256) ∷ []

abbrev pub request_bytes : ℕ → ℕ → ℕ → ℕ → List ℕ
request_bytes slave func addr nb =
    with_crc (request_body slave func addr nb) (crc16 (request_body slave func addr nb))

module _ (lib : Library) (documented : IsRtu lib) where
  open documented use {allocates, sets, builds, completes}

  set_up :
      (slave : ℕ)
      → slave ≤ 247
      → ((init lib (text "RTU") (pos slave) new_modbus).1).ctx ≡ some (rtu, pos slave)
  unfolding init same
  set_up slave h = ground (arith, allocates, sets slave h)

  built :
      (slave func : ℕ) (addr nb : ℤ) (a n : ℕ)
      → slave ≤ 247
      → word addr ≡ a
      → word nb ≡ n
      → build lib func addr nb (init lib (text "RTU") (pos slave) new_modbus).1
        ≡ some (request_bytes slave func a n)
  unfolding build
  built slave func addr nb a n h ha hn =
      rw (build, set_up slave h, builds slave func addr nb, completes, ha, hn) refl

  -- Over a serial line, with a modbus library as documented, the request for a point's number asks
  -- for the address below it, and the requests to write a coil or a register name that address, with
  -- 0xFF00 for every positive value of a coil. Each request passes the gateway's own test of
  -- checksums.
  pub requests :
      (slave func point count value : ℕ)
      → slave ≤ 247
      → func < 256
      → point < 2 ^ 16
      → count < 2 ^ 16
      → ((modbus_library lib).read_bat (text "RTU") (pos slave) (pos (suc point)) (pos count) func
          ≡ request_bytes slave func point count)
        × ((modbus_library lib).write_co
              (text "RTU")
              (pos slave)
              (pos (suc point))
              (pos (suc value))
            ≡ request_bytes slave 5 point 0xFF00)
        × ((modbus_library lib).write_hr (text "RTU") (pos slave) (pos (suc point)) (pos count)
            ≡ request_bytes slave 6 point count)
        × (check_crc (request_bytes slave func point count) 8 ≡ pos 0)
        × (check_crc (request_bytes slave 5 point 0xFF00) 8 ≡ pos 0)
        × (check_crc (request_bytes slave 6 point count) 8 ≡ pos 0)
  unfolding modbus_library ◌-ℤ◌
  requests slave func point count value hs hf hp hc = (
    ap bytes_or_none (
        built slave func (pos (suc point) -ℤ pos 1) (pos count) point count hs numbered
          (omega arith)),
    ap bytes_or_none (
        built slave 5 (pos (suc point) -ℤ pos 1)
          (if eq_ℤ (pos (suc value)) (pos 0) then pos 0 else pos 0xFF00) point 0xFF00 hs numbered
          switched),
    ap bytes_or_none (
        built slave 6 (pos (suc point) -ℤ pos 1) (pos count) point count hs numbered (omega arith)),
    passes func count hf hc,
    passes 5 0xFF00 (omega arith) (omega arith),
    passes 6 count (omega arith) hc,
  )
    where
      numbered : word (pos (suc point) -ℤ pos 1) ≡ point
      numbered = ground arith

      switched : word (if eq_ℤ (pos (suc value)) (pos 0) then pos 0 else pos 0xFF00) ≡ 0xFF00
      switched = ground arith

      passes :
          (f n : ℕ) → f < 256 → n < 2 ^ 16 → check_crc (request_bytes slave f point n) 8 ≡ pos 0
      passes f n h k = ground (
        arith,
        check_crc-with_crc (request_body slave f point n) (crc16 (request_body slave f point n))
            (omega arith) (crc16-lt (request_body slave f point n) (omega arith)),
      )
