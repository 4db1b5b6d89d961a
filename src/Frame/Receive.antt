-- ===== src/Frame/Receive.antt =====
-- The reading loop of `onRead` (src/client_session.cpp) over `checkMsg`: a stream brings a message
-- in pieces, each read asks for what the check says is missing, and the message is complete with
-- its last byte, however it was cut.
use modbus_ssa_project.Prelude.{
  ℕ, zero, suc, ◌+◌, ◌-◌, ◌%◌, ◌^◌, ◌≤◌, ◌<◌, ◌≡◌, ◌≢◌, refl, sym, ◌∙◌, ap, ◌⊎◌, inl, inr, Bool,
  false, ◌||◌, List, [], ◌∷◌, ◌++◌, Option, none, some, arith, dec_lt, if◌then◌else◌, ltb, ◌==◌,
  length, take, replicate, take-append_le, take-length, get_or-append,
}
use modbus_ssa_project.Prelude.Int.{ℤ, pos, negsuc}
use modbus_ssa_project.Prelude.Text.{text, starts_with}
use modbus_ssa_project.Frame.{byte, check_crc, check_msg}

-- The buffer when `len` bytes of a message have come; it was cleared before.
abbrev pub buffer_at : List ℕ → ℕ → List ℕ
buffer_at message len = take len message ++ replicate (1024 - len) 0

-- How a round of reads ends: with the code of the last check, after so many bytes.
pub record Ending : Type 0 where
  pub code : ℤ
  pub bytes : ℕ

-- `async_read_some` for `need` bytes brings at least one and `need` at most; `pieces` says how
-- many more than one the stream has at hand each time. `none`: the stream has not brought enough.
unfoldable pub read_loop : List ℕ → List ℕ → ℕ → ℕ → Bool → Option Ending
read_loop message [] len need flag = none
read_loop message (piece ∷ pieces) len need flag =
    let brought = if ltb piece need then suc piece else need in
    let check = check_msg (buffer_at message (len + brought)) (len + brought) flag in
    elim check.result [
      | pos zero ↦ some (record { code = pos 0; bytes = len + brought })
      | pos (suc more) ↦ read_loop message pieces (len + brought) (suc more) check.tcp_flag
      | negsuc n ↦ some (record { code = negsuc n; bytes = len + brought })
    ]

-- A response of a device over RTU: neither a heartbeat nor Modbus TCP, as the third byte tells.
pub record IsResponse (message : List ℕ) : Type 0 where
  pub no_heartbeat : starts_with (text "LZH") (take 3 message) ≡ false
  pub rtu : byte message 2 ≢ 0

-- How long such a message is, from its function code and its third byte.
abbrev pub response_length : List ℕ → ℕ
response_length message =
    if byte message 1 == 0x05 || byte message 1 == 0x06
    then 8
    else if ltb 0x80 (byte message 1)
    then 5
    else byte message 2 + 5

-- What the check of a complete message says: single writes (5, 6) are not checked.
abbrev pub verdict : List ℕ → ℤ
verdict message =
    if byte message 1 == 0x05 || byte message 1 == 0x06
    then pos 0
    else check_crc message (length message)

-- How many bytes are to be read next.
abbrev need_at : List ℕ → ℕ → ℕ
need_at message len = if ltb len 3 then 3 - len else response_length message - len

response_length-ge : (m : List ℕ) → 5 ≤ response_length m
response_length-ge m = ground arith

check_partial :
    (a b c : ℕ) (rest : List ℕ) (len : ℕ) (flag : Bool)
    → IsResponse (a ∷ b ∷ c ∷ rest)
    → len < response_length (a ∷ b ∷ c ∷ rest)
    → (check_msg (buffer_at (a ∷ b ∷ c ∷ rest) len) len flag).result
      ≡ pos (need_at (a ∷ b ∷ c ∷ rest) len)
unfolding check_msg starts_with
check_partial a b c rest zero flag v h = refl
check_partial a b c rest (suc zero) flag v h = refl
check_partial a b c rest (suc (suc zero)) flag v h = refl
check_partial a b c rest (suc (suc (suc k))) flag v h = ground (arith, v.no_heartbeat, v.rtu)

-- What lies in the buffer behind a message does not change its checksum.
check_crc-append :
    (m rest : List ℕ) → 2 ≤ length m → check_crc (m ++ rest) (length m) ≡ check_crc m (length m)
unfolding check_crc
check_crc-append m rest h =
    rw
      (
        take-append_le ((length m - 2) % 2 ^ 16) m rest (omega arith),
        get_or-append m rest (length m - 1) 0 (omega arith),
        get_or-append m rest (length m - 2) 0 (omega arith),
      )
      refl

check_final :
    (a b c : ℕ) (rest : List ℕ) (flag : Bool)
    → IsResponse (a ∷ b ∷ c ∷ rest)
    → length (a ∷ b ∷ c ∷ rest) ≡ response_length (a ∷ b ∷ c ∷ rest)
    → (check_msg
        (buffer_at (a ∷ b ∷ c ∷ rest) (suc (suc (suc (length rest)))))
        (suc (suc (suc (length rest))))
        flag).result
      ≡ verdict (a ∷ b ∷ c ∷ rest)
unfolding check_msg starts_with
check_final a b c rest flag v h =
    let zeros : List ℕ = replicate (1024 - suc (suc (suc (length rest)))) 0 in
    rw (take-length rest) (
      ground
        (arith, v.no_heartbeat, v.rtu, check_crc-append (a ∷ b ∷ c ∷ rest) zeros (omega arith)))

-- One round that is not the last.
read_loop-more :
    (m : List ℕ) (piece : ℕ) (pieces : List ℕ) (len need more : ℕ) (flag : Bool)
    → (let brought = if ltb piece need then suc piece else need in
        (check_msg (buffer_at m (len + brought)) (len + brought) flag).result ≡ pos (suc more))
    → let brought = if ltb piece need then suc piece else need in
      read_loop m (piece ∷ pieces) len need flag
      ≡ read_loop m pieces
          (len + brought)
          (suc more)
          (check_msg (buffer_at m (len + brought)) (len + brought) flag).tcp_flag
unfolding read_loop
read_loop-more m piece pieces len need more flag e = rw (e, read_loop) refl

-- One round that is the last, with the code 0 or a negative one.
read_loop-last :
    (m : List ℕ) (piece : ℕ) (pieces : List ℕ) (len need : ℕ) (code : ℤ) (flag : Bool)
    → (code ≡ pos 0) ⊎ (code ≡ negsuc 1)
    → (let brought = if ltb piece need then suc piece else need in
        (check_msg (buffer_at m (len + brought)) (len + brought) flag).result ≡ code)
    → let brought = if ltb piece need then suc piece else need in
      read_loop m (piece ∷ pieces) len need flag
      ≡ some (record { code = code; bytes = len + brought })
unfolding read_loop
read_loop-last m piece pieces len need code flag (inl q) e = rw (e, read_loop, q) refl
read_loop-last m piece pieces len need code flag (inr q) e = rw (e, read_loop, q) refl

verdict-cases : (m : List ℕ) → (verdict m ≡ pos 0) ⊎ (verdict m ≡ negsuc 1)
unfolding check_crc
verdict-cases m = ground arith

brought_bounds :
    (piece need : ℕ)
    → 0 < need
    → (0 < (if ltb piece need then suc piece else need))
      × ((if ltb piece need then suc piece else need) ≤ need)
brought_bounds piece need h = ground arith

module _ (a b c : ℕ) (rest : List ℕ) (v : IsResponse (a ∷ b ∷ c ∷ rest))
    (whole : length (a ∷ b ∷ c ∷ rest) ≡ response_length (a ∷ b ∷ c ∷ rest)) where
  abbrev message : List ℕ
  message = a ∷ b ∷ c ∷ rest

  ends : Ending
  ends = record { code = verdict message; bytes = length message }

  -- After a read that brought `k` bytes: the message is complete, or the loop goes on.
  read_loop-finish :
      (piece : ℕ) (pieces : List ℕ) (len k : ℕ) (flag : Bool)
      → k ≡ (if ltb piece (need_at message len) then suc piece else need_at message len)
      → len + k ≡ length message
      → read_loop message (piece ∷ pieces) len (need_at message len) flag ≡ some ends
  unfolding ends
  read_loop-finish piece pieces len k flag q e =
      read_loop-last message piece pieces len (need_at message len) (verdict message) flag
        (verdict-cases message) (rw (sym q, e) (check_final a b c rest flag v whole))
      ∙ rw (sym q, e) refl

  -- What is asked for is missing, and no more than is missing.
  need_at-bounds :
      (len : ℕ)
      → len < length message
      → (0 < need_at message len) × (len + need_at message len ≤ length message)
  need_at-bounds len h = ground (arith, response_length-ge message)

  read_loop-goes_on :
      (piece : ℕ) (pieces : List ℕ) (len k : ℕ) (flag : Bool)
      → k ≡ (if ltb piece (need_at message len) then suc piece else need_at message len)
      → len + k < length message
      → read_loop message (piece ∷ pieces) len (need_at message len) flag
        ≡ read_loop message pieces
            (len + k)
            (need_at message (len + k))
            (check_msg (buffer_at message (len + k)) (len + k) flag).tcp_flag
  read_loop-goes_on piece pieces len k flag q h =
      read_loop-more message piece pieces len (need_at message len) (need_at message (len + k) - 1)
        flag
        (rw (sym q)
          (check_partial a b c rest (len + k) flag v (omega (arith, whole)) ∙ ap pos positive))
      ∙ rw (sym q, sym positive) refl
    where
      positive : need_at message (len + k) ≡ suc (need_at message (len + k) - 1)
      positive = omega (arith, (need_at-bounds (len + k) h).0)

  read_loop-ends :
      (pieces : List ℕ) (len : ℕ) (flag : Bool)
      → len < length message
      → length message ≤ length pieces + len
      → read_loop message pieces len (need_at message len) flag ≡ some ends
  read_loop-ends [] len flag h enough = absurd (omega arith)
  read_loop-ends (piece ∷ pieces) len flag h enough =
      let k : ℕ = if ltb piece (need_at message len) then suc piece else need_at message len in
      let n = need_at-bounds len h in
      let b = brought_bounds piece (need_at message len) n.0 in
      elim (dec_lt (len + k) (length message)) [
        | yes more ↦
            read_loop-goes_on piece pieces len k flag refl more
            ∙ read_loop-ends pieces (len + k) _ more (omega (arith, b.0))
        | no done ↦ read_loop-finish piece pieces len k flag refl (omega (arith, b.1, n.1))
      ]

-- A response over RTU arrives whole, however the stream cuts it: for a message that is as long as
-- its function code and third byte say, and a stream that goes on long enough, the reads that
-- begin with three bytes into an empty buffer end after exactly its last byte, with the verdict on
-- its checksum (none is made for single writes).
pub read_loop-IsResponse :
    (a b c : ℕ) (rest pieces : List ℕ) (flag : Bool)
    → IsResponse (a ∷ b ∷ c ∷ rest)
    → length (a ∷ b ∷ c ∷ rest) ≡ response_length (a ∷ b ∷ c ∷ rest)
    → length (a ∷ b ∷ c ∷ rest) ≤ length pieces
    → read_loop (a ∷ b ∷ c ∷ rest) pieces 0 3 flag
      ≡ some (record { code = verdict (a ∷ b ∷ c ∷ rest); bytes = length (a ∷ b ∷ c ∷ rest) })
unfolding ends
read_loop-IsResponse a b c rest pieces flag v whole enough =
    read_loop-ends a b c rest v whole pieces 0 flag (omega arith) (omega arith)
