-- ===== src/MotorDriver/Serial/Requests.antt =====
-- MotorDriver/protocol/serial_protocol.cpp: a request that arrives whole is served once.
use guga_pi.MotorDriver.Flag
use guga_pi.MotorDriver.RegisterMap.State.{RegisterMap}
use guga_pi.MotorDriver.Serial.{
  Parser, ParserState, payload, handle_frame, process_byte, wait_sof, crc_byte, serial_crc8,
  crc8_over, reset_parser, build_status_response, write_answer, build_response,
}
use guga_pi.MotorDriver.Serial.Frames.{feed, at, feed-header, feed-payload}
use guga_pi.Common.{
  fill, array_of, fill-array_of, ℕ, List, Array, ◌∷◌, ◌≡◌, ◌++◌, true, [], ◌≢◌, length, arith, ◌≤◌,
  ◌∙◌, ap, ◌<◌, ◌+◌, if◌then◌else◌, refl, suc, ◌==◌, Bool, ◌&&◌, Option-cases, ltb, u8, inl, inr,
  zero, false, Option, some, none,
}
use guga_pi.MotorDriver.RegisterMap.Write.{apply_from, apply_write_to, commit_write, read_block}

-- A frame as the host sends it; `crc` is its last byte.
abbrev pub frame : ℕ → ℕ → ℕ → List ℕ → ℕ → List ℕ
frame cmd reg len bytes crc = Flag.serial_sof ∷ cmd ∷ reg ∷ len ∷ (bytes ++ (crc ∷ []))

abbrev pub frame_crc : ℕ → ℕ → ℕ → List ℕ → ℕ
frame_crc cmd reg len bytes = serial_crc8 (Flag.serial_sof ∷ cmd ∷ reg ∷ len ∷ bytes)

handle_frame-ready : (p : Parser) (s : RegisterMap) → (handle_frame p s).ready ≡ true
unfolding handle_frame
handle_frame-ready p s = ground arith

module _ (cmd reg len i crc value : ℕ) (a : Array) (s : RegisterMap) where
  feed-crc :
      value ≡ crc
      → let q = at crc_byte crc cmd reg len i a in
        feed q s (value ∷ [])
        ≡ (reset_parser q, (handle_frame q s).registers, (handle_frame q s).response ∷ [])
  unfolding feed process_byte
  feed-crc e = ground (arith, handle_frame-ready (at crc_byte crc cmd reg len i a) s)

  feed-crc_ne :
      value ≢ crc
      → let q = at crc_byte crc cmd reg len i a in feed q s (value ∷ []) ≡ (reset_parser q, s, [])
  unfolding feed process_byte
  feed-crc_ne e = ground arith

state_after :
    (n : ℕ)
    → (if Flag.serial_cmd_write == Flag.serial_cmd_write && ltb 0 (suc n)
        then payload
        else crc_byte)
      ≡ payload
state_after n = ground arith

module _ (p : Parser) (s : RegisterMap) (waits : p.state ≡ wait_sof) where
  feed-write :
      (reg x crc : ℕ) (xs : List ℕ)
      → length (x ∷ xs) ≤ Flag.max_payload_length
      → let len = length (x ∷ xs) in
        feed p s (frame Flag.serial_cmd_write reg len (x ∷ xs) crc)
        ≡ feed
            (at crc_byte
              (frame_crc Flag.serial_cmd_write reg len (x ∷ xs))
              Flag.serial_cmd_write
              reg
              len
              len
              (fill p.bytes 0 (x ∷ xs)))
            s
            (crc ∷ [])
  unfolding serial_crc8 crc8_over
  feed-write reg x crc xs h =
      let len = length (x ∷ xs) in
      let c = crc8_over 0 (Flag.serial_sof ∷ Flag.serial_cmd_write ∷ reg ∷ len ∷ []) in
      feed-header p s Flag.serial_cmd_write reg len _ waits h
      ∙ ap
          (λ (st : ParserState).
            feed (at st c Flag.serial_cmd_write reg len 0 p.bytes) s ((x ∷ xs) ++ (crc ∷ [])))
          (state_after (length xs))
      ∙ feed-payload Flag.serial_cmd_write reg len s h xs x c 0 p.bytes (crc ∷ []) (omega arith)

  feed-short :
      (cmd reg len crc : ℕ)
      → cmd ≢ Flag.serial_cmd_write
      → len ≤ Flag.max_payload_length
      → feed p s (frame cmd reg len [] crc)
        ≡ feed (at crc_byte (frame_crc cmd reg len []) cmd reg len 0 p.bytes) s (crc ∷ [])
  unfolding serial_crc8
  feed-short cmd reg len crc ne h = feed-header p s cmd reg len (crc ∷ []) waits h ∙ ground arith

-- `CommitWrite` reads its array below the length only.
apply_from-agree :
    (start_reg : ℕ) (a b : Array) (index n : ℕ) (next : Array) (changed : Bool)
    → ((j : ℕ) → index ≤ j → j < index + n → a j ≡ b j)
    → apply_from start_reg a index n next changed ≡ apply_from start_reg b index n next changed
unfolding apply_from
apply_from-agree start_reg a b index zero next changed h = refl
apply_from-agree start_reg a b index (suc n) next changed h =
    let e : a index ≡ b index = h index (omega arith) (omega arith) in
    elim (Option-cases (apply_write_to next (u8 (start_reg + index)) (b index))) [
      | inl r ↦ rw (e, apply_from, r)
      | inr (t, r) ↦
          rw (e, apply_from, r)
            (apply_from-agree start_reg a b (index + 1) n t _
              (λ j lo hi. h j (omega arith) (omega arith)))
    ]

commit_write-agree :
    (s : RegisterMap) (reg : ℕ) (a b : Array) (len : ℕ)
    → ((j : ℕ) → j < len → a j ≡ b j)
    → commit_write s reg a len ≡ commit_write s reg b len
unfolding commit_write
commit_write-agree s reg a b len h =
    rw (apply_from-agree reg a b 0 len s.registers false (λ j lo hi. h j (omega arith)))

-- What a served write leaves, whether it was accepted or not.
abbrev pub write_status : Option Bool → ℕ
write_status none = Flag.serial_status_error
write_status (some changed) = Flag.serial_status_ok

handle_frame-write :
    (crc reg n i : ℕ) (a : Array) (s : RegisterMap)
    → let q = at crc_byte crc Flag.serial_cmd_write reg (suc n) i a in
      handle_frame q s ≡ write_answer q (commit_write s reg a (suc n))
unfolding handle_frame
handle_frame-write crc reg n i a s = ground arith

write_answer-fields :
    (q : Parser) (c : RegisterMap × Option Bool)
    → ((write_answer q c).registers ≡ c.0)
      × ((write_answer q c).response ≡ build_status_response q.cmd q.reg (write_status c.1))
write_answer-fields q (s, none) = (refl, refl)
write_answer-fields q (s, some changed) = (refl, refl)

-- A write frame for a parser that waits: the registers change as `CommitWrite` changes them, given
-- the payload, and the one response says whether it was accepted; the parser waits again.
pub write_frame_lem :
    (p : Parser) (s : RegisterMap) (reg x : ℕ) (xs : List ℕ)
    → p.state ≡ wait_sof
    → length (x ∷ xs) ≤ Flag.max_payload_length
    → let len = length (x ∷ xs) in
      let after = feed p s (
        frame Flag.serial_cmd_write reg len
          (x ∷ xs)
          (frame_crc Flag.serial_cmd_write reg len (x ∷ xs))) in
      let (s', changed) = commit_write s reg (array_of (x ∷ xs)) len in
      (after.0.state ≡ wait_sof)
      × (after.1 ≡ s')
      × (after.2 ≡ build_status_response Flag.serial_cmd_write reg (write_status changed) ∷ [])
unfolding reset_parser
write_frame_lem p s reg x xs waits h =
    let crc = frame_crc Flag.serial_cmd_write reg (suc (length xs)) (x ∷ xs) in
    let a = fill p.bytes 0 (x ∷ xs) in
    let n = suc (length xs) in
    let q = at crc_byte crc Flag.serial_cmd_write reg n n a in
    let served =
      feed-write p s waits reg x crc xs h
      ∙ feed-crc Flag.serial_cmd_write reg n n crc crc a s refl in
    let c = commit_write s reg (array_of (x ∷ xs)) n in
    let same = commit_write-agree s reg a (array_of (x ∷ xs)) n (fill-array_of p.bytes (x ∷ xs)) in
    rw (served, handle_frame-write crc reg (length xs) n a s, same)
      (refl, (write_answer-fields q c).0, ap (λ (r : List ℕ). r ∷ []) (write_answer-fields q c).1)

-- A write frame whose last byte is not its check value: no register changes, nothing is answered,
-- and the parser waits again.
pub damaged_write_frame :
    (p : Parser) (s : RegisterMap) (reg x crc : ℕ) (xs : List ℕ)
    → p.state ≡ wait_sof
    → length (x ∷ xs) ≤ Flag.max_payload_length
    → crc ≢ frame_crc Flag.serial_cmd_write reg (length (x ∷ xs)) (x ∷ xs)
    → let after = feed p s (frame Flag.serial_cmd_write reg (length (x ∷ xs)) (x ∷ xs) crc) in
      (after.0.state ≡ wait_sof) × (after.1 ≡ s) × (after.2 ≡ [])
unfolding reset_parser
damaged_write_frame p s reg x crc xs waits h ne =
    let n = suc (length xs) in
    rw
      (
        feed-write p s waits reg x crc xs h,
        feed-crc_ne Flag.serial_cmd_write reg n n _ crc (fill p.bytes 0 (x ∷ xs)) s ne,
      )
      (refl, refl, refl)

abbrev pub read_answer : ℕ → Option (List ℕ) → List ℕ
read_answer reg none = build_status_response Flag.serial_cmd_read reg Flag.serial_status_error
read_answer reg (some bytes) = build_response Flag.serial_cmd_read reg bytes

handle_frame-read :
    (crc reg len i : ℕ) (a : Array) (s : RegisterMap)
    → 0 < len
    → let o = handle_frame (at crc_byte crc Flag.serial_cmd_read reg len i a) s in
      (o.registers ≡ s) × (o.response ≡ read_answer reg (read_block s reg len))
unfolding handle_frame
handle_frame-read crc reg len i a s h = ground arith

-- A read frame for a parser that waits: the registers stay, and the one response carries the block
-- that `ReadBlock` gives, or the error status where it refuses the range; the parser waits again.
pub read_frame_lem :
    (p : Parser) (s : RegisterMap) (reg len : ℕ)
    → p.state ≡ wait_sof
    → 0 < len
    → len ≤ Flag.max_payload_length
    → let after =
        feed p s
          (frame Flag.serial_cmd_read reg len [] (frame_crc Flag.serial_cmd_read reg len [])) in
      (after.0.state ≡ wait_sof)
      × (after.1 ≡ s)
      × (after.2 ≡ read_answer reg (read_block s reg len) ∷ [])
unfolding reset_parser
read_frame_lem p s reg len waits pos h =
    let crc = frame_crc Flag.serial_cmd_read reg len [] in
    let served =
      feed-short p s waits Flag.serial_cmd_read reg len crc (omega arith) h
      ∙ feed-crc Flag.serial_cmd_read reg len 0 crc crc p.bytes s refl in
    let o = handle_frame-read crc reg len 0 p.bytes s pos in
    rw served (refl, o.0, ap (λ (r : List ℕ). r ∷ []) o.1)
