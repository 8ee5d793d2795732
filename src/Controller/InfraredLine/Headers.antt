-- ===== src/Controller/InfraredLine/Headers.antt =====
-- gugaPI/drivers/infrared_line/infrared_line_protocol.cpp: what is buffered starts like a frame.
use guga_pi.Controller.InfraredLine.{
  read_u16, Parser, frame_size, starts_header, find_start, resync_after_bad_frame, accept_frame,
  complete_frame, feed_byte, update_period, modbus_crc16, record_invalid_frame, payload_is_valid,
}
use guga_pi.Common.{
  ℕ, zero, suc, Bool-cases, Option-cases, ◌<◌, Array, ◌≡◌, some, ◌-◌, ◌+◌, inl, ◌≤◌, arith, sym,
  inr, refl, ◌!=◌, u32, update, ◌==◌, ◌⊎◌,
}

-- The first `n` bytes of the buffer from index `i` on are those of a frame of ten data bytes from the
-- sensor 0x20, as far as they go.
abbrev pub StartsFrame : Array → ℕ → ℕ → Type 0
StartsFrame a i n = (n ≡ 0 ⊎ a i ≡ 0x20) × (n ≤ 1 ⊎ a (i + 1) ≡ 0x03) × (n ≤ 2 ⊎ a (i + 2) ≡ 0x0A)

-- The buffer has room for a byte, and its bytes can be the start of a frame.
pub record IsHeaded (p : Parser) : Type 0 where
  pub has_room : p.length < 15
  pub headed : StartsFrame p.buffer 0 p.length

find_start-starts :
    (a : Array) (start n s : ℕ)
    → find_start a start n ≡ some s
    → StartsFrame a s (start + n - s) × (start ≤ s) × (s < start + n)
unfolding find_start
find_start-starts a start zero s e = absurd (ground arith)
find_start-starts a start (suc n) s e = elim (Bool-cases (starts_header a start (suc n))) [
  | inl hit ↦
      let same : start ≡ s = ground (arith, hit, e) in
      let left : start + suc n - start ≡ suc n = omega arith in
      rw (sym same, left) (ground (arith, hit), omega arith, omega arith)
  | inr miss ↦
      let (found, lo, hi) = find_start-starts a (start + 1) n s (ground (arith, miss, e)) in
      let left : start + 1 + n ≡ start + suc n = omega arith in
      (rw (sym left) found, omega (arith, lo), omega (arith, hi))
]

resync-IsHeaded : (p : Parser) → p.length ≡ frame_size → IsHeaded (resync_after_bad_frame p)
unfolding resync_after_bad_frame
resync-IsHeaded p full = elim (Option-cases (find_start p.buffer 1 (p.length - 1))) [
  | inl e ↦
      rw (resync_after_bad_frame, e)
        (record {
          has_room = omega arith;
          headed = (inl refl, inl (omega arith), inl (omega arith));
        })
  | inr (s, e) ↦
      let (found, lo, hi) = find_start-starts p.buffer 1 (p.length - 1) s e in
      rw (resync_after_bad_frame, e)
        (record {
          has_room = omega (arith, full, lo);
          headed = ground (arith, full, lo, hi, found);
        })
]

complete_frame-IsHeaded :
    (p : Parser) (now_ms now_us : ℕ)
    → p.length ≡ frame_size
    → IsHeaded (complete_frame p now_ms now_us).0
unfolding complete_frame accept_frame update_period
complete_frame-IsHeaded p now_ms now_us full =
    elim (Bool-cases (read_u16 p.buffer 13 != modbus_crc16 p.buffer 13)) [
      | inl bad ↦
          rw (complete_frame, bad)
            (resync-IsHeaded
              (record p {
                stats =
                    record_invalid_frame
                      (record p.stats { crc_errors = u32 (p.stats.crc_errors + 1) });
              })
              full)
      | inr good ↦ elim (Bool-cases (payload_is_valid p.buffer)) [
        | inl valid ↦
            rw (complete_frame, good, valid)
              (record {
                has_room = omega arith;
                headed = (inl refl, inl (omega arith), inl (omega arith));
              })
        | inr invalid ↦
            rw (complete_frame, good, invalid)
              (resync-IsHeaded
                (record p {
                  stats =
                      record_invalid_frame
                        (record p.stats { payload_errors = u32 (p.stats.payload_errors + 1) });
                })
                full)
      ]
    ]

-- Every byte, whatever came before, keeps the index into the buffer in range, and keeps at the
-- start of what is buffered as much of the header 0x20 0x03 0x0A as its length has room for, also
-- after the search that follows a bad frame.
pub feed_byte-IsHeaded :
    (p : Parser) (byte now_ms now_us : ℕ) → IsHeaded p → IsHeaded (feed_byte p byte now_ms now_us).0
unfolding feed_byte
feed_byte-IsHeaded p byte now_ms now_us v =
    let q : Parser = record p {
      buffer = update p.buffer p.length byte;
      length = p.length + 1;
      stats = record p.stats { bytes_received = u32 (p.stats.bytes_received + 1) };
    } in
    elim (Bool-cases (p.length == 14)) [
      | inl last ↦
          let full : q.length ≡ frame_size = ground (arith, last) in
          let e : feed_byte p byte now_ms now_us ≡ complete_frame q now_ms now_us =
            ground (arith, last) in
          rw e (complete_frame-IsHeaded q now_ms now_us full)
      | inr more ↦ record {
        has_room = ground (arith, v.has_room, more);
        headed = ground (arith, v.has_room, v.headed, more);
      }
    ]
