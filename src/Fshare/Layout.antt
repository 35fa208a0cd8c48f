-- ===== src/Fshare/Layout.antt =====
-- The mapping of src/fshare2fifo/fshare2fifo.c: a header of 300 bytes with the reader slots, and
-- the record ring behind it. The memory is shared with the camera's writer; a function here works
-- on the image that it finds.
pub mod RingCopy
pub mod Slots
use yi_outdoor_1080p_ptz.Prelude.{
  ℕ, ◌+◌, ◌-◌, ◌*◌, ◌%◌, ◌^◌, List, [], ◌++◌, ltb, leb, if◌then◌else◌,
}
use yi_outdoor_1080p_ptz.Memory.{Buf, read, write, of_le, to_le}

abbrev pub data_off : ℕ
data_off = 300

abbrev pub data_sz : ℕ
data_sz = 0x1B4000

abbrev pub hdr_valid : ℕ
hdr_valid = 0x04

abbrev pub hdr_tail : ℕ
hdr_tail = 0x10

abbrev pub hdr_seq : ℕ
hdr_seq = 0x18

abbrev pub slot_off : ℕ → ℕ
slot_off k = 0x1C + 16 * k

abbrev pub nslot : ℕ
nslot = 17

abbrev pub filter_hires : ℕ
filter_hires = 0x0400

abbrev pub filter_audio : ℕ
filter_audio = 0x0100

abbrev pub max_pay : ℕ
max_pay = 512 * 1024

-- `slot_u32` and `slot_wr_u32` are the same functions under other names.
unfoldable pub hdr_u32 : Buf → ℕ → ℕ
hdr_u32 m off = of_le (read m off 4)

unfoldable pub hdr_wr_u32 : Buf → ℕ → ℕ → Buf
hdr_wr_u32 m off v = write m off (to_le 4 v)

-- The filter is stored by a `memcpy` of two bytes.
unfoldable pub hdr_wr_u16 : Buf → ℕ → ℕ → Buf
hdr_wr_u16 m off v = write m off (to_le 2 v)

-- `off` comes in as a uint32_t. The copy goes round at the end of the ring.
unfoldable pub ring_copy : Buf → ℕ → ℕ → List ℕ
ring_copy m off0 n =
    let off = if leb data_sz off0 then off0 % data_sz else off0 in
    let room = data_sz - off in
    let first = if ltb n room then n else room in
    read m (data_off + off) first ++ (if ltb first n then read m data_off (n - first) else [])
