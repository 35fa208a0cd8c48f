-- ===== src/Tests/Emission.antt =====
-- A payload of a sequence parameter set, a picture parameter set and an IDR slice, through the gate.
use yi_outdoor_1080p_ptz.Prelude.{ℕ, ◌≡◌, ◌≢◌, refl, inl, true, false, List, [], ◌∷◌, arith, get_or}
use yi_outdoor_1080p_ptz.Memory.{Buf, read}
use yi_outdoor_1080p_ptz.Sps.Reader.{read_bit, read_bits, count_zeros, read_ue}
use yi_outdoor_1080p_ptz.Sps.Parse.{parse_sps_full}
use yi_outdoor_1080p_ptz.Emit.{
  Emitter, count, put_next, put_synth, send_nal, one_nal, emit_loop, emit_record,
}
use yi_outdoor_1080p_ptz.Emit.Output.{
  Answer, wrote, again, dropped, stuck, Sink, after, write_whole_fd, write_all_fd_wait, write_file,
  put,
}
use yi_outdoor_1080p_ptz.Emit.Scan.{find_start, nal_end}
use yi_outdoor_1080p_ptz.Emit.Chain.{
  Gate, gate, gate_sps, gate_pps, gate_idr, gate_slice, gate_other, trim, pps_readable, can_synth,
}
use yi_outdoor_1080p_ptz.Emit.Sent.{WaitSpec, write_all_fd_wait-WaitSpec}
use yi_outdoor_1080p_ptz.Emit.Ends.{emit_record-ne-stuck}
use yi_outdoor_1080p_ptz.Emit.Nals.{nals}
use yi_outdoor_1080p_ptz.Emit.Heeds.{IsPps}
use yi_outdoor_1080p_ptz.Emit.Opening.{OpenOrFailed, emit_record-OpenOrFailed}

-- The parameter set is too short to be parsed, and goes out as it is.
abbrev head_payload : List ℕ
head_payload =
    0 ∷ 0 ∷ 0 ∷ 1 ∷ 0x67 ∷ 0x42 ∷ 0 ∷ 0 ∷ 0 ∷ 1 ∷ 0x68 ∷ 0xCE ∷ 0x38 ∷ 0x80 ∷ 0 ∷ 0 ∷ 0 ∷ 1 ∷ 0x65
    ∷ 0x88 ∷ []

abbrev pub payload : Buf
payload a = get_or head_payload a 0

abbrev closed_gate : Gate
closed_gate = record {
  stage = 0;
  chain_open = false;
  target_w = 0;
  target_h = 0;
  nals = 0;
  bytes = 0;
  drops = 0;
}

abbrev pub full_then_free : List Answer
full_then_free = wrote 3 ∷ again ∷ wrote 9 ∷ wrote 9 ∷ wrote 9 ∷ []

abbrev pub fifo : Sink
fifo = record { fifo = true; script = full_then_free; sent = [] }

abbrev pub start_emitter : Emitter
start_emitter = record { gate = closed_gate; sink = fifo }

-- Everything goes out, and the gate is open.
opened : (emit_record start_emitter payload 20).1.gate.chain_open ≡ true
unfolding emit_record emit_loop one_nal send_nal put_synth put_next count find_start nal_end gate
    gate_sps gate_pps gate_idr gate_slice gate_other trim pps_readable can_synth read_ue count_zeros
    read_bits read_bit parse_sps_full put write_all_fd_wait write_whole_fd write_file after read
opened = refl

all_sent : (emit_record start_emitter payload 20).1.sink.sent ≡ head_payload
unfolding emit_record emit_loop one_nal send_nal put_synth put_next count find_start nal_end gate
    gate_sps gate_pps gate_idr gate_slice gate_other trim pps_readable can_synth read_ue count_zeros
    read_bits read_bit parse_sps_full put write_all_fd_wait write_whole_fd write_file after read
all_sent = refl

emit_record-ne-stuck_example : (emit_record start_emitter payload 20).0 ≢ stuck
emit_record-ne-stuck_example = emit_record-ne-stuck start_emitter payload 20

write_all_fd_wait-WaitSpec_example :
    WaitSpec fifo (1 ∷ 2 ∷ 3 ∷ 4 ∷ []) (write_all_fd_wait full_then_free fifo (1 ∷ 2 ∷ 3 ∷ 4 ∷ []))
write_all_fd_wait-WaitSpec_example =
    write_all_fd_wait-WaitSpec full_then_free fifo (1 ∷ 2 ∷ 3 ∷ 4 ∷ [])

-- A short write of a slice counts as a drop, and leaves its first bytes in the fifo.
cut_slice : write_whole_fd full_then_free fifo (1 ∷ 2 ∷ 3 ∷ 4 ∷ []) ≡ (
  dropped,
  record { fifo = true; script = again ∷ wrote 9 ∷ wrote 9 ∷ wrote 9 ∷ []; sent = 1 ∷ 2 ∷ 3 ∷ [] },
)
unfolding write_whole_fd after
cut_slice = refl

payload_nals : nals 21 payload 20 0 ≡ (0, 6) ∷ (6, 14) ∷ (14, 20) ∷ []
unfolding nals find_start nal_end
payload_nals = refl

payload-IsPps : IsPps payload (6, 14)
unfolding trim pps_readable read_ue count_zeros read_bits read_bit
payload-IsPps = ((omega arith, refl), omega arith, refl)

emit_record-OpenOrFailed_example : OpenOrFailed (emit_record start_emitter payload 20)
emit_record-OpenOrFailed_example =
    emit_record-OpenOrFailed start_emitter payload 20
      (rw payload_nals (inl ((omega arith, refl), inl (payload-IsPps, inl (omega arith, refl)))))
