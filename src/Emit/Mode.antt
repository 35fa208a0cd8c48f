-- ===== src/Emit/Mode.antt =====
-- The choice between the fifo and a file in src/fshare2fifo/fshare2fifo.c, which the writes do not
-- touch.
use yi_outdoor_1080p_ptz.Prelude.{
  ℕ, ◌-◌, ◌≡◌, refl, ◌∙◌, Bool, true, false, List, [], ◌∷◌, ltb, drop, if-both,
}
use yi_outdoor_1080p_ptz.Memory.{Buf}
use yi_outdoor_1080p_ptz.Emit.{
  Step, Emitter, put_next, put_synth, send_nal, one_nal, emit_delivered,
}
use yi_outdoor_1080p_ptz.Emit.Output.{
  Answer, wrote, again, failed, Rc, done, dropped, hard, waiting, stuck, Sink, after,
  write_whole_fd, write_all_fd_wait, write_file, put,
}
use yi_outdoor_1080p_ptz.Emit.Chain.{Gate, Verdict, skip, synth, emit, gate}
use yi_outdoor_1080p_ptz.Emit.Nals.{emit_nals, emit_record_nals}

whole_mode :
    (script : List Answer) (k : Sink) (bs : List ℕ) → (write_whole_fd script k bs).1.fifo ≡ k.fifo
unfolding write_whole_fd after
whole_mode [] k bs = refl
whole_mode (wrote n ∷ rest) k bs = refl
whole_mode (again ∷ rest) k bs = refl
whole_mode (failed ∷ rest) k bs = refl

file_mode :
    (script : List Answer) (k : Sink) (bs : List ℕ) → (write_file script k bs).1.fifo ≡ k.fifo
unfolding write_file after
file_mode [] k bs = refl
file_mode (wrote n ∷ rest) k bs = refl
file_mode (again ∷ rest) k bs = refl
file_mode (failed ∷ rest) k bs = refl

wait_mode :
    (script : List Answer) (k : Sink) (bs : List ℕ)
    → (write_all_fd_wait script k bs).1.fifo ≡ k.fifo
unfolding write_all_fd_wait after
wait_mode script k [] = refl
wait_mode [] k (b ∷ bs) = refl
wait_mode (wrote n ∷ rest) k (b ∷ bs) = wait_mode rest _ (drop n (b ∷ bs))
wait_mode (again ∷ rest) k (b ∷ bs) = wait_mode rest k (b ∷ bs)
wait_mode (failed ∷ rest) k (b ∷ bs) = refl

put_mode : (k : Sink) (chain : Bool) (bs : List ℕ) → (put k chain bs).1.fifo ≡ k.fifo
unfolding put
put_mode k chain bs =
    if-both P k.fifo (if-both P chain (wait_mode k.script k bs) (whole_mode k.script k bs))
      (file_mode k.script k bs)
  where
    P : Rc × Sink → Type 0
    P x = x.1.fifo ≡ k.fifo

put_next_mode : (x : Rc × Sink) (bs : List ℕ) → (put_next x bs).1.fifo ≡ x.1.fifo
unfolding put_next
put_next_mode (done, k) bs = put_mode k true bs
put_next_mode (dropped, k) bs = refl
put_next_mode (hard, k) bs = refl
put_next_mode (waiting, k) bs = refl
put_next_mode (stuck, k) bs = refl

send_nal_mode :
    (v : Verdict × Gate) (k : Sink) (p : Buf) (s e : ℕ) (r : Rc)
    → (send_nal v k p s e r).after.sink.fifo ≡ k.fifo
unfolding send_nal put_synth
send_nal_mode (skip, g) k p s e r = refl
send_nal_mode (synth si, g) k p s e r = put_next_mode (put k true _) _ ∙ put_mode k true _
send_nal_mode (emit chain end, g) k p s e r = put_mode k chain _

one_nal_mode :
    (em : Emitter) (p : Buf) (s e : ℕ) (r : Rc)
    → (one_nal em p s e r).after.sink.fifo ≡ em.sink.fifo
unfolding one_nal
one_nal_mode em p s e r =
    if-both (λ (x : Step). x.after.sink.fifo ≡ em.sink.fifo) (ltb (e - s) 5) refl
      (send_nal_mode (gate em.gate p s e) em.sink p s e r)

emit_nals_mode :
    (ns : List (ℕ × ℕ)) (em : Emitter) (p : Buf) (r : Rc)
    → (emit_nals em p ns r).1.sink.fifo ≡ em.sink.fifo
unfolding emit_nals
emit_nals_mode [] em p r = refl
emit_nals_mode ((s, e) ∷ rest) em p r =
    if-both (λ (x : Rc × Emitter). x.1.sink.fifo ≡ em.sink.fifo) st.give_up
      (one_nal_mode em p s e r) (emit_nals_mode rest st.after p st.rc ∙ one_nal_mode em p s e r)
  where
    st : Step
    st = one_nal em p s e r

pub emit_delivered_mode :
    (audio : Bool) (em : Emitter) (p : Buf) (len : ℕ)
    → (emit_delivered audio em p len).1.sink.fifo ≡ em.sink.fifo
unfolding emit_delivered
emit_delivered_mode true em p len = put_mode em.sink false _
emit_delivered_mode false em p len = rw (emit_record_nals em p len) (emit_nals_mode _ em p done)
