-- ===== src/Fshare/Poll/View.antt =====
-- What a poll of src/fshare2fifo/fshare2fifo.c looks at: the header, the pending word of its own slot
-- and the ring. Readers of different slots do not disturb each other.
use yi_outdoor_1080p_ptz.Prelude.{
  ℕ, ◌+◌, ◌-◌, ◌≤◌, ◌<◌, ◌≡◌, ◌≢◌, ◌⊎◌, inl, inr, refl, sym, ap, ◌∙◌, Bool, true, false, some,
  arith, leb, ltb, ◌==◌, ◌&&◌, if◌then◌else◌,
}
use yi_outdoor_1080p_ptz.Memory.{Buf, of_le, u32}
use yi_outdoor_1080p_ptz.Memory.Laws.{read_ext, write_at}
use yi_outdoor_1080p_ptz.Fshare.Layout.{
  data_off, nslot, slot_off, max_pay, hdr_tail, hdr_valid, hdr_seq, hdr_u32, hdr_wr_u32,
}
use yi_outdoor_1080p_ptz.Fshare.Record.{RecHdr}
use yi_outdoor_1080p_ptz.Fshare.Walk.{Walk, stop, hit, exhausted, walk_fuel}
use yi_outdoor_1080p_ptz.Fshare.Walk.Frame.{ring_copy-SameRing, walk-SameRing}
use yi_outdoor_1080p_ptz.Fshare.Poll.{Polled, settle, deliver, conclude, poll}
use yi_outdoor_1080p_ptz.Fshare.Poll.Frame.{Elsewhere, poll-Elsewhere}

-- The images agree on what the reader of slot `k` looks at.
pub record SameView (k : ℕ) (m m' : Buf) : Type 0 where
  pub header : (a : ℕ) → a < 28 → m a ≡ m' a
  pub pending : (a : ℕ) → slot_off k ≤ a → a < slot_off k + 4 → m a ≡ m' a
  pub ring : (a : ℕ) → data_off ≤ a → m a ≡ m' a

-- The same delivery and cursor, and the same byte wherever there was the same byte before.
pub record SameEffect (m m' : Buf) (r r' : Polled) : Type 0 where
  pub got : r.got ≡ r'.got
  pub cursor : r.cursor ≡ r'.cursor
  pub bytes : (a : ℕ) → m a ≡ m' a → r.mem a ≡ r'.mem a

hdr_wr_u32_at :
    (m m' : Buf) (off v a : ℕ) → m a ≡ m' a → hdr_wr_u32 m off v a ≡ hdr_wr_u32 m' off v a
unfolding hdr_wr_u32
hdr_wr_u32_at m m' off v a h = write_at m m' off _ a h

-- Of two stores that are done, or not, under the same test.
choose_at :
    (b : Bool) (m m' n n' : Buf) (a : ℕ)
    → m a ≡ m' a
    → n a ≡ n' a
    → (if b then m else n) a ≡ (if b then m' else n') a
choose_at true m m' n n' a h g = h
choose_at false m m' n n' a h g = g

choose-SameEffect :
    (b : Bool) (m m' : Buf) (r r' s s' : Polled)
    → SameEffect m m' r r'
    → SameEffect m m' s s'
    → SameEffect m m' (if b then r else s) (if b then r' else s')
choose-SameEffect true m m' r r' s s' e f = e
choose-SameEffect false m m' r r' s s' e f = f

settle-SameEffect :
    (k : ℕ) (m m' m0 m0' : Buf) (newest cursor : ℕ)
    → ((a : ℕ) → m0 a ≡ m0' a → m a ≡ m' a)
    → SameEffect m0 m0' (settle k m newest cursor) (settle k m' newest cursor)
unfolding settle
settle-SameEffect k m m' m0 m0' newest cursor old = record {
  got = refl;
  cursor = refl;
  bytes = λ a h. hdr_wr_u32_at _ _ (slot_off k) 0 a (
      choose_at (ltb newest cursor && ltb 10000 (cursor - newest)) _ _ _ _ a
        (hdr_wr_u32_at m m' (slot_off k + 8) newest a (old a h)) (old a h));
}

deliver-SameEffect :
    (k : ℕ) (m m' : Buf) (newest : ℕ) (h : RecHdr) (off : ℕ)
    → SameView k m m'
    → SameEffect m m' (deliver k m newest h off) (deliver k m' newest h off)
unfolding deliver
deliver-SameEffect k m m' newest h off v =
    choose-SameEffect (leb h.len max_pay) m m' _ _ _ _
      (record {
        got =
            ap (λ p. some (record { payload = p; len = h.len; kind = h.kind }))
              (ring_copy-SameRing m m' v.ring (u32 (off + 26)) h.len);
        cursor = refl;
        bytes = told;
      })
      (settle-SameEffect k _ _ m m' newest h.seq told)
  where
    m1 : Buf → Buf
    m1 x = hdr_wr_u32 x (slot_off k + 8) h.seq

    m2 : Buf → Buf
    m2 x = if u32 (h.seq + 1) == newest then hdr_wr_u32 (m1 x) (slot_off k) 0 else m1 x

    told : (a : ℕ) → m a ≡ m' a → m2 m a ≡ m2 m' a
    told a e =
        let first = hdr_wr_u32_at m m' (slot_off k + 8) h.seq a e in
        choose_at (u32 (h.seq + 1) == newest) _ _ _ _ a
          (hdr_wr_u32_at (m1 m) (m1 m') (slot_off k) 0 a first) first

conclude-SameEffect :
    (k : ℕ) (m m' : Buf) (newest cursor : ℕ) (w : Walk)
    → SameView k m m'
    → SameEffect m m' (conclude k m newest cursor w) (conclude k m' newest cursor w)
unfolding conclude
conclude-SameEffect k m m' newest cursor (stop c) v =
    settle-SameEffect k m m' m m' newest c (λ a h. h)
conclude-SameEffect k m m' newest cursor (hit h off) v = deliver-SameEffect k m m' newest h off v
conclude-SameEffect k m m' newest cursor exhausted v =
    settle-SameEffect k m m' m m' newest cursor (λ a h. h)

hdr_u32_ext :
    (m m' : Buf) (off : ℕ)
    → ((a : ℕ) → off ≤ a → a < off + 4 → m a ≡ m' a)
    → hdr_u32 m off ≡ hdr_u32 m' off
unfolding hdr_u32
hdr_u32_ext m m' off h = ap of_le (read_ext m m' off 4 h)

hdr_u32-SameView :
    (k : ℕ) (m m' : Buf) (off : ℕ) → off + 4 ≤ 28 → SameView k m m' → hdr_u32 m off ≡ hdr_u32 m' off
hdr_u32-SameView k m m' off h v = hdr_u32_ext m m' off (λ a p q. v.header a (omega arith))

pub poll-SameEffect :
    (k filter : ℕ) (m m' : Buf) (cursor : ℕ)
    → SameView k m m'
    → SameEffect m m' (poll k filter m cursor) (poll k filter m' cursor)
unfolding poll
poll-SameEffect k filter m m' cursor v =
    rw
      (
        hdr_u32-SameView k m m' hdr_valid (omega arith) v,
        hdr_u32-SameView k m m' hdr_seq (omega arith) v,
        hdr_u32-SameView k m m' hdr_tail (omega arith) v,
        hdr_u32_ext m m' (slot_off k) v.pending,
        walk-SameRing m m' v.ring (walk_fuel (hdr_u32 m' hdr_valid)) filter (hdr_u32 m' hdr_seq)
            cursor (hdr_u32 m' hdr_tail) (hdr_u32 m' hdr_valid),
      )
      (choose-SameEffect (hdr_u32 m' (slot_off k) == 0) m m' _ _ _ _
        (record { got = refl; cursor = refl; bytes = λ a h. h })
        (conclude-SameEffect k m m' _ cursor _ v))

-- Another reader's poll leaves what this one looks at.
poll-SameView :
    (j k filter : ℕ) (m : Buf) (cursor : ℕ)
    → j < nslot
    → j ≢ k
    → SameView k (poll j filter m cursor).mem m
poll-SameView j k filter m cursor slot apart = record {
  header = λ a h. poll-Elsewhere j filter m cursor a (inl (omega arith));
  pending = λ a p q. poll-Elsewhere j filter m cursor a (ground (arith, apart));
  ring = λ a h. poll-Elsewhere j filter m cursor a (inr (omega arith));
}

elsewhere : (j k a : ℕ) → j ≢ k → Elsewhere j a ⊎ Elsewhere k a
elsewhere j k a apart = ground (arith, apart)

-- The polls of two readers in different slots commute, whatever the memory holds: each delivers what
-- it would deliver alone and leaves the same cursor, whether the other has run before it or not,
-- and the two orders leave the same byte at every address.
pub poll_comm :
    (j k f g : ℕ) (m : Buf) (c d : ℕ)
    → j < nslot
    → k < nslot
    → j ≢ k
    → ((poll k g (poll j f m c).mem d).got ≡ (poll k g m d).got)
      × ((poll k g (poll j f m c).mem d).cursor ≡ (poll k g m d).cursor)
      × ((a : ℕ) → (poll k g (poll j f m c).mem d).mem a ≡ (poll j f (poll k g m d).mem c).mem a)
poll_comm j k f g m c d hj hk apart =
    let e = poll-SameEffect k g (poll j f m c).mem m d (poll-SameView j k f m c hj apart) in
    let e' =
      poll-SameEffect j f (poll k g m d).mem m c
        (poll-SameView k j g m d hk (λ q. apart (sym q))) in
    (
      e.got,
      e.cursor,
      λ a. elim (elsewhere j k a apart) [
        | inl x ↦
            e.bytes a (poll-Elsewhere j f m c a x)
            ∙ sym (poll-Elsewhere j f (poll k g m d).mem c a x)
        | inr x ↦
            poll-Elsewhere k g (poll j f m c).mem d a x
            ∙ sym (e'.bytes a (poll-Elsewhere k g m d a x))
      ],
    )
