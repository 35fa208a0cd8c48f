-- ===== src/Onvif/Bounds.antt =====
-- The number of bytes that `read_request` of src/onvif/onvif.c buffers.
use yi_outdoor_1080p_ptz.Prelude.{
  ℕ, zero, suc, ◌+◌, ◌-◌, ◌≤◌, ◌<◌, ◌≡◌, refl, false, not, ◌&&◌, List, [], ◌∷◌, ◌++◌, Option, none,
  some, arith, length, take, length-append, if-both, ltb, ◌==◌,
}
use yi_outdoor_1080p_ptz.Onvif.Request.{
  Read, chunk, interrupted, ended, Request, cap, find_hdr_end, note_header, note_length, take_in,
  complete, read_loop, read_request,
}

pub length-take : (n : ℕ) (bs : List ℕ) → length (take n bs) ≤ n
length-take zero bs = omega arith
length-take (suc n) [] = omega arith
length-take (suc n) (b ∷ bs) = omega (arith, length-take n bs)

req-note_header : (r : Request) → (note_header r).req ≡ r.req
unfolding note_header
req-note_header r =
    if-both (λ (x : Request). x.req ≡ r.req) (r.hdr_end == 0) (found (find_hdr_end r.req 0)) refl
  where
    found :
        (o : Option ℕ)
        → (elim o as (λ _. Request) [ none ↦ r | some e ↦ record r { hdr_end = e + 4 } ]).req
          ≡ r.req
    found none = refl
    found (some e) = refl

module _ (strtoul : List ℕ → ℕ) where
  req-note_length : (r : Request) → (note_length strtoul r).req ≡ r.req
  unfolding note_length
  req-note_length r =
      if-both (λ (x : Request). x.req ≡ r.req) (not (r.hdr_end == 0) && not r.have_cl) refl refl

  -- The buffer has room for the bytes and the final NUL.
  Fits : Request → Type 0
  Fits r = length r.req ≤ cap - 1

  take_in-Fits : (r : Request) (bs : List ℕ) → Fits r → Fits (take_in strtoul r bs)
  unfolding take_in Fits
  take_in-Fits r bs h =
      rw (req-note_length (note_header r'), req-note_header r')
        (omega (
          arith,
          length-append r.req (take (cap - 1 - length r.req) bs),
          length-take (cap - 1 - length r.req) bs,
        ))
    where
      r' : Request
      r' = record r { req = r.req ++ take (cap - 1 - length r.req) bs }

  read_loop-Fits : (script : List Read) (r : Request) → Fits r → Fits (read_loop strtoul script r)
  unfolding read_loop
  read_loop-Fits [] r h = h
  read_loop-Fits (ended ∷ rest) r h = h
  read_loop-Fits (interrupted ∷ rest) r h =
      if-both Fits (not (ltb (length r.req) (cap - 1))) h
        (if-both Fits (complete strtoul r) h (read_loop-Fits rest r h))
  read_loop-Fits (chunk bs ∷ rest) r h = if-both Fits (not (ltb (length r.req) (cap - 1))) h (
      if-both Fits (complete strtoul r) h (
        if-both Fits (length bs == 0) h
          (read_loop-Fits rest (take_in strtoul r bs) (take_in-Fits r bs h))))

  -- However the client splits or pads its request, and whatever length it announces, the bytes
  -- buffered leave room for the final NUL in the buffer of 16384.
  pub read_request_fits : (script : List Read) → length (read_request strtoul script).req < cap
  unfolding read_request Fits
  read_request_fits script =
      let h =
        read_loop-Fits script (record { req = []; hdr_end = 0; have_cl = false; body_len = 0 })
          (omega arith) in
      omega (arith, h)
