-- ===== src/Onvif/Request.antt =====
-- `find_hdr_end` and `read_request` of src/onvif/onvif.c. What the reads return is a script; what
-- `strtoul` makes of a text is a parameter.
use yi_outdoor_1080p_ptz.Prelude.{
  ℕ, ◌+◌, ◌-◌, Bool, true, false, not, ◌&&◌, List, [], ◌∷◌, ◌++◌, Option, none, some, ltb, leb,
  ◌==◌, if◌then◌else◌, min, length, take,
}
use yi_outdoor_1080p_ptz.Text.{codes, after_first, after_prefix, c_string}

-- Bytes, EINTR, and the end of the input or another error.
pub data Read : Type 0 where
  chunk : List ℕ → Read
  interrupted : Read
  ended : Read

-- The bytes buffered in `req`, `hdr_end`, `have_cl` and `body_len`.
pub record Request : Type 0 where
  pub req : List ℕ
  pub hdr_end : ℕ
  pub have_cl : Bool
  pub body_len : ℕ

-- `sizeof(req)` in `handle_request`
abbrev pub cap : ℕ
cap = 16384

abbrev pub blank_line : List ℕ
blank_line = 13 ∷ 10 ∷ 13 ∷ 10 ∷ []

-- The offset of the first empty line, counted from `i` on.
unfoldable pub find_hdr_end : List ℕ → ℕ → Option ℕ
find_hdr_end [] i = none
find_hdr_end (c ∷ cs) i =
    let rest = find_hdr_end cs (i + 1) in
    elim (after_prefix blank_line (c ∷ cs)) [ none ↦ rest | some t ↦ some i ]

-- `if (!hdr_end)`
unfoldable pub note_header : Request → Request
note_header r =
    if r.hdr_end == 0
    then elim (find_hdr_end r.req 0) [ none ↦ r | some e ↦ record r { hdr_end = e + 4 } ]
    else r

module _ (strtoul : List ℕ → ℕ) where
  -- The number behind `Content-Length:` in the header, cut to what the buffer holds behind it.
  unfoldable pub content_length : Request → ℕ
  content_length r =
      elim (after_first (codes "Content-Length:") (c_string (take r.hdr_end r.req))) [
        | none ↦ 0
        | some t ↦ min (strtoul t) (cap - 1 - r.hdr_end)
      ]

  -- `if (hdr_end && !have_cl)`
  unfoldable pub note_length : Request → Request
  note_length r =
      if not (r.hdr_end == 0) && not r.have_cl
      then record r { have_cl = true; body_len = content_length r }
      else r

  -- The read is given the room that is left.
  unfoldable pub take_in : Request → List ℕ → Request
  take_in r bs =
      note_length (note_header (record r { req = r.req ++ take (cap - 1 - length r.req) bs }))

  unfoldable pub complete : Request → Bool
  complete r = not (r.hdr_end == 0) && r.have_cl && leb (r.hdr_end + r.body_len) (length r.req)

  -- `while (n < cap - 1)`
  unfoldable pub read_loop : List Read → Request → Request
  read_loop [] r = r
  read_loop (ended ∷ rest) r = r
  read_loop (interrupted ∷ rest) r =
      let more = read_loop rest r in
      if not (ltb (length r.req) (cap - 1)) then r else if complete r then r else more
  read_loop (chunk bs ∷ rest) r =
      let more = read_loop rest (take_in r bs) in
      if not (ltb (length r.req) (cap - 1))
      then r
      else if complete r
      then r
      else if length bs == 0
      then r
      else more

  unfoldable pub read_request : List Read → Request
  read_request script =
      read_loop script (record { req = []; hdr_end = 0; have_cl = false; body_len = 0 })
