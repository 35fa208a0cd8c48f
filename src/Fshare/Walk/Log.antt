-- ===== src/Fshare/Walk/Log.antt =====
-- The ring read as a list of records, which is what a walk goes over.
use yi_outdoor_1080p_ptz.Prelude.{
  ℕ, zero, suc, Bool, not, ◌||◌, List, [], ◌∷◌, Option, none, some, ◌==◌, if◌then◌else◌,
}
use yi_outdoor_1080p_ptz.Memory.{Buf}
use yi_outdoor_1080p_ptz.Fshare.Record.{RecHdr, rec_at, readable, next_off, next_left}

-- A record with the offset that it stands at.
pub record Entry : Type 0 where
  pub at : ℕ
  pub hdr : RecHdr

-- The records from `off` on, up to the first that cannot be read or has the number `newest`.
unfoldable pub complete_records : ℕ → Buf → ℕ → ℕ → ℕ → List Entry
complete_records zero m newest off left = []
complete_records (suc fuel) m newest off left =
    let h = rec_at m off in
    let rest = complete_records fuel m newest (next_off off h) (next_left left h) in
    if not (readable m off left) || h.seq == newest then [] else record { at = off; hdr = h } ∷ rest

-- The first that passes a test, and the last.
unfoldable pub find_first : (RecHdr → Bool) → List Entry → Option Entry
find_first p [] = none
find_first p (e ∷ es) = if p e.hdr then some e else find_first p es

unfoldable pub find_last : (RecHdr → Bool) → Option Entry → List Entry → Option Entry
find_last p acc [] = acc
find_last p acc (e ∷ es) = find_last p (if p e.hdr then some e else acc) es

abbrev pub AllSeq : (ℕ → Type 0) → List Entry → Type 0
AllSeq P [] = Unit
AllSeq P (e ∷ es) = P e.hdr.seq × AllSeq P es
