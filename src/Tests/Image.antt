-- ===== src/Tests/Image.antt =====
-- An image of the shared memory with two complete records: a chain start, number 7, and a slice,
-- number 8. The published newest number is 12.
use yi_outdoor_1080p_ptz.Prelude.{
  refl, ℕ, ◌+◌, ◌≡◌, Bool, true, ◌&&◌, List, [], ◌∷◌, ◌++◌, ltb, arith,
}
use yi_outdoor_1080p_ptz.Memory.{Buf, poke, write, to_le, IsBytes}
use yi_outdoor_1080p_ptz.Memory.Laws.{poke-IsBytes}
use yi_outdoor_1080p_ptz.Fshare.Layout.{hdr_valid, hdr_seq, slot_off, data_off}
use yi_outdoor_1080p_ptz.Fshare.Record.{RecHdr}
use yi_outdoor_1080p_ptz.Fshare.Walk.Log.{Entry}

abbrev pub record_bytes : ℕ → ℕ → List ℕ
record_bytes seq kind =
    to_le 4 4
    ++ (to_le 4 seq
        ++ (to_le 4 0x6a010000
            ++ (to_le 4 0 ++ (to_le 4 0 ++ (to_le 2 kind ++ (to_le 4 0 ++ (1 ∷ 2 ∷ 3 ∷ 4 ∷ [])))))))

abbrev pub image : Buf
image =
    write
      (write
        (write (write (write (λ _. 0) hdr_valid (to_le 4 60)) hdr_seq (to_le 4 12)) (slot_off 10)
          (to_le 4 1))
        data_off (record_bytes 7 0x0422))
      (data_off + 30) (record_bytes 8 0x0402)

abbrev pub header_of : ℕ → ℕ → RecHdr
header_of seq kind = record {
  len = 4;
  seq = seq;
  magic = 0x6a010000;
  cookie = 0;
  ts = 0;
  kind = kind;
  chain = 0;
  extra = 0;
}

abbrev pub first_entry : Entry
first_entry = record { at = 0; hdr = header_of 7 0x0422 }

abbrev pub entries : List Entry
entries = first_entry ∷ record { at = 30; hdr = header_of 8 0x0402 } ∷ []

abbrev all_bytes : List ℕ → Bool
all_bytes [] = true
all_bytes (b ∷ bs) = ltb b 256 && all_bytes bs

write-IsBytes :
    (m : Buf) (off : ℕ) (bs : List ℕ) → all_bytes bs ≡ true → IsBytes m → IsBytes (write m off bs)
unfolding write
write-IsBytes m off [] h b = b
write-IsBytes m off (x ∷ xs) h b =
    write-IsBytes (poke m off x) (off + 1) xs (ground arith) (poke-IsBytes m off x b (ground arith))

pub image-IsBytes : IsBytes image
image-IsBytes = write-IsBytes _ (data_off + 30) (record_bytes 8 0x0402) refl (
    write-IsBytes _ data_off (record_bytes 7 0x0422) refl (
      write-IsBytes _ (slot_off 10) (to_le 4 1) refl (
        write-IsBytes _ hdr_seq (to_le 4 12) refl
          (write-IsBytes _ hdr_valid (to_le 4 60) refl (λ a. omega arith)))))
