-- ===== src/Emit/Sent.antt =====
-- What a write leaves in the fifo, on every outcome.
use yi_outdoor_1080p_ptz.Prelude.{
  ℕ, zero, suc, ◌+◌, ◌-◌, ◌≤◌, ◌≡◌, ◌≢◌, refl, sym, ap, ◌∙◌, Bool, List, [], ◌∷◌, ◌++◌,
  append_assoc, append-nil, ◌==◌, length, take, drop, take_all, arith, Bool-cases, if-both, inl,
  inr,
}
use yi_outdoor_1080p_ptz.Emit.Output.{
  Answer, wrote, again, failed, Rc, done, dropped, hard, waiting, stuck, Sink, write_whole_fd,
  write_all_fd_wait, write_file, put, after,
}

-- A part of the bytes has gone out, from the first on.
abbrev pub IsPartial : Sink → List ℕ → Sink → Type 0
IsPartial k bs k' = (n : ℕ) × (k'.sent ≡ k.sent ++ take n bs)

-- A write that waits: all of the bytes have gone out, or an error or the end of the run came first.
-- It never drops.
abbrev pub WaitSpec : Sink → List ℕ → Rc × Sink → Type 0
WaitSpec k bs (done, k') = k'.sent ≡ k.sent ++ bs
WaitSpec k bs (dropped, k') = ⊥
WaitSpec k bs (hard, k') = IsPartial k bs k'
WaitSpec k bs (waiting, k') = IsPartial k bs k'
WaitSpec k bs (stuck, k') = ⊥

take-drop : (n : ℕ) (bs : List ℕ) → take n bs ++ drop n bs ≡ bs
take-drop zero bs = refl
take-drop (suc n) [] = refl
take-drop (suc n) (b ∷ bs) = ap (◌∷◌ b) (take-drop n bs)

take-nil : (n : ℕ) → take {A = ℕ} n [] ≡ []
take-nil zero = refl
take-nil (suc n) = refl

take-take : (n m : ℕ) (bs : List ℕ) → take n bs ++ take m (drop n bs) ≡ take (n + m) bs
take-take zero m bs = ap (λ j. take j bs) (omega arith)
take-take (suc n) m [] = take-nil m ∙ sym (take-nil (suc n + m))
take-take (suc n) m (b ∷ bs) =
    let e : suc n + m ≡ suc (n + m) = omega arith in rw e (ap (◌∷◌ b) (take-take n m bs))

IsPartial-again :
    (k k1 k2 : Sink) (n : ℕ) (bs : List ℕ)
    → k1.sent ≡ k.sent ++ take n bs
    → IsPartial k1 (drop n bs) k2
    → IsPartial k bs k2
IsPartial-again k k1 k2 n bs e (m, q) = (
  n + m,
  q
      ∙ ap (λ (x : List ℕ). x ++ take m (drop n bs)) e
      ∙ append_assoc k.sent (take n bs) (take m (drop n bs))
      ∙ ap (λ (x : List ℕ). k.sent ++ x) (take-take n m bs),
)

WaitSpec-again :
    (k k1 : Sink) (n : ℕ) (bs : List ℕ) (r : Rc × Sink)
    → k1.sent ≡ k.sent ++ take n bs
    → WaitSpec k1 (drop n bs) r
    → WaitSpec k bs r
WaitSpec-again k k1 n bs (done, k2) e w =
    w
    ∙ ap (λ (x : List ℕ). x ++ drop n bs) e
    ∙ append_assoc k.sent (take n bs) (drop n bs)
    ∙ ap (λ (x : List ℕ). k.sent ++ x) (take-drop n bs)
WaitSpec-again k k1 n bs (dropped, k2) e w = w
WaitSpec-again k k1 n bs (hard, k2) e w = IsPartial-again k k1 k2 n bs e w
WaitSpec-again k k1 n bs (waiting, k2) e w = IsPartial-again k k1 k2 n bs e w
WaitSpec-again k k1 n bs (stuck, k2) e w = w

-- A chain NAL that is written without an error is in the fifo whole, however the system splits it
-- and however often the fifo is full; it is never dropped, and before an error a first part of it
-- has gone out.
pub write_all_fd_wait-WaitSpec :
    (script : List Answer) (k : Sink) (bs : List ℕ) → WaitSpec k bs (write_all_fd_wait script k bs)
unfolding write_all_fd_wait after
write_all_fd_wait-WaitSpec script k [] = sym (append-nil k.sent)
write_all_fd_wait-WaitSpec [] k (b ∷ bs) = (0, sym (append-nil k.sent))
write_all_fd_wait-WaitSpec (wrote n ∷ rest) k (b ∷ bs) =
    WaitSpec-again k (after k rest n (b ∷ bs)) n (b ∷ bs) _ refl
      (write_all_fd_wait-WaitSpec rest (after k rest n (b ∷ bs)) (drop n (b ∷ bs)))
write_all_fd_wait-WaitSpec (again ∷ rest) k (b ∷ bs) = write_all_fd_wait-WaitSpec rest k (b ∷ bs)
write_all_fd_wait-WaitSpec (failed ∷ rest) k (b ∷ bs) = (0, sym (append-nil k.sent))

-- The bytes that the answers take, and that none is an error.
abbrev pub room : List Answer → ℕ
room [] = 0
room (wrote n ∷ rest) = n + room rest
room (again ∷ rest) = room rest
room (failed ∷ rest) = room rest

abbrev pub NoError : List Answer → Type 0
NoError [] = Unit
NoError (wrote n ∷ rest) = NoError rest
NoError (again ∷ rest) = NoError rest
NoError (failed ∷ rest) = ⊥

length-drop : (n : ℕ) (bs : List ℕ) → length (drop n bs) ≡ length bs - n
length-drop zero bs = omega arith
length-drop (suc n) [] = omega arith
length-drop (suc n) (b ∷ bs) = omega (arith, length-drop n bs)

-- If the system makes room for all of the bytes, in whatever portions, and reports no error, the
-- write of a chain NAL returns 0.
pub write_all_fd_wait_returns :
    (script : List Answer) (k : Sink) (bs : List ℕ)
    → NoError script
    → length bs ≤ room script
    → (write_all_fd_wait script k bs).0 ≡ done
unfolding write_all_fd_wait
write_all_fd_wait_returns script k [] ne h = refl
write_all_fd_wait_returns [] k (b ∷ bs) ne h = absurd (omega arith)
write_all_fd_wait_returns (wrote n ∷ rest) k (b ∷ bs) ne h =
    write_all_fd_wait_returns rest _ (drop n (b ∷ bs)) ne (omega (arith, length-drop n (b ∷ bs)))
write_all_fd_wait_returns (again ∷ rest) k (b ∷ bs) ne h =
    write_all_fd_wait_returns rest k (b ∷ bs) ne h
write_all_fd_wait_returns (failed ∷ rest) k (b ∷ bs) ne h = elim ne [ ]

-- Outcomes of a write of a slice, and of a write to a file: on success all of the bytes have gone
-- out.
abbrev pub WholeSpec : Sink → List ℕ → Rc × Sink → Type 0
WholeSpec k bs (done, k') = k'.sent ≡ k.sent ++ bs
WholeSpec k bs (dropped, k') = (n : ℕ) × (n ≢ length bs) × (k'.sent ≡ k.sent ++ take n bs)
WholeSpec k bs (hard, k') = IsPartial k bs k'
WholeSpec k bs (waiting, k') = k'.sent ≡ k.sent
WholeSpec k bs (stuck, k') = ⊥

-- A slice that is written with the code 0 is in the fifo whole; one that counts as dropped is there
-- up to a number of bytes other than its length, which need not be 0.
pub write_whole_fd-WholeSpec :
    (script : List Answer) (k : Sink) (bs : List ℕ) → WholeSpec k bs (write_whole_fd script k bs)
unfolding write_whole_fd
write_whole_fd-WholeSpec [] k bs = refl
write_whole_fd-WholeSpec (wrote n ∷ rest) k bs = elim (Bool-cases (n == length bs)) [
  | inl e ↦
      let all : n ≡ length bs = ground arith in
      rw e (ap (λ (x : List ℕ). k.sent ++ x) (take_all bs n (omega (arith, all))))
  | inr e ↦ rw e (n, (λ same. absurd (ground arith)), refl)
]
write_whole_fd-WholeSpec (again ∷ rest) k [] =
    (1, (λ same. absurd (omega arith)), sym (append-nil k.sent))
write_whole_fd-WholeSpec (again ∷ rest) k (b ∷ bs) =
    (0, (λ same. absurd (omega arith)), sym (append-nil k.sent))
write_whole_fd-WholeSpec (failed ∷ rest) k bs = (0, sym (append-nil k.sent))

WaitSpec-ne-stuck : (k : Sink) (bs : List ℕ) (r : Rc × Sink) → WaitSpec k bs r → r.0 ≢ stuck
WaitSpec-ne-stuck k bs (done, k') w e = cc
WaitSpec-ne-stuck k bs (dropped, k') w e = cc
WaitSpec-ne-stuck k bs (hard, k') w e = cc
WaitSpec-ne-stuck k bs (waiting, k') w e = cc
WaitSpec-ne-stuck k bs (stuck, k') w e = w

WholeSpec-ne-stuck : (k : Sink) (bs : List ℕ) (r : Rc × Sink) → WholeSpec k bs r → r.0 ≢ stuck
WholeSpec-ne-stuck k bs (done, k') w e = cc
WholeSpec-ne-stuck k bs (dropped, k') w e = cc
WholeSpec-ne-stuck k bs (hard, k') w e = cc
WholeSpec-ne-stuck k bs (waiting, k') w e = cc
WholeSpec-ne-stuck k bs (stuck, k') w e = w

write_file-WholeSpec :
    (script : List Answer) (k : Sink) (bs : List ℕ) → WholeSpec k bs (write_file script k bs)
unfolding write_file
write_file-WholeSpec [] k bs = refl
write_file-WholeSpec (wrote n ∷ rest) k bs = elim (Bool-cases (n == length bs)) [
  | inl e ↦
      let all : n ≡ length bs = ground arith in
      rw e (ap (λ (x : List ℕ). k.sent ++ x) (take_all bs n (omega (arith, all))))
  | inr e ↦ rw e (n, refl)
]
write_file-WholeSpec (again ∷ rest) k bs = (0, sym (append-nil k.sent))
write_file-WholeSpec (failed ∷ rest) k bs = (0, sym (append-nil k.sent))

-- No write ends for want of fuel.
pub put-ne-stuck : (k : Sink) (chain : Bool) (bs : List ℕ) → (put k chain bs).0 ≢ stuck
unfolding put
put-ne-stuck k chain bs =
    if-both (λ (r : Rc × Sink). r.0 ≢ stuck) k.fifo
      (if-both (λ (r : Rc × Sink). r.0 ≢ stuck) chain
        (WaitSpec-ne-stuck k bs _ (write_all_fd_wait-WaitSpec k.script k bs))
        (WholeSpec-ne-stuck k bs _ (write_whole_fd-WholeSpec k.script k bs)))
      (WholeSpec-ne-stuck k bs _ (write_file-WholeSpec k.script k bs))
