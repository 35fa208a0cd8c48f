-- ===== src/Emit/Output.antt =====
-- `write_whole_fd` and `write_all_fd_wait` of src/fshare2fifo/fshare2fifo.c, and the choice between
-- them and `fwrite`. What the system answers to the write calls is a script, which the model takes
-- as it comes.
use yi_outdoor_1080p_ptz.Prelude.{
  ℕ, Bool, List, [], ◌∷◌, ◌++◌, ◌==◌, if◌then◌else◌, length, take, drop,
}

-- A number of bytes taken, EAGAIN or EWOULDBLOCK, or another error.
pub data Answer : Type 0 where
  wrote : ℕ → Answer
  again : Answer
  failed : Answer

-- 0, -1 and -2; then: the script is over and the call has not returned; a loop without fuel.
pub data Rc : Type 0 where
  done : Rc
  dropped : Rc
  hard : Rc
  waiting : Rc
  stuck : Rc

-- `out_fd >= 0`, the answers to come, and the bytes that have gone out.
pub record Sink : Type 0 where
  pub fifo : Bool
  pub script : List Answer
  pub sent : List ℕ

-- A call takes at most the bytes that it is given.
unfoldable pub after : Sink → List Answer → ℕ → List ℕ → Sink
after k rest n bs = record k { script = rest; sent = k.sent ++ take n bs }

unfoldable pub write_whole_fd : List Answer → Sink → List ℕ → Rc × Sink
unfolding after
write_whole_fd [] k bs = (waiting, k)
write_whole_fd (wrote n ∷ rest) k bs = (if n == length bs then done else dropped, after k rest n bs)
write_whole_fd (again ∷ rest) k bs = (dropped, record k { script = rest })
write_whole_fd (failed ∷ rest) k bs = (hard, record k { script = rest })

-- `while (off < n)`, over the answers; `usleep` is no step of the model.
unfoldable pub write_all_fd_wait : List Answer → Sink → List ℕ → Rc × Sink
write_all_fd_wait script k [] = (done, record k { script = script })
write_all_fd_wait [] k (b ∷ bs) = (waiting, record k { script = [] })
write_all_fd_wait (wrote n ∷ rest) k (b ∷ bs) =
    write_all_fd_wait rest (after k rest n (b ∷ bs)) (drop n (b ∷ bs))
write_all_fd_wait (again ∷ rest) k (b ∷ bs) = write_all_fd_wait rest k (b ∷ bs)
write_all_fd_wait (failed ∷ rest) k (b ∷ bs) = (hard, record k { script = rest })

-- `fwrite(p, 1, n, out) == n`
unfoldable pub write_file : List Answer → Sink → List ℕ → Rc × Sink
unfolding after
write_file [] k bs = (waiting, k)
write_file (wrote n ∷ rest) k bs = (if n == length bs then done else hard, after k rest n bs)
write_file (again ∷ rest) k bs = (hard, record k { script = rest })
write_file (failed ∷ rest) k bs = (hard, record k { script = rest })

-- A chain NAL waits, a slice does not.
unfoldable pub put : Sink → Bool → List ℕ → Rc × Sink
put k chain bs =
    if k.fifo
    then (if chain then write_all_fd_wait k.script k bs else write_whole_fd k.script k bs)
    else write_file k.script k bs
