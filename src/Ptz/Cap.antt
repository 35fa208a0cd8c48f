-- ===== src/Ptz/Cap.antt =====
-- The sleeper of src/ptz/ptz.c against later requests.
use yi_outdoor_1080p_ptz.Prelude.{
  ℕ, true, false, ◌≡◌, ◌≢◌, refl, List, [], ◌∷◌, Option, none, arith,
}
use yi_outdoor_1080p_ptz.Ptz.Message.{cmd_stop}
use yi_outdoor_1080p_ptz.Ptz.Cgi.{
  Cgi, direction, light, cgi_mode, act, stop_now, move_now, is_active, wake,
}

-- A request that is not about the light stops or moves: the number in the file is then not that of
-- an earlier process.
active_after :
    (old pid : ℕ) (dir : List ℕ) (c : Cgi)
    → c.writable ≡ true
    → pid ≢ old
    → is_active old (act pid c none dir).active ≡ false
unfolding act stop_now move_now
active_after old pid [] c w ne = refl
active_after old pid (d ∷ ds) c w ne = rw w (ground arith)

-- Once a later request has moved the motor or stopped it, the sleeper of an earlier process sends
-- nothing when it wakes up. The later request is of another process, is not about the light and
-- can write /tmp/ptz_active.
pub wake_stale :
    (old pid : ℕ) (query : Option (List ℕ)) (c : Cgi)
    → c.writable ≡ true
    → light query ≡ none
    → pid ≢ old
    → (wake old (cgi_mode pid query c)).ipc ≡ (cgi_mode pid query c).ipc
unfolding wake cgi_mode
wake_stale old pid query c w l ne = rw (l, active_after old pid (direction query) c w ne) refl

own_active :
    (pid : ℕ) (c : Cgi) (d : ℕ) (ds : List ℕ)
    → c.writable ≡ true
    → is_active pid (act pid c none (d ∷ ds)).active ≡ true
unfolding act move_now
own_active pid c d ds w = rw w (ground arith)

-- With no request behind it, a move is stopped when its own sleeper wakes up: the stop message is
-- sent behind the move. The request can write /tmp/ptz_active.
pub wake_own :
    (pid : ℕ) (query : Option (List ℕ)) (c : Cgi) (d : ℕ) (ds : List ℕ)
    → c.writable ≡ true
    → light query ≡ none
    → direction query ≡ d ∷ ds
    → (wake pid (cgi_mode pid query c)).ipc ≡ (cmd_stop (cgi_mode pid query c).ipc).1
unfolding wake cgi_mode
wake_own pid query c d ds w l q = rw (l, q, own_active pid c d ds w) refl
