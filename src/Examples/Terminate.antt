-- ===== src/Examples/Terminate.antt =====
-- A task with one process, which ends only when it is killed.
use nomad_driver_steamcmd.Base.{
  ℕ, nat_eq, bytes, text_beq, text_eq, ◌==◌, ℤ, pos, negsuc, Bool, true, false, not, ◌&&◌, [], ◌∷◌,
  ◌≡◌, ◌+◌, arith, if◌then◌else◌,
}
use nomad_driver_steamcmd.Process.Found.{is_in}
use nomad_driver_steamcmd.Process.Terminate.{Procs, poll_interval, split_off}
use nomad_driver_steamcmd.Process.Terminate.Ends.{left, Later, here, listed, slept, sent, Ending}

-- The clock, and whether the process is alive.
abbrev pub Box : Type 0
Box = ℕ × Bool

abbrev pub is_kill : ℤ → Bool
is_kill (pos n) = n == 9
is_kill (negsuc n) = false

abbrev pub procs : Procs Box
procs = record {
  list = λ s. (7 ∷ [], s);
  alive = λ pid s. s.1;
  comm = λ pid s. bytes "game.exe";
  signal = λ pids sig s. (s.0, s.1 && not (is_kill sig));
  now = λ s. s.0;
  sleep = λ s. (s.0 + poll_interval, s.1);
}

Later-alive : (s t : Box) → Later procs s t → t.1 ≡ true → s.1 ≡ true
Later-alive s t (here _) h = h
Later-alive s t (listed _ u later) h = Later-alive s u later h
Later-alive s t (slept _ u later) h = Later-alive s u later h
Later-alive s t (sent pids sig _ u later) h = Later-alive s u later (ground (arith, h))

left-alive :
    (support : Bool) (t : Box) → left procs support t ≡ (if t.1 && not support then 7 ∷ [] else [])
unfolding split_off text_beq
left-alive true t = ground arith
left-alive false t = ground arith

pub ending : Ending procs
unfolding is_in
ending = record {
  no_new = λ support pid s t later h.
      ground (arith, h, left-alive support s, left-alive support t, Later-alive s t later);
  killed = λ support pid pids s t later h late.
      ground (arith, left-alive support t, Later-alive (s.0, s.1 && not (is_kill (pos 9))) t later);
  lists = λ s. omega arith;
  sleeps = λ s. omega arith;
}

abbrev pub box : Box
box = (0, true)
