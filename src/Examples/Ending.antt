-- ===== src/Examples/Ending.antt =====
-- A task with a game and the wineserver that it needs, which end only when they are killed.
use nomad_driver_steamcmd.Base.{
  ℕ, nat_eq, nat_beq_iff, bytes, text_beq, text_eq, ◌==◌, pos, Bool, Bool-cases, true, false, not,
  ◌&&◌, ◌||◌, List, [], ◌∷◌, ◌≡◌, ◌+◌, arith, if◌then◌else◌, refl, inl, inr, subst, sym,
}
use nomad_driver_steamcmd.Process.Found.{is_in}
use nomad_driver_steamcmd.Process.Members.{is_support}
use nomad_driver_steamcmd.Process.Terminate.{
  Procs, poll_interval, split_off, stop_work, terminate_processes,
}
use nomad_driver_steamcmd.Process.Terminate.Ends.{
  left, Gone, Later, here, listed, slept, sent, Ending,
}
use nomad_driver_steamcmd.Process.Terminate.Order.{Ordered, terminate_processes-Gone}
use nomad_driver_steamcmd.Examples.Terminate.{is_kill}

-- The clock, whether each process is alive, and whether the wineserver was sent a signal too early.
record Wine : Type 0 where
  clock : ℕ
  game : Bool
  server : Bool
  early : Bool

abbrev procs : Procs Wine
procs = record {
  list = λ s. (7 ∷ 8 ∷ [], s);
  alive = λ pid s. if pid == 7 then s.game else s.server;
  comm = λ pid s. if pid == 7 then bytes "game.exe" else bytes "wineserver";
  signal = λ pids sig s. record s {
    game = s.game && not (is_kill sig && is_in 7 pids);
    server = s.server && not (is_kill sig && is_in 8 pids);
    early = s.early || (is_in 8 pids && s.game);
  };
  now = λ s. s.clock;
  sleep = λ s. record s { clock = s.clock + poll_interval };
}

abbrev alive : Bool → Wine → Bool
alive support s = if support then s.server else s.game

abbrev pid_for : Bool → ℕ
pid_for support = if support then 8 else 7

left-alive :
    (support : Bool) (t : Wine)
    → left procs support t ≡ (if alive support t then pid_for support ∷ [] else [])
unfolding split_off is_support text_beq
left-alive true t = ground arith
left-alive false t = ground arith

Later-alive :
    (support : Bool) (s t : Wine)
    → Later procs s t
    → alive support t ≡ true
    → alive support s ≡ true
Later-alive support s t (here _) h = h
Later-alive support s t (listed _ u later) h = Later-alive support s u later h
Later-alive true s t (slept _ u later) h = Later-alive true s u later h
Later-alive false s t (slept _ u later) h = Later-alive false s u later h
Later-alive true s t (sent pids sig _ u later) h = Later-alive true s u later (ground (arith, h))
Later-alive false s t (sent pids sig _ u later) h = Later-alive false s u later (ground (arith, h))

killed-alive :
    (support : Bool) (pids : List ℕ) (s : Wine)
    → alive support (procs.signal pids (pos 9) s) ≡ true
    → is_in (pid_for support) pids ≡ false
killed-alive true pids s h = ground (arith, h)
killed-alive false pids s h = ground (arith, h)

is_in-left :
    (support : Bool) (pid : ℕ) (t : Wine)
    → is_in pid (left procs support t) ≡ (alive support t && (pid_for support == pid))
unfolding is_in
is_in-left support pid t = rw (left-alive support t) (ground arith)

ending : Ending procs
ending = record {
  no_new = λ support pid s t later h.
      ground (
        arith,
        h,
        is_in-left support pid s,
        is_in-left support pid t,
        Later-alive support s t later,
      );
  killed = λ support pid pids s t later found late. elim (Bool-cases (pid_for support == pid)) [
    | inr other ↦ ground (arith, other, is_in-left support pid t)
    | inl same ↦ ground (
      arith,
      is_in-left support pid t,
      Later-alive support (procs.signal pids (pos 9) s) t later,
      killed-alive support pids s,
      subst (λ p. is_in p pids ≡ true) (sym ((nat_beq_iff (pid_for support) pid).0 same)) found,
    )
  ];
  lists = λ s. omega arith;
  sleeps = λ s. omega arith;
}

-- The wineserver was sent no signal while the game was there.
abbrev InOrder : Wine → Type 0
InOrder s = s.early ≡ false

ordered : Ordered procs InOrder
unfolding is_in text_beq is_support
ordered = record {
  lists = λ s safe. safe;
  sleeps = λ s safe. safe;
  work_sent = λ pids sig s safe work. elim (Bool-cases (is_in 8 pids)) [
    | inl server ↦ absurd (ground (arith, work 8 server))
    | inr spared ↦ ground (arith, safe, spared)
  ];
  support_sent = λ pids sig s safe gone. ground (arith, safe, gone, left-alive false s);
}

abbrev wine : Wine
wine = record { clock = 0; game = true; server = true; early = false }

terminate_processes-Gone_example :
    InOrder (terminate_processes procs (pos 2) poll_interval wine).1
    × Gone procs false (stop_work procs (pos 2) poll_interval wine)
    × ((terminate_processes procs (pos 2) poll_interval wine).0 ≡ true)
terminate_processes-Gone_example =
    terminate_processes-Gone procs ending InOrder (pos 2) poll_interval wine ordered refl
