-- ===== src/Process/Status.antt =====
-- The state of a process in its `stat` file.
use mathlib.Core.List.{append_assoc}
use nomad_driver_steamcmd.Base.{
  ℕ, nat_eq, Text, bytes, contains_byte, ◌==◌, false, not, ◌||◌, none, some, [], ◌∷◌, ◌++◌, ok, ◌≡◌,
  refl, sym, ◌∙◌, arith,
}
use nomad_driver_steamcmd.Process.{byte_at, behind_last, state_byte, proc_alive}

behind_last-absent : (b : ℕ) (s : Text) → contains_byte s b ≡ false → behind_last b s ≡ none
unfolding behind_last contains_byte
behind_last-absent b [] h = refl
behind_last-absent b (a ∷ s) h = ground (arith, behind_last-absent b s)

behind_last-append :
    (b : ℕ) (front rest : Text)
    → contains_byte rest b ≡ false
    → behind_last b (front ++ (b ∷ rest)) ≡ some rest
unfolding behind_last
behind_last-append b [] rest h = ground (arith, behind_last-absent b rest h)
behind_last-append b (a ∷ front) rest h = rw (behind_last-append b front rest h) refl

-- A process is alive unless its state is Z or X, whatever its command is called: the name may hold
-- spaces and parentheses. What follows the name in the file holds no `)`.
pub proc_alive-stat :
    (pid comm rest : Text)
    → (state : ℕ) → contains_byte rest b')' ≡ false
    → ((state == b')') ≡ false)
    → proc_alive (ok (pid ++ (bytes " (" ++ (comm ++ (bytes ") " ++ (state ∷ rest))))))
      ≡ not (state == b'Z' || state == b'X')
unfolding proc_alive state_byte byte_at contains_byte
proc_alive-stat pid comm rest state plain other =
    let plain' : contains_byte (b' ' ∷ state ∷ rest) b')' ≡ false = ground arith in
    let last = behind_last-append b')' (pid ++ (bytes " (" ++ comm)) (b' ' ∷ state ∷ rest) plain' in
    let spread = append_assoc pid (bytes " (" ++ comm) (bytes ") " ++ (state ∷ rest)) in
    rw (sym spread ∙ refl) (rw (last, proc_alive) refl)
