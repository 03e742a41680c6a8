-- ===== src/Process/Known.antt =====
-- What is known of the processes from earlier rounds.
use nomad_driver_steamcmd.Base.{
  ℕ, nat_eq, ◌==◌, Text, Bool, Bool-cases, true, Option, none, some, some-eq, [], ◌∷◌, ◌≡◌, ap, sym,
  ◌∙◌, arith, inl, inr,
}
use nomad_driver_steamcmd.Process.Found.{is_in, look-member}
use nomad_driver_steamcmd.Process.Members.{
  ProcDir, MemberState, Known, carries, known_at, look, members_in,
}
use nomad_driver_steamcmd.Process.Terminate.Keeps.{AllMine}

known_at-is_in :
    (known : Known) (pid : ℕ) (st : MemberState)
    → known_at pid known ≡ some st
    → st.member ≡ true
    → is_in pid (members_in known) ≡ true
unfolding known_at members_in is_in
known_at-is_in [] pid st found member = cc
known_at-is_in ((p, seen) ∷ known) pid st found member = elim (Bool-cases (p == pid)) [
  | inl same ↦ ground (arith, ap (λ k. k.member) (some-eq (found-here same)), member, same)
  | inr other ↦ ground (arith, known_at-is_in known pid st, found, member)
]
  where
    found-here : (p == pid) ≡ true → some seen ≡ some st
    found-here same = ground (arith, found, same)

-- A process that is seen as a member was one, or carries the marker.
pub look-mine :
    (proc : ProcDir) (mine : ℕ → Bool) (marker : Text) (now : ℕ) (known : Known) (pid : ℕ)
    (o : Option MemberState)
    → known_at pid known ≡ o
    → (carries proc marker pid ≡ true → mine pid ≡ true)
    → AllMine mine (members_in known)
    → (look proc marker now known pid).member ≡ true
    → mine pid ≡ true
look-mine proc mine marker now known pid none found marked all member =
    marked (sym (look-member proc marker now known pid none found) ∙ member)
look-mine proc mine marker now known pid (some st) found marked all member = ground (
  arith,
  look-member proc marker now known pid (some st) found,
  all pid,
  known_at-is_in known pid st found,
  marked,
)
