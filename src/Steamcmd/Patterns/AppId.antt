-- ===== src/Steamcmd/Patterns/AppId.antt =====
-- `^\d+$` matches the texts that are digits only, and not empty.
use nomad_driver_steamcmd.Base.{
  ℕ, zero, suc, ◌≤◌, Text, length, nat_eq, All, ◌≡◌, ◌≢◌, ◌↔◌, refl, sym, ◌∙◌, Bool, true, false,
  ◌&&◌, some, none, ◌∷◌, [], arith, if◌then◌else◌,
}
use nomad_driver_steamcmd.Regexp.{
  one, at_end, Position, Goal, Groups, greedy_loop, run, find_from, is_digit,
}
use nomad_driver_steamcmd.Steamcmd.Patterns.{re_app_id, is_app_id}

abbrev pub DigitsOnly : Text → Type 0
DigitsOnly = All (λ b. is_digit b ≡ true)

all_digits : Text → Bool
all_digits [] = true
all_digits (b ∷ s) = is_digit b && all_digits s

all_digits-DigitsOnly : (s : Text) → (all_digits s ≡ true) ↔ DigitsOnly s
unfolding all_digits
all_digits-DigitsOnly [] = (λ _. tt, λ _. refl)
all_digits-DigitsOnly (b ∷ s) = (
  λ h. (ground arith, (all_digits-DigitsOnly s).0 (ground arith)),
  λ h. ground (arith, (all_digits-DigitsOnly s).1 h.1),
)

abbrev at : Text → Groups → Position
at s g = record { at_front = false; rest = s; groups = g }

abbrev end : Goal
end q = run at_end q (λ q. some q.groups)

greedy_loop-digits :
    (fuel : ℕ) (s : Text) (g : Groups)
    → length s ≤ fuel
    → greedy_loop (run (one is_digit)) fuel (at s g) end ≡ (if all_digits s then some g else none)
unfolding greedy_loop run all_digits
greedy_loop-digits zero [] g h = refl
greedy_loop-digits zero (b ∷ s) g h = absurd (omega arith)
greedy_loop-digits (suc fuel) [] g h = refl
greedy_loop-digits (suc fuel) (b ∷ s) g h =
    ground (arith, greedy_loop-digits fuel s g (omega arith))

find_from-inside : (s : Text) → find_from re_app_id false s ≡ none
unfolding find_from re_app_id
find_from-inside [] = refl
find_from-inside (b ∷ s) = find_from-inside s

is_app_id-cons : (b : ℕ) (s : Text) → is_app_id (b ∷ s) ≡ all_digits (b ∷ s)
unfolding is_app_id all_digits
is_app_id-cons b s =
    ground (arith, greedy_loop-digits (length s) s [] (omega arith), find_from-inside s)

-- The guard on app_id holds exactly of the texts that are digits only and not empty.
pub is_app_id_iff : (s : Text) → (is_app_id s ≡ true) ↔ ((s ≢ []) × DigitsOnly s)
unfolding is_app_id
is_app_id_iff [] = (λ h. cc, λ h. absurd (h.0 refl))
is_app_id_iff (b ∷ s) = (
  λ h. (λ e. cc, (all_digits-DigitsOnly (b ∷ s)).0 (sym (is_app_id-cons b s) ∙ h)),
  λ h. is_app_id-cons b s ∙ (all_digits-DigitsOnly (b ∷ s)).1 h.1,
)
