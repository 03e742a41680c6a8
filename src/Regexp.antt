-- ===== src/Regexp.antt =====
-- Go's regexp package, as far as the driver's patterns need it: a search for the leftmost match
-- that prefers the first alternative, with greedy and lazy repetition and capture groups.
-- Texts are bytes, and `(?i)` folds ASCII letters.
use nomad_driver_steamcmd.Base.{
  ℕ, zero, suc, ◌+◌, ◌-◌, ltb, leb, Text, nat_eq, ◌==◌, length, take, Bool, true, false, ◌&&◌, ◌||◌,
  Option, none, some, List, [], ◌∷◌, if◌then◌else◌,
}

pub data Re : Type 0 where
  one : (ℕ → Bool) → Re
  blank at_start at_end : Re
  seq either : Re → Re → Re
  greedy lazy : Re → Re
  group : ℕ → Re → Re

-- The texts of the groups that have matched, the latest first.
abbrev pub Groups : Type 0
Groups = List (ℕ × Text)

pub record Position : Type 0 where
  pub at_front : Bool
  pub rest : Text
  pub groups : Groups

abbrev pub Goal : Type 0
Goal = Position → Option Groups

abbrev pub Matcher : Type 0
Matcher = Position → Goal → Option Groups

-- Zero or more rounds, as many as can be first. A round that reads nothing ends the loop.
unfoldable pub greedy_loop : Matcher → ℕ → Matcher
greedy_loop step zero p k = k p
greedy_loop step (suc fuel) p k =
    elim (step p
      (λ q. if ltb (length q.rest) (length p.rest) then greedy_loop step fuel q k else none)) [
        | some g ↦ some g
        | none ↦ k p
      ]

-- Zero or more rounds, as few as can be first.
unfoldable pub lazy_loop : Matcher → ℕ → Matcher
lazy_loop step zero p k = k p
lazy_loop step (suc fuel) p k = elim (k p) [
  | some g ↦ some g
  | none ↦
      step p (λ q. if ltb (length q.rest) (length p.rest) then lazy_loop step fuel q k else none)
]

unfoldable pub run_one : (ℕ → Bool) → Text → Groups → Goal → Option Groups
run_one test [] groups k = none
run_one test (a ∷ s) groups k =
    if test a then k (record { at_front = false; rest = s; groups = groups }) else none

unfoldable pub run : Re → Matcher
unfolding run_one
run (one test) p k = run_one test p.rest p.groups k
run blank p k = k p
run at_start p k = if p.at_front then k p else none
run at_end p k = elim p.rest [ [] ↦ k p | _ ∷ _ ↦ none ]
run (seq r s) p k = run r p (λ q. run s q k)
run (either r s) p k =
    let second = run s p k in elim (run r p k) [ some g ↦ some g | none ↦ second ]
run (greedy r) p k = greedy_loop (run r) (length p.rest) p k
run (lazy r) p k = lazy_loop (run r) (length p.rest) p k
run (group n r) p k =
    run r p
      (λ q. k (record q { groups = (n, take (length p.rest - length q.rest) p.rest) ∷ q.groups }))

unfoldable pub find_from : Re → Bool → Text → Option Groups
unfolding run greedy_loop lazy_loop
find_from r front [] =
    run r (record { at_front = front; rest = []; groups = [] }) (λ q. some q.groups)
find_from r front (a ∷ s) =
    elim (run r (record { at_front = front; rest = a ∷ s; groups = [] }) (λ q. some q.groups)) [
      | some g ↦ some g
      | none ↦ find_from r false s
    ]

-- `FindStringSubmatch`
unfoldable pub find_submatch : Re → Text → Option Groups
unfolding find_from
find_submatch r s = find_from r true s

-- `MatchString`
unfoldable pub match_string : Re → Text → Bool
unfolding find_submatch
match_string r s = elim (find_submatch r s) [ some _ ↦ true | none ↦ false ]

unfoldable pub submatch : ℕ → Groups → Text
submatch n [] = []
submatch n ((m, s) ∷ groups) = if m == n then s else submatch n groups

-- Ways to write patterns.
abbrev pub literal : Text → Re
literal [] = blank
literal (a ∷ []) = one (λ b. b == a)
literal (a ∷ s) = seq (one (λ b. b == a)) (literal s)

abbrev pub lower : ℕ → ℕ
lower b = if leb b'A' b && leb b b'Z' then b + 32 else b

abbrev pub literal_fold : Text → Re
literal_fold [] = blank
literal_fold (a ∷ s) = seq (one (λ b. lower b == lower a)) (literal_fold s)

abbrev pub is_digit : ℕ → Bool
is_digit b = leb b'0' b && leb b b'9'

abbrev pub is_letter : ℕ → Bool
is_letter b = (leb b'a' b && leb b b'z') || (leb b'A' b && leb b b'Z')

abbrev pub is_hex : ℕ → Bool
is_hex b = is_digit b || (leb b'a' b && leb b b'f') || (leb b'A' b && leb b b'F')

-- `\s`, which has no vertical tab.
abbrev pub is_blank : ℕ → Bool
is_blank b = b == b' ' || b == 9 || b == 10 || b == 12 || b == 13

abbrev pub plus : Re → Re
plus r = seq r (greedy r)

abbrev pub spaces : Re
spaces = greedy (one is_blank)
