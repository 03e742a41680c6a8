-- ===== src/LogFollow/Steps.antt =====
-- Following over many polls.
use nomad_driver_steamcmd.Base.{
  ℕ, nat_eq, Text, text_eq, contains_byte, ◌==◌, All, All-append, Bool-cases, false, Option, none,
  some, List, [], ◌∷◌, ◌++◌, if◌then◌else◌, ◌≡◌, refl, ap, ◌∙◌, inl, inr,
}
use mathlib.Core.List.{append_assoc}
use nomad_driver_steamcmd.LogFollow.{
  FileInfo, Look, Follower, drain, taken, begin_at, is_truncated, read_on, follow_step,
  follow_steps, finish, follow_file,
}
use nomad_driver_steamcmd.LogFollow.Lines.{joined, joined-append, IsLine, Cuts, drain-Cuts}

-- Whole lines were written, and what is kept has no newline.
pub record IsWhole (st : Follower) : Type 0 where
  pub lines : All IsLine st.written
  pub kept : contains_byte st.partial 10 ≡ false

-- Where reading goes on, and what is kept of an unfinished line.
abbrev pub from : Look → ℕ → ℕ
from look pos = if is_truncated look pos then 0 else pos

abbrev pub unfinished : Look → ℕ → Follower → Text
unfinished look pos st = if is_truncated look pos then [] else st.partial

module _ (look : Look) (pos : ℕ) (st : Follower) (w : IsWhole st) where
  unfinished_plain : contains_byte (unfinished look pos st) 10 ≡ false
  unfinished_plain = elim (Bool-cases (is_truncated look pos)) [
    | inl cut ↦ rw cut (unfold contains_byte in refl)
    | inr on ↦ rw on w.kept
  ]

  step-Cuts :
      Cuts
        (unfinished look pos st ++ taken (look.reads (from look pos)))
        (drain (look.reads (from look pos)) (unfinished look pos st))
  step-Cuts = drain-Cuts (look.reads (from look pos)) (unfinished look pos st) unfinished_plain

  pub read_on-IsWhole : IsWhole (read_on look pos st)
  unfolding read_on
  read_on-IsWhole = record {
    lines = All-append IsLine st.written _ w.lines step-Cuts.whole;
    kept = step-Cuts.rest_plain;
  }

  pub read_on-joined :
      joined (read_on look pos st).written ++ (read_on look pos st).partial
      ≡ joined st.written ++ (unfinished look pos st ++ taken (look.reads (from look pos)))
  unfolding read_on
  read_on-joined =
      let p = drain (look.reads (from look pos)) (unfinished look pos st) in
      ap (λ t. t ++ p.1) (joined-append st.written p.0)
      ∙ append_assoc (joined st.written) (joined p.0) p.1
      ∙ ap (λ t. joined st.written ++ t) step-Cuts.same

follow_step-IsWhole : (look : Look) (st : Follower) → IsWhole st → IsWhole (follow_step look st)
unfolding follow_step
follow_step-IsWhole look st w = opened st.position
  where
    begun :
        FileInfo
        → (o : Option ℕ)
        → IsWhole
            (elim o [ none ↦ st | some offset ↦ read_on look offset (record st { stale = none }) ])
    begun now none = w
    begun now (some offset) =
        read_on-IsWhole look offset (record st { stale = none })
          (record { lines = w.lines; kept = w.kept })

    seen :
        (o : Option FileInfo)
        → IsWhole (elim o [
          | none ↦ st
          | some now ↦ elim (begin_at look now st) [
            | none ↦ st
            | some offset ↦ read_on look offset (record st { stale = none })
          ]
        ])
    seen none = w
    seen (some now) = begun now (begin_at look now st)

    opened :
        (o : Option ℕ)
        → IsWhole (elim o [
          | some pos ↦ read_on look pos st
          | none ↦ elim look.path_stat [
            | none ↦ st
            | some now ↦ elim (begin_at look now st) [
              | none ↦ st
              | some offset ↦ read_on look offset (record st { stale = none })
            ]
          ]
        ])
    opened (some pos) = read_on-IsWhole look pos st w
    opened none = seen look.path_stat

follow_steps-IsWhole :
    (looks : List Look) (st : Follower) → IsWhole st → IsWhole (follow_steps looks st)
unfolding follow_steps
follow_steps-IsWhole [] st w = w
follow_steps-IsWhole (look ∷ looks) st w =
    follow_steps-IsWhole looks (follow_step look st) (follow_step-IsWhole look st w)

finish-IsLine : (st : Follower) → IsWhole st → All IsLine (finish st)
unfolding finish
finish-IsLine st w = elim (Bool-cases (st.partial == [])) [
  | inl empty ↦ rw empty w.lines
  | inr more ↦ rw more (
      All-append IsLine st.written ((st.partial ++ (10 ∷ [])) ∷ []) w.lines
        (record { body = st.partial; plain = w.kept; ends = refl }, tt))
]

-- Whatever the files do, each write to the task's stdout is one whole line, so lines of several files
-- are not mixed.
pub follow_file-IsLine :
    (looks : List Look) (stale : Option FileInfo) → All IsLine (follow_file looks stale)
unfolding follow_file
follow_file-IsLine looks stale =
    finish-IsLine
      (follow_steps looks (record { position = none; stale = stale; partial = []; written = [] }))
      (follow_steps-IsWhole looks _ (record { lines = tt; kept = unfold contains_byte in refl }))
