-- ===== src/LogFollow/Shared.antt =====
-- `followLogs` and `lockedWriter`: several followers that write to one log at the same time.
use mathlib.Core.List.{append-nil, append_assoc}
use nomad_driver_steamcmd.Base.{
  ℕ, zero, suc, nat_eq, nat_beq_iff, Text, ◌==◌, Bool, Bool-cases, true, false, All, Option, none,
  some, List, [], ◌∷◌, ◌++◌, map, if◌then◌else◌, ◌≡◌, refl, sym, ap, drop, ◌∙◌, subst, arith, inl,
  inr, text_beq, text_eq,
}
use nomad_driver_steamcmd.LogFollow.{FileInfo, Look, stale_at, follow_file}
use nomad_driver_steamcmd.LogFollow.Lines.{joined, joined-append, IsLine}
use nomad_driver_steamcmd.LogFollow.Closed.{closed}
use nomad_driver_steamcmd.LogFollow.Polls.{Meets, follow_file-closed}
use nomad_driver_steamcmd.LogFollow.Steps.{follow_file-IsLine}

-- A path with what each poll of it meets.
abbrev pub Followed : Type 0
Followed = Text × List Look

-- `followLogs`: what each of its goroutines writes, by the number of the path.
unfoldable pub follow_logs : List Followed → List (Text × FileInfo) → ℕ → List Text
unfolding stale_at
follow_logs [] stale i = []
follow_logs ((p, looks) ∷ paths) stale zero = follow_file looks (stale_at p stale)
follow_logs ((p, looks) ∷ paths) stale (suc i) = follow_logs paths stale i

-- `lockedWriter`: what is in the log, who holds the lock and what of its text is still to be written,
-- and the texts that each goroutine has yet to write.
pub record LockedWriter : Type 0 where
  pub log : Text
  pub holder : Option (ℕ × Text)
  pub to_write : ℕ → List Text

unfoldable pub with_texts : ℕ → List Text → (ℕ → List Text) → ℕ → List Text
with_texts i texts to_write j = if i == j then texts else to_write j

-- `Write` takes the lock, writes its text by and by, and gives the lock back. The log takes every byte.
pub data WriteStep : LockedWriter → LockedWriter → Type 0 where
  locks :
      (i : ℕ) (t log : Text) (ts : List Text) (to_write : ℕ → List Text)
      → to_write i ≡ t ∷ ts
      → WriteStep
          (record { log = log; holder = none; to_write = to_write })
          (record { log = log; holder = some (i, t); to_write = with_texts i ts to_write })
  writes :
      (i b : ℕ) (t log : Text) (to_write : ℕ → List Text)
      → WriteStep
          (record { log = log; holder = some (i, b ∷ t); to_write = to_write })
          (record { log = log ++ (b ∷ []); holder = some (i, t); to_write = to_write })
  unlocks :
      (i : ℕ) (log : Text) (to_write : ℕ → List Text)
      → WriteStep
          (record { log = log; holder = some (i, []); to_write = to_write })
          (record { log = log; holder = none; to_write = to_write })

-- Any order of such steps, from an empty log.
pub data Written (start : ℕ → List Text) : LockedWriter → Type 0 where
  begin : Written start (record { log = []; holder = none; to_write = start })
  then_step : (w w' : LockedWriter) → Written start w → WriteStep w w' → Written start w'

-- The texts of one goroutine, of texts with the goroutines that wrote them.
unfoldable pub texts_of : ℕ → List (ℕ × Text) → List Text
texts_of i [] = []
texts_of i ((j, t) ∷ ws) = let rest = texts_of i ws in if j == i then t ∷ rest else rest

abbrev pub texts : List (ℕ × Text) → List Text
texts ws = map (λ w. w.1) ws

-- What the holder of the lock has yet to write.
abbrev rest_of : Option (ℕ × Text) → Text
rest_of none = []
rest_of (some (i, t)) = t

-- The log, with what the holder has yet to write, is a row of whole texts in which those of each
-- goroutine stand in its own order.
pub record IsMerge (start : ℕ → List Text) (w : LockedWriter) (ws : List (ℕ × Text)) : Type 0 where
  pub whole : w.log ++ rest_of w.holder ≡ joined (texts ws)
  pub in_order : (i : ℕ) → texts_of i ws ++ w.to_write i ≡ start i

texts_of-append :
    (i : ℕ) (ws vs : List (ℕ × Text)) → texts_of i (ws ++ vs) ≡ texts_of i ws ++ texts_of i vs
unfolding texts_of
texts_of-append i [] vs = refl
texts_of-append i ((j, t) ∷ ws) vs = ground (arith, texts_of-append i ws vs)

texts-append : (ws vs : List (ℕ × Text)) → texts (ws ++ vs) ≡ texts ws ++ texts vs
texts-append [] vs = refl
texts-append (w ∷ ws) vs = ap (λ l. w.1 ∷ l) (texts-append ws vs)

step-IsMerge :
    (start : ℕ → List Text) (w w' : LockedWriter)
    → WriteStep w w'
    → (ws : List (ℕ × Text)) × IsMerge start w ws
    → (ws : List (ℕ × Text)) × IsMerge start w' ws
unfolding joined with_texts texts_of
step-IsMerge start w w' (locks i t log ts to_write next) (ws, m) = (
  ws ++ ((i, t) ∷ []),
  record {
    whole =
        ap (λ l. l ++ t) (sym (append-nil log) ∙ m.whole)
        ∙ ap (λ l. joined (texts ws) ++ l) (sym (append-nil t))
        ∙ sym (joined-append (texts ws) (t ∷ []))
        ∙ ap joined (sym (texts-append ws ((i, t) ∷ [])));
    in_order = λ j. elim (Bool-cases (i == j)) [
      | inl same ↦ ground (
        arith,
        same,
        texts_of-append j ws ((i, t) ∷ []),
        append_assoc (texts_of j ws) (t ∷ []) ts,
        m.in_order j,
        sym (ap to_write ((nat_beq_iff i j).0 same)) ∙ next,
      )
      | inr other ↦ ground (
        arith,
        other,
        texts_of-append j ws ((i, t) ∷ []),
        append-nil (texts_of j ws),
        m.in_order j,
      )
    ];
  },
)
step-IsMerge start w w' (writes i b t log to_write) (ws, m) =
    (ws, record { whole = append_assoc log (b ∷ []) t ∙ m.whole; in_order = m.in_order })
step-IsMerge start w w' (unlocks i log to_write) (ws, m) =
    (ws, record { whole = m.whole; in_order = m.in_order })

Written-IsMerge :
    (start : ℕ → List Text) (w : LockedWriter)
    → Written start w
    → (ws : List (ℕ × Text)) × IsMerge start w ws
unfolding joined texts_of
Written-IsMerge start w begin = ([], record { whole = refl; in_order = λ i. refl })
Written-IsMerge start w (then_step before _ written step) =
    step-IsMerge start before w step (Written-IsMerge start before written)

All-if :
    (b : Bool) (t : Text) (ts : List Text)
    → All IsLine (if b then t ∷ ts else ts)
    → (b ≡ true → IsLine t) × All IsLine ts
All-if true t ts (line, lines) = (λ _. line, lines)
All-if false t ts lines = (λ h. cc, lines)

-- A text of a goroutine that writes lines is a line.
texts_of-IsLine :
    (ws : List (ℕ × Text)) → ((i : ℕ) → All IsLine (texts_of i ws)) → All IsLine (texts ws)
unfolding texts_of
texts_of-IsLine [] lines = tt
texts_of-IsLine ((i, t) ∷ ws) lines = (
  (All-if (i == i) t (texts_of i ws) (lines i)).0 ((nat_beq_iff i i).1 refl),
  texts_of-IsLine ws (λ j. (All-if (i == j) t (texts_of j ws) (lines j)).1),
)

follow_logs-IsLine :
    (paths : List Followed) (stale : List (Text × FileInfo)) (i : ℕ)
    → All IsLine (follow_logs paths stale i)
unfolding follow_logs
follow_logs-IsLine [] stale i = tt
follow_logs-IsLine ((p, looks) ∷ paths) stale zero = follow_file-IsLine looks (stale_at p stale)
follow_logs-IsLine ((p, looks) ∷ paths) stale (suc i) = follow_logs-IsLine paths stale i

-- The path of a number, with its polls; there are none behind the last path.
abbrev pub path_at : ℕ → List Followed → Followed
path_at i [] = ([], [])
path_at zero (p ∷ paths) = p
path_at (suc i) (p ∷ paths) = path_at i paths

follow_logs-path_at :
    (paths : List Followed) (stale : List (Text × FileInfo)) (i : ℕ)
    → follow_logs paths stale i
      ≡ follow_file (path_at i paths).1 (stale_at (path_at i paths).0 stale)
unfolding follow_logs follow_file text_beq
follow_logs-path_at [] stale i = refl
follow_logs-path_at (p ∷ paths) stale zero = refl
follow_logs-path_at (p ∷ paths) stale (suc i) = follow_logs-path_at paths stale i

-- However the followers of several files take turns, the log is in the end a row of whole lines, in
-- which those that each follower writes stand in its order, none of them lost or written twice; and
-- of the files that are only appended to once they are opened, the lines put together are all of the
-- text from the file's offset on, with a newline at its end.
pub follow_logs-IsMerge :
    (paths : List Followed) (stale : List (Text × FileInfo)) (w : LockedWriter)
    (appended : ℕ → Bool) (offset : ℕ → ℕ) (end : ℕ → Text)
    → Written (follow_logs paths stale) w
    → w.holder ≡ none
    → ((i : ℕ) → w.to_write i ≡ [])
    → ((i : ℕ)
        → appended i ≡ true
        → Meets (stale_at (path_at i paths).0 stale) (path_at i paths).1 (offset i) (end i))
    → (ws : List (ℕ × Text)) × (w.log ≡ joined (texts ws))
      × All IsLine (texts ws)
      × ((i : ℕ) → texts_of i ws ≡ follow_logs paths stale i)
      × ((i : ℕ)
          → joined (texts_of i ws) ≡ (
              if appended i
              then closed (drop (offset i) (end i))
              else joined (follow_logs paths stale i)))
follow_logs-IsMerge paths stale w appended offset end written free finished meets =
    let (ws, m) = Written-IsMerge (follow_logs paths stale) w written in
    let all : (i : ℕ) → texts_of i ws ≡ follow_logs paths stale i = λ i.
      sym (append-nil (texts_of i ws))
      ∙ sym (ap (λ l. texts_of i ws ++ l) (finished i))
      ∙ m.in_order i in
    (
      ws,
      sym (append-nil w.log) ∙ sym (ap (λ o. w.log ++ rest_of o) free) ∙ m.whole,
      texts_of-IsLine ws (λ i. subst (All IsLine) (sym (all i)) (follow_logs-IsLine paths stale i)),
      all,
      λ i. elim (Bool-cases (appended i)) [
        | inl grows ↦ rw grows (
            ap joined (all i ∙ follow_logs-path_at paths stale i)
            ∙ follow_file-closed (stale_at (path_at i paths).0 stale) (path_at i paths).1 (offset i)
                (end i) (meets i grows))
        | inr other ↦ rw other (ap joined (all i))
      ],
    )
