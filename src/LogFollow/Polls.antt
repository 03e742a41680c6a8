-- ===== src/LogFollow/Polls.antt =====
-- What the polls of a followed path meet, and what its follower makes of it.
use nomad_driver_steamcmd.Base.{
  ℕ, nat_eq, Text, text_eq, contains_byte, length, drop, false, ltb, not, ◌&&◌, ◌||◌, if◌then◌else◌,
  Option, none, some, List, [], ◌∷◌, ◌++◌, ◌≤◌, ◌≡◌, refl, sym, ap, subst, ◌∙◌, arith,
}
use nomad_driver_steamcmd.LogFollow.{
  FileInfo, Look, Follower, offset_of, begin_at, follow_step, follow_steps, follow_file,
}
use nomad_driver_steamcmd.LogFollow.Lines.{joined}
use nomad_driver_steamcmd.LogFollow.Closed.{closed, joined-finish}
use nomad_driver_steamcmd.LogFollow.Steps.{IsWhole}
use nomad_driver_steamcmd.LogFollow.Appended.{
  Shows, Grows, Follows, read_on-Follows, follow_steps-Grows, begun, offset_of-le, begin_at-begun,
  follow_step-begun,
}

-- What the polls of a path meet, given the file that was there before the launch: no file, a file that
-- cannot be opened, or the old one untouched, for a while; and from then on one file, which is read
-- from this offset on, is only appended to, and ends with these contents.
pub data Meets (stale : Option FileInfo) : List Look → ℕ → Text → Type 0 where
  nothing : Meets stale [] 0 []
  missing :
      (offset : ℕ) (end : Text) (look : Look) (looks : List Look)
      → look.path_stat ≡ none
      → Meets stale looks offset end
      → Meets stale (look ∷ looks) offset end
  unopened :
      (offset : ℕ) (end : Text) (look : Look) (looks : List Look) (now : FileInfo)
      → look.path_stat ≡ some now
      → look.opens ≡ false
      → Meets stale looks offset end
      → Meets stale (look ∷ looks) offset end
  untouched :
      (offset : ℕ) (end : Text) (look : Look) (looks : List Look) (now : FileInfo)
      → look.path_stat ≡ some now
      → offset_of stale now ≡ none
      → Meets stale looks offset end
      → Meets stale (look ∷ looks) offset end
  opened :
      (id offset : ℕ) (content end : Text) (look : Look) (looks : List Look)
      → (shows : Shows id content look)
      → offset_of stale (record { inode = id; size = length content; modified = shows.modified })
        ≡ some offset
      → Grows id content looks end
      → Meets stale (look ∷ looks) offset end

follow_step-waits :
    (look : Look) (now : FileInfo) (st : Follower)
    → st.position ≡ none
    → look.path_stat ≡ some now
    → begin_at look now st ≡ none
    → follow_step look st ≡ st
unfolding follow_step
follow_step-waits look now st closed_ p h = ground (arith, closed_, p, h)

follow_step-missing :
    (look : Look) (st : Follower)
    → st.position ≡ none
    → look.path_stat ≡ none
    → follow_step look st ≡ st
unfolding follow_step
follow_step-missing look st closed_ p = ground (arith, closed_, p)

begin_at-untouched :
    (look : Look) (now : FileInfo) (st : Follower)
    → offset_of st.stale now ≡ none
    → begin_at look now st ≡ none
unfolding begin_at
begin_at-untouched look now st h = ground (arith, h)

begin_at-unopened :
    (look : Look) (now : FileInfo) (st : Follower)
    → look.opens ≡ false
    → begin_at look now st ≡ none
unfolding begin_at
begin_at-unopened look now st h =
    rw h
      (elim (offset_of st.stale now)
        as (λ o.
          (elim o [
            | none ↦ none
            | some offset ↦
                if false && (not (ltb 0 offset) || look.seeks) then some offset else none
          ])
          ≡ none) [ none ↦ refl | some offset ↦ refl ])

-- The follower has written or kept all from an offset on.
abbrev HasAll : ℕ → Text → Follower → Type 0
HasAll offset end st = IsWhole st × (joined st.written ++ st.partial ≡ drop offset end)

-- What a follower has after its polls, from what they meet.
follow_steps-Meets :
    (stale : Option FileInfo) (looks : List Look) (offset : ℕ) (end : Text)
    → Meets stale looks offset end
    → HasAll offset end (follow_steps looks (begun stale))
unfolding follow_steps
follow_steps-Meets stale [] offset end nothing =
    (record { lines = tt; kept = unfold contains_byte in refl }, unfold joined in refl)
follow_steps-Meets stale (look ∷ looks) offset end (missing _ _ _ _ p later) =
    subst (λ st. HasAll offset end (follow_steps looks st))
      (sym (follow_step-missing look (begun stale) refl p))
      (follow_steps-Meets stale looks offset end later)
follow_steps-Meets stale (look ∷ looks) offset end (unopened _ _ _ _ now p shut later) =
    subst (λ st. HasAll offset end (follow_steps looks st))
      (sym (
        follow_step-waits look now (begun stale) refl p
          (begin_at-unopened look now (begun stale) shut)))
      (follow_steps-Meets stale looks offset end later)
follow_steps-Meets stale (look ∷ looks) offset end (untouched _ _ _ _ now p same later) =
    subst (λ st. HasAll offset end (follow_steps looks st))
      (sym (
        follow_step-waits look now (begun stale) refl p
          (begin_at-untouched look now (begun stale) same)))
      (follow_steps-Meets stale looks offset end later)
follow_steps-Meets stale (look ∷ looks) offset end (opened id _ content _ _ _ shows h grows) =
    let now : FileInfo = record { inode = id; size = length content; modified = shows.modified } in
    let within : offset ≤ length content = offset_of-le stale now offset h in
    let first =
      read_on-Follows id offset offset content look (begun none) shows within
        (record { lines = tt; kept = unfold contains_byte in refl }) (unfold joined in refl) in
    let stepped =
      follow_step-begun offset look stale now shows.path_seen
        (begin_at-begun id offset content look stale now shows h) in
    let all =
      follow_steps-Grows id offset content end looks (follow_step look (begun stale)) within grows
        (subst (Follows offset content) (sym stepped) first) in
    (all.whole, all.all)

-- A file of follow_logs that is only appended to once it is opened is copied in full from its offset
-- on: from where the previous run's text ended if it is the file that was there before the launch,
-- however long that stays untouched, else from the start. What is written in all is this text, with a
-- newline at its end if it had none; and nothing is written if no poll meets a file, or none but the
-- untouched old one.
pub follow_file-closed :
    (stale : Option FileInfo) (looks : List Look) (offset : ℕ) (end : Text)
    → Meets stale looks offset end
    → joined (follow_file looks stale) ≡ closed (drop offset end)
unfolding follow_file
follow_file-closed stale looks offset end meets =
    let (whole, all) = follow_steps-Meets stale looks offset end meets in
    joined-finish (follow_steps looks (begun stale)) whole ∙ ap closed all
