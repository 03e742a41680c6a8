-- ===== src/LogFollow/Appended.antt =====
-- A file that is appended to is copied in full.
use nomad_driver_steamcmd.Base.{
  ℕ, nat_eq, Text, text_eq, length, length-append, drop, true, false, Option, none, some, List, [],
  ◌∷◌, ◌++◌, ◌≤◌, ◌≡◌, refl, sym, ap, subst, ◌∙◌, arith,
}
use mathlib.Core.List.{append_assoc}
use nomad_driver_steamcmd.LogFollow.{
  FileInfo, Look, Follower, taken, offset_of, begin_at, is_truncated, is_replaced, read_on,
  follow_step, follow_steps,
}
use nomad_driver_steamcmd.LogFollow.Lines.{joined}
use nomad_driver_steamcmd.LogFollow.Closed.{drop-append_left, drop-length, length-drop}
use nomad_driver_steamcmd.LogFollow.Steps.{IsWhole, read_on-IsWhole, read_on-joined}

-- At a poll the file is there, with this inode and contents; its reads return what it holds behind a
-- position.
pub record Shows (id : ℕ) (content : Text) (look : Look) : Type 0 where
  pub modified : ℕ
  pub path_seen :
      look.path_stat ≡ some (record { inode = id; size = length content; modified = modified })
  pub file_seen :
      look.file_stat ≡ some (record { inode = id; size = length content; modified = modified })
  pub can_open : look.opens ≡ true
  pub can_seek : look.seeks ≡ true
  pub all_read : (pos : ℕ) → pos ≤ length content → taken (look.reads pos) ≡ drop pos content

-- Polls of one file that is only appended to, and its contents before and after them.
pub data Grows (id : ℕ) : Text → List Look → Text → Type 0 where
  still : (content : Text) → Grows id content [] content
  grown :
      (content more content' end : Text) (look : Look) (looks : List Look)
      → content' ≡ content ++ more
      → Shows id content' look
      → Grows id content' looks end
      → Grows id content (look ∷ looks) end

-- The follower is at the end of the file, and has all of it from an offset on.
pub record Follows (offset : ℕ) (content : Text) (st : Follower) : Type 0 where
  pub whole : IsWhole st
  pub at_end : st.position ≡ some (length content)
  pub all : joined st.written ++ st.partial ≡ drop offset content

not-is_truncated :
    (id pos : ℕ) (content : Text) (look : Look)
    → Shows id content look
    → pos ≤ length content
    → is_truncated look pos ≡ false
unfolding is_truncated
not-is_truncated id pos content look shows h = rw shows.file_seen (ground arith)

not-is_replaced :
    (id : ℕ) (content : Text) (look : Look) → Shows id content look → is_replaced look ≡ false
unfolding is_replaced
not-is_replaced id content look shows = rw (shows.file_seen, shows.path_seen) (ground arith)

read_on-position :
    (id pos : ℕ) (content : Text) (look : Look) (st : Follower)
    → Shows id content look
    → pos ≤ length content
    → (read_on look pos st).position ≡ some (length content)
unfolding read_on
read_on-position id pos content look st shows h =
    rw (not-is_replaced id content look shows, not-is_truncated id pos content look shows h)
      (rw (shows.all_read pos h, length-drop pos content h) refl)

-- Reading on at a position from which the file is shown.
pub read_on-Follows :
    (id offset pos : ℕ) (content : Text) (look : Look) (st : Follower)
    → Shows id content look
    → pos ≤ length content
    → IsWhole st
    → joined st.written ++ (st.partial ++ drop pos content) ≡ drop offset content
    → Follows offset content (read_on look pos st)
read_on-Follows id offset pos content look st shows h w e = record {
  whole = read_on-IsWhole look pos st w;
  at_end = read_on-position id pos content look st shows h;
  all =
      read_on-joined look pos st w
      ∙ rw (not-is_truncated id pos content look shows h) (rw (shows.all_read pos h) e);
}

follow_step-opened :
    (look : Look) (pos : ℕ) (st : Follower)
    → st.position ≡ some pos
    → follow_step look st ≡ read_on look pos st
unfolding follow_step
follow_step-opened look pos st e = ground (arith, e)

follow_step-grown :
    (id offset : ℕ) (content more content' : Text) (look : Look) (st : Follower)
    → content' ≡ content ++ more
    → offset ≤ length content
    → Shows id content' look
    → Follows offset content st
    → Follows offset content' (follow_step look st)
follow_step-grown id offset content more content' look st e h shows f =
    let behind : drop (length content) content' ≡ more =
      ap (drop (length content)) e ∙ drop-length content more in
    let within : length content ≤ length content' =
      omega (arith, ap length e, length-append content more) in
    subst (Follows offset content') (sym (follow_step-opened look (length content) st f.at_end)) (
      read_on-Follows id offset (length content) content' look st shows within f.whole (
        rw behind (
          sym (append_assoc (joined st.written) st.partial more)
          ∙ ap (λ t. t ++ more) f.all
          ∙ sym (drop-append_left offset content more h)
          ∙ ap (drop offset) (sym e))))

pub follow_steps-Grows :
    (id offset : ℕ) (content end : Text) (looks : List Look) (st : Follower)
    → offset ≤ length content
    → Grows id content looks end
    → Follows offset content st
    → Follows offset end (follow_steps looks st)
unfolding follow_steps
follow_steps-Grows id offset content end [] st h (still _) f = f
follow_steps-Grows id offset content end (look ∷ looks) st h
      (grown _ more content' _ _ _ e shows later) f =
    follow_steps-Grows id offset content' end looks (follow_step look st)
      (omega (arith, ap length e, length-append content more)) later
      (follow_step-grown id offset content more content' look st e h shows f)

abbrev pub begun : Option FileInfo → Follower
begun stale = record { position = none; stale = stale; partial = []; written = [] }

pub offset_of-le :
    (stale : Option FileInfo) (now : FileInfo) (offset : ℕ)
    → offset_of stale now ≡ some offset
    → offset ≤ now.size
unfolding offset_of
offset_of-le none now offset h = ground (arith, h)
offset_of-le (some old) now offset h = ground (arith, h)

pub begin_at-begun :
    (id offset : ℕ) (content : Text) (look : Look) (stale : Option FileInfo) (now : FileInfo)
    → Shows id content look
    → offset_of stale now ≡ some offset
    → begin_at look now (begun stale) ≡ some offset
unfolding begin_at
begin_at-begun id offset content look stale now shows h =
    ground (arith, h, shows.can_open, shows.can_seek)

pub follow_step-begun :
    (offset : ℕ) (look : Look) (stale : Option FileInfo) (now : FileInfo)
    → look.path_stat ≡ some now
    → begin_at look now (begun stale) ≡ some offset
    → follow_step look (begun stale) ≡ read_on look offset (begun none)
unfolding follow_step
follow_step-begun offset look stale now p h = ground (arith, p, h)
