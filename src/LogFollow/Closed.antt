-- ===== src/LogFollow/Closed.antt =====
-- What a follower has written in the end: a text closed by a newline.
use nomad_driver_steamcmd.Base.{
  ℕ, zero, suc, nat_eq, Text, text_eq, text_beq, contains_byte, ◌==◌, length, drop, All, false,
  List, [], ◌∷◌, ◌++◌, if◌then◌else◌, ◌+◌, ◌≤◌, ◌≡◌, refl, sym, ap, ◌∙◌, arith,
}
use mathlib.Core.List.{append-nil}
use nomad_driver_steamcmd.LogFollow.{Follower, finish}
use nomad_driver_steamcmd.LogFollow.Lines.{joined, joined-append, IsLine}
use nomad_driver_steamcmd.LogFollow.Steps.{IsWhole}

-- A text with a newline at its end: one is added where something stands behind the last one.
unfoldable pub closed : Text → Text
closed [] = []
closed (b ∷ []) = if b == 10 then b ∷ [] else b ∷ 10 ∷ []
closed (b ∷ c ∷ s) = b ∷ closed (c ∷ s)

closed-append : (t : Text) (b : ℕ) (s : Text) → closed (t ++ (b ∷ s)) ≡ t ++ closed (b ∷ s)
unfolding closed
closed-append [] b s = refl
closed-append (a ∷ []) b s = refl
closed-append (a ∷ c ∷ t) b s = ap (λ u. a ∷ u) (closed-append (c ∷ t) b s)

closed-plain :
    (b : ℕ) (s : Text) → contains_byte (b ∷ s) 10 ≡ false → closed (b ∷ s) ≡ (b ∷ s) ++ (10 ∷ [])
unfolding closed contains_byte
closed-plain b [] h = ground arith
closed-plain b (c ∷ s) h = ap (λ u. b ∷ u) (closed-plain c s (ground arith))

closed-IsLine : (t : Text) → IsLine t → closed t ≡ t
closed-IsLine t l = ap closed l.ends ∙ closed-append l.body 10 [] ∙ unfold closed in sym l.ends

closed-joined : (ts : List Text) → All IsLine ts → closed (joined ts) ≡ joined ts
unfolding joined
closed-joined [] h = unfold closed in refl
closed-joined (t ∷ ts) h = go (joined ts) (closed-joined ts h.1)
  where
    go : (s : Text) → closed s ≡ s → closed (t ++ s) ≡ t ++ s
    go [] e = rw append-nil (closed-IsLine t h.0)
    go (b ∷ s) e = closed-append t b s ∙ ap (λ u. t ++ u) e

joined-one : (t : Text) → joined (t ∷ []) ≡ t
unfolding joined
joined-one t = append-nil t

-- What is written in the end is all the text, closed.
pub joined-finish :
    (st : Follower) → IsWhole st → joined (finish st) ≡ closed (joined st.written ++ st.partial)
unfolding finish text_beq
joined-finish st w = go st.partial w.kept
  where
    go :
        (p : Text)
        → contains_byte p 10 ≡ false
        → joined (if p == [] then st.written else st.written ++ ((p ++ (10 ∷ [])) ∷ []))
          ≡ closed (joined st.written ++ p)
    go [] h = rw append-nil (sym (closed-joined st.written w.lines))
    go (b ∷ p) h =
        joined-append st.written (((b ∷ p) ++ (10 ∷ [])) ∷ [])
        ∙ ap (λ u. joined st.written ++ u) (joined-one ((b ∷ p) ++ (10 ∷ [])))
        ∙ sym (
            closed-append (joined st.written) b p
            ∙ ap (λ u. joined st.written ++ u) (closed-plain b p h))

pub drop-append_left : (n : ℕ) (s t : Text) → n ≤ length s → drop n (s ++ t) ≡ drop n s ++ t
drop-append_left zero s t h = refl
drop-append_left (suc n) [] t h = absurd (omega arith)
drop-append_left (suc n) (a ∷ s) t h = drop-append_left n s t (omega arith)

pub drop-length : (s t : Text) → drop (length s) (s ++ t) ≡ t
drop-length [] t = refl
drop-length (a ∷ s) t = drop-length s t

pub length-drop : (n : ℕ) (s : Text) → n ≤ length s → n + length (drop n s) ≡ length s
length-drop zero s h = omega arith
length-drop (suc n) [] h = absurd (omega arith)
length-drop (suc n) (a ∷ s) h = omega (arith, length-drop n s)
