-- ===== src/Steamcmd/Reader/Refines.antt =====
-- The buffered reader does what its abstract view says.
use nomad_driver_steamcmd.Base.{
  ℕ, zero, suc, ◌≤◌, ◌<◌, Text, nat_eq, text_eq, ◌==◌, length, Bool, Bool-cases, true, false,
  Option, none, some, [], ◌≡◌, ◌⊎◌, refl, arith, inl, inr, ap,
}
use nomad_driver_steamcmd.Steamcmd.Lines.{
  drop_return, finish_line, ReadLine, read_line, skip_line, after_line,
}
use nomad_driver_steamcmd.Steamcmd.Reader.{
  Reader, slice_loop, LineRead, reader_finish, reader_line, reader_skip, after_read,
}
use nomad_driver_steamcmd.Steamcmd.Reader.Slices.{view, slice_loop-read_slice}

-- What a line read owes to its view.
pub record Agrees (size : ℕ) (r : LineRead) (v : ReadLine) : Type 0 where
  pub same_line : r.line ≡ v.line
  pub same_kind : r.is_prefix ≡ v.is_prefix
  pub same_rest : view r.reader ≡ v.rest
  pub in_buffer : length r.reader.unread ≤ size

abbrev pub Reads : ℕ → Option LineRead → Option ReadLine → Type 0
Reads size none none = Unit
Reads size none (some v) = ⊥
Reads size (some r) none = ⊥
Reads size (some r) (some v) = Agrees size r v

pub Reads-cases :
    (size : ℕ) (o : Option LineRead) (p : Option ReadLine)
    → Reads size o p
    → ((o ≡ none) × (p ≡ none))
      ⊎ ((r : LineRead) × (v : ReadLine) × (o ≡ some r) × (p ≡ some v) × Agrees size r v)
Reads-cases size none none h = inl (refl, refl)
Reads-cases size none (some v) h = absurd h
Reads-cases size (some r) none h = absurd h
Reads-cases size (some r) (some v) h = inr (r, v, refl, refl, h)

reader_finish-Reads :
    (size : ℕ) (slice : Text) (found : Bool) (rd : Reader)
    → 0 < size
    → length rd.unread ≤ size
    → (found ≡ false → rd.unread ≡ [])
    → Reads size (reader_finish size slice found rd) (finish_line size slice found (view rd))
unfolding reader_finish finish_line
reader_finish-Reads size slice true rd pos fits done = record {
  same_line = refl;
  same_kind = refl;
  same_rest = refl;
  in_buffer = fits;
}
reader_finish-Reads size slice false rd pos fits done = elim (Bool-cases (slice == [])) [
  | inl end ↦ rw end tt
  | inr more ↦ rw more (elim (Bool-cases (length slice == size)) [
    | inr short ↦
        rw short (record { same_line = refl; same_kind = refl; same_rest = refl; in_buffer = fits })
    | inl full ↦ rw full (elim (Bool-cases (drop_return slice).1) [
      | inl returned ↦ rw returned (record {
        same_line = refl;
        same_kind = refl;
        same_rest = refl;
        in_buffer = omega (arith, ap (λ s. length s) (done refl));
      })
      | inr kept ↦
          rw kept
            (record { same_line = refl; same_kind = refl; same_rest = refl; in_buffer = fits })
    ])
  ])
]

module _ (size : ℕ) (amount : ℕ → ℕ) (big : 1 < size) where
  -- `ReadLine` returns what its view says.
  pub reader_line-Reads :
      (rd : Reader)
      → length rd.unread ≤ size
      → Reads size (reader_line size amount rd) (read_line size (view rd))
  unfolding reader_line read_line
  reader_line-Reads rd fits =
      let (same, fits', done) =
        slice_loop-read_slice size amount (suc size) rd fits (omega arith) in
      rw (same, read_line)
        (reader_finish-Reads size (slice_loop size amount (suc size) rd).0
          (slice_loop size amount (suc size) rd).1 (slice_loop size amount (suc size) rd).2
          (omega arith) fits' done)

  -- Skipping leaves what its view says.
  pub reader_skip-view :
      (fuel : ℕ) (rd : Reader)
      → length rd.unread ≤ size
      → (view (reader_skip size amount fuel rd) ≡ skip_line fuel size (view rd))
        × (length (reader_skip size amount fuel rd).unread ≤ size)
  unfolding reader_skip skip_line
  reader_skip-view zero rd fits = (refl, fits)
  reader_skip-view (suc fuel) rd fits = elim (Reads-cases size _ _ (reader_line-Reads rd fits)) [
    | inl (end, end') ↦ (ground arith, ground arith)
    | inr (r, v, e, e', agrees) ↦
        let (same, fits') = reader_skip-view fuel r.reader agrees.in_buffer in
        (ground (arith, agrees.same_kind, agrees.same_rest), ground arith)
  ]

  pub after_read-view :
      (fuel : ℕ) (r : LineRead) (v : ReadLine)
      → Agrees size r v
      → (view (after_read size amount fuel r) ≡ after_line fuel size v)
        × (length (after_read size amount fuel r).unread ≤ size)
  unfolding after_read after_line
  after_read-view fuel r v agrees =
      let (same, fits) = reader_skip-view fuel r.reader agrees.in_buffer in
      (ground (arith, agrees.same_kind, agrees.same_rest), ground (arith, agrees.in_buffer))
