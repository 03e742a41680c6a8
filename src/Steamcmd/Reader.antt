-- ===== src/Steamcmd/Reader.antt =====
-- The reading loop of `runInstall` over a `bufio.Reader`, with the reader's buffer: the slice that
-- `ReadLine` returns is a part of that buffer, and later reads write over it.
pub mod Slices
pub mod Refines
pub mod Seen
use nomad_driver_steamcmd.Base.{
  ℕ, zero, suc, ◌+◌, ◌-◌, leb, Text, nat_eq, text_eq, text_beq, ◌==◌, length, take, drop, replicate,
  Bool, true, false, not, ◌&&◌, Option, none, some, List, [], ◌∷◌, ◌++◌, if◌then◌else◌,
}
use nomad_driver_steamcmd.Steamcmd.Lines.{newline, carriage_return, drop_return}

-- The buffer is the bytes already read, those to read, and those left from earlier contents. `input` is
-- what the pipe has still to deliver, and `reads` counts its reads.
pub record Reader : Type 0 where
  pub read : Text
  pub unread : Text
  pub old : Text
  pub input : Text
  pub reads : ℕ

unfoldable pub buffer : Reader → Text
buffer rd = rd.read ++ (rd.unread ++ rd.old)

abbrev pub at_most : ℕ → ℕ → ℕ
at_most a b = if leb a b then a else b

-- The bytes before the first newline, and those behind it.
unfoldable pub cut_line : Text → Option (Text × Text)
cut_line [] = none
cut_line (a ∷ s) =
    let more = cut_line s in
    if a == newline
    then some ([], s)
    else elim more [ none ↦ none | some (l, rest) ↦ some (a ∷ l, rest) ]

pub record LineRead : Type 0 where
  pub line : Text
  pub is_prefix : Bool
  pub reader : Reader

-- The last byte read is unread again.
unfoldable pub give_back : Text → Reader → Reader
give_back kept rd = record rd { read = kept; unread = carriage_return ∷ rd.unread }

-- What `ReadLine` makes of the slice.
unfoldable pub reader_finish : ℕ → Text → Bool → Reader → Option LineRead
unfolding give_back text_beq drop_return
reader_finish size slice found rd =
    let (short, returned) = drop_return slice in
    if found
    then some (record { line = short; is_prefix = false; reader = rd })
    else if slice == []
    then none
    else if length slice == size
    then some (record {
      line = short;
      is_prefix = true;
      reader = if returned then give_back short rd else rd;
    })
    else some (record { line = slice; is_prefix = false; reader = rd })

-- `string(b)`, which is made after the rest of the line was skipped: by then the front of the buffer,
-- where an overlong line's first part was, may have been written over.
unfoldable pub seen_line : LineRead → Reader → Text
seen_line r rd = if r.is_prefix then take (length r.line) (buffer rd) else r.line

-- `size` is the buffer's, and `amount i` is how much the pipe's i-th read would deliver: a read
-- delivers a byte or more, and no more than there is room for and than there is.
module _ (size : ℕ) (amount : ℕ → ℕ) where
  -- The bytes move to the front of the buffer, and a read of the pipe fills in behind them.
  unfoldable pub fill : Reader → Reader
  unfolding buffer
  fill rd =
      let behind = drop (length rd.unread) (buffer rd) in
      let n = at_most (suc (amount rd.reads)) (size - length rd.unread) in
      let data_read = take n rd.input in
      record {
        read = [];
        unread = rd.unread ++ data_read;
        old = drop (length data_read) behind;
        input = drop n rd.input;
        reads = suc rd.reads;
      }

  -- `ReadSlice`: the slice without its newline, whether there was one, and the reader.
  unfoldable pub slice_loop : ℕ → Reader → Text × Bool × Reader
  slice_loop zero rd = (rd.unread, false, rd)
  slice_loop (suc fuel) rd =
      let all_read = record rd { read = rd.read ++ rd.unread; unread = [] } in
      let later = slice_loop fuel (fill rd) in
      elim (cut_line rd.unread) [
        | some (l, rest) ↦
            (l, true, record rd { read = rd.read ++ (l ++ (newline ∷ [])); unread = rest })
        | none ↦
            if leb size (length rd.unread)
            then (rd.unread, false, all_read)
            else elim rd.input [ [] ↦ (rd.unread, false, all_read) | _ ∷ _ ↦ later ]
      ]

  -- `ReadLine`
  unfoldable pub reader_line : Reader → Option LineRead
  unfolding slice_loop cut_line fill reader_finish
  reader_line rd =
      let (slice, found, rd') = slice_loop (suc size) rd in reader_finish size slice found rd'

  -- The loop over the rest of an overlong line.
  unfoldable pub reader_skip : ℕ → Reader → Reader
  reader_skip zero rd = rd
  reader_skip (suc fuel) rd = elim (reader_line rd) [
    | none ↦ rd
    | some r ↦ let more = reader_skip fuel r.reader in if r.is_prefix then more else r.reader
  ]

  unfoldable pub after_read : ℕ → LineRead → Reader
  after_read fuel r = if r.is_prefix then reader_skip fuel r.reader else r.reader

  unfoldable pub seen_from : ℕ → Reader → List Text
  seen_from zero rd = []
  seen_from (suc fuel) rd = elim (reader_line rd) [
    | none ↦ []
    | some r ↦ seen_line r (after_read fuel r) ∷ seen_from fuel (after_read fuel r)
  ]

  -- A new reader has an empty buffer; its bytes are zero.
  unfoldable pub new_reader : Text → Reader
  new_reader output = record {
    read = [];
    unread = [];
    old = replicate size 0;
    input = output;
    reads = 0;
  }

  -- The lines that the loop looks at. Each round reads a byte or more, so the fuel is enough.
  unfoldable pub seen_lines : Text → List Text
  unfolding seen_from seen_line after_read reader_skip reader_line new_reader
  seen_lines output = seen_from (suc (length output)) (new_reader output)
