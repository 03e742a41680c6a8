-- ===== src/FilePath.antt =====
-- Go's path/filepath on Unix, as far as the driver calls it: `IsAbs`, `Clean`, `Join`, `Rel`,
-- `Base` and `Dir`. A path is cut at its slashes, and the rules of `Clean` work on the pieces.
pub mod Elements
pub mod Clean
pub mod Inside
pub mod Join
use nomad_driver_steamcmd.Base.{
  ℕ, Text, bytes, text_eq, nat_eq, ◌==◌, split, join_with, has_prefix, trim_left, Bool, true, false,
  not, ◌&&◌, ◌||◌, Option, none, some, List, [], ◌∷◌, ◌++◌, map, foldl, reverse, if◌then◌else◌,
}

abbrev pub slash : ℕ
slash = b'/'

abbrev pub dot : Text
dot = bytes "."

abbrev pub dot_dot : Text
dot_dot = bytes ".."

-- `filepath.IsAbs`
unfoldable pub is_abs : Text → Bool
is_abs [] = false
is_abs (b ∷ _) = b == slash

-- One piece of a path meets the pieces kept so far, the last one first: an empty piece and "." go,
-- ".." takes the last kept piece away, or is kept where a relative path has nothing to take away.
unfoldable pub back_up : Bool → List Text → List Text
back_up rooted [] = if rooted then [] else dot_dot ∷ []
back_up rooted (top ∷ kept) = if top == dot_dot then dot_dot ∷ top ∷ kept else kept

unfoldable pub keep : Bool → List Text → Text → List Text
keep rooted kept piece =
    if piece == [] || piece == dot
    then kept
    else if piece == dot_dot
    then back_up rooted kept
    else piece ∷ kept

unfoldable pub clean_pieces : Text → List Text
clean_pieces p = reverse (foldl (keep (is_abs p)) [] (split slash p))

unfoldable pub render : Bool → List Text → Text
render true pieces = slash ∷ join_with slash pieces
render false [] = dot
render false (piece ∷ pieces) = join_with slash (piece ∷ pieces)

-- `filepath.Clean`
unfoldable pub clean : Text → Text
clean p = render (is_abs p) (clean_pieces p)

-- `filepath.Join`
unfoldable pub join : List Text → Text
join [] = []
join (piece ∷ pieces) =
    let rest = join pieces in if piece == [] then rest else clean (join_with slash (piece ∷ pieces))

-- The elements of a cleaned path, between its slashes.
unfoldable pub elements : Text → List Text
elements [] = []
elements (b ∷ p) =
    if b == slash then (if p == [] then [] else split slash p) else split slash (b ∷ p)

-- Up from every element of the base that is left, then down the target's: not past a "..".
unfoldable pub climb : List Text → List Text → Option Text
climb [] target = some (join_with slash target)
climb (top ∷ base) target =
    if top == dot_dot
    then none
    else some (join_with slash (map (λ _. dot_dot) (top ∷ base) ++ target))

unfoldable pub rel_elements : List Text → List Text → Option Text
unfolding climb
rel_elements [] target = climb [] target
rel_elements (b ∷ base) [] = climb (b ∷ base) []
rel_elements (b ∷ base) (t ∷ target) =
    let rest = rel_elements base target in if b == t then rest else climb (b ∷ base) (t ∷ target)

-- `filepath.Rel`, `none` for its error.
unfoldable pub rel : Text → Text → Option Text
rel base_path target_path =
    let base = clean base_path in
    let target = clean target_path in
    let base' = if base == dot then [] else base in
    if target == base
    then some dot
    else if (is_abs base' && is_abs target) || (not (is_abs base') && not (is_abs target))
    then rel_elements (elements base') (elements target)
    else none

-- The driver's test of a relative path for one that leaves its base.
unfoldable pub leaves : Text → Bool
leaves r = r == dot || r == dot_dot || has_prefix r (bytes "../")

-- Whether `target` lies outside `base`, or is `base` itself: what the driver refuses.
unfoldable pub escapes : Text → Text → Bool
escapes base target = elim (rel base target) [ none ↦ true | some r ↦ leaves r ]

-- The last element of a path, its slashes at the end left out.
unfoldable pub trim_slashes : Text → Text
trim_slashes p = reverse (trim_left (λ b. b == slash) (reverse p))

unfoldable pub last_piece : List Text → Text
last_piece [] = []
last_piece (piece ∷ []) = piece
last_piece (_ ∷ next ∷ pieces) = last_piece (next ∷ pieces)

-- `filepath.Base`
unfoldable pub base : Text → Text
unfolding trim_slashes last_piece
base p =
    if p == []
    then dot
    else if trim_slashes p == []
    then slash ∷ []
    else last_piece (split slash (trim_slashes p))

-- A path up to its last slash.
unfoldable pub up_to_slash : Text → Text
up_to_slash p = reverse (trim_left (λ b. not (b == slash)) (reverse p))

-- `filepath.Dir`
unfoldable pub dir : Text → Text
unfolding up_to_slash
dir p = clean (up_to_slash p)
