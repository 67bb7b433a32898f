-- ===== src/Chunking/Defs.antt =====
-- chunking/base.py and chunking/recursive.py: `RecursiveCharacterChunker`, method by method.
-- The `while True` loop of `_split_with_positions` and the recursion of `_expand_oversized` run on
-- fuel; `none` is a loop that ran out of it, or a sub-chunker that the constructor refuses.
use doccontext.Base.{ℕ, zero, suc, ◌+◌, ◌-◌, min, Bool, false, ◌&&◌, ◌||◌, Option, none, some}
use doccontext.Base.{List, [], ◌∷◌, ◌++◌, leb, ltb, ◌==◌, if◌then◌else◌, Text, codes, same, find}
use doccontext.Base.{contains, length, is_empty, get_last?, drop, slice}
use doccontext.Base.Exn.{Result, ok, raise, value_error, throw}
use doccontext.Base.Int.{ℤ, pos, le_int, lt_int, to_nat}
use mathlib.Core.Option

-- `Chunk`
pub record Chunk : Type 0 where
  pub text : Text
  pub chunk_index : ℕ
  pub char_start : ℕ
  pub char_end : ℕ

abbrev pub default_separators : List Text
default_separators = codes "\n\n" ∷ codes "\n" ∷ codes ". " ∷ codes " " ∷ [] ∷ []

pub record RecursiveCharacterChunker : Type 0 where
  pub chunk_size : ℕ
  pub chunk_overlap : ℕ
  pub separators : List Text

-- `__init__`: the checks, in the order of the source
unfoldable pub init : ℤ → ℤ → List Text → Result RecursiveCharacterChunker
init chunk_size chunk_overlap separators =
    if le_int chunk_size (pos 0)
    then throw value_error (codes "chunk_size must be > 0")
    else if lt_int chunk_overlap (pos 0)
    then throw value_error (codes "chunk_overlap must be >= 0")
    else if le_int chunk_size chunk_overlap
    then throw value_error (codes "chunk_overlap must be < chunk_size")
    else ok (record {
      chunk_size = to_nat chunk_size;
      chunk_overlap = to_nat chunk_overlap;
      separators = separators;
    })

abbrev pub Piece : Type 0
Piece = ℕ × Text

abbrev pub Window : Type 0
Window = ℕ × ℕ

-- `_pick_separator`
unfoldable pub pick_separator : List Text → Text → Text
pick_separator [] text = []
pick_separator (sep ∷ separators) text =
    if is_empty sep || contains text sep then sep else pick_separator separators text

-- `[(i, ch) for i, ch in enumerate(text)]`
unfoldable pub enumerate_from : ℕ → Text → List Piece
enumerate_from i [] = []
enumerate_from i (ch ∷ text) = (i, ch ∷ []) ∷ enumerate_from (suc i) text

-- `text.find(sep, start)`
unfoldable pub find_from : Text → Text → ℕ → Option ℕ
find_from text sep start = Option.map (λ i. start + i) (find (drop start text) sep)

-- The `while True` loop of `_split_with_positions`.
unfoldable pub split_loop : ℕ → Text → Text → ℕ → List Piece → Option (List Piece)
unfolding find_from
split_loop zero text sep start pieces = none
split_loop (suc fuel) text sep start pieces = elim (find_from text sep start) [
  | none ↦ some (pieces ++ (start, drop start text) ∷ [])
  | some idx ↦
      let end = idx + length sep in
      split_loop fuel text sep end (pieces ++ (start, slice start end text) ∷ [])
]

-- `_split_with_positions`
unfoldable pub split_with_positions : Text → Text → Option (List Piece)
unfolding split_loop enumerate_from
split_with_positions text sep =
    if is_empty sep
    then some (enumerate_from 0 text)
    else split_loop (suc (length text)) text sep 0 []

-- The local variables of `_build_windows`.
pub record Assembly : Type 0 where
  pub windows : List Window
  pub cur_start : Option ℕ
  pub cur_end : ℕ
  pub cur_len : ℕ

-- How `_build_windows` calls `_expand_oversized(text, start, end, sep)`.
abbrev pub Expand : Type 0
Expand = ℕ → ℕ → Option (List Window)

module _ (chunk_size : ℕ) (expand : Expand) where
  -- The piece becomes the current window; one that is too long is expanded at once.
  unfoldable pub open_window : ℕ → ℕ → List Window → Option Assembly
  open_window piece_start piece_len windows =
      if ltb chunk_size piece_len
      then Option.map
          (λ expanded. record {
            windows = windows ++ expanded;
            cur_start = none;
            cur_end = 0;
            cur_len = 0;
          })
          (expand piece_start (piece_start + piece_len))
      else some (record {
        windows = windows;
        cur_start = some piece_start;
        cur_end = piece_start + piece_len;
        cur_len = piece_len;
      })

  -- The body of the `for` loop for a piece that is not empty.
  unfoldable pub add_piece : ℕ → ℕ → Option ℕ → Assembly → Option Assembly
  unfolding open_window
  add_piece piece_start piece_len none st = open_window piece_start piece_len st.windows
  add_piece piece_start piece_len (some cur) st =
      if leb (st.cur_len + piece_len) chunk_size
      then some (record st { cur_end = piece_start + piece_len; cur_len = st.cur_len + piece_len })
      else open_window piece_start piece_len (st.windows ++ (cur, st.cur_end) ∷ [])

  unfoldable pub assemble_step : Piece → Assembly → Option Assembly
  unfolding add_piece
  assemble_step (piece_start, piece_text) st =
      if is_empty piece_text
      then some st
      else add_piece piece_start (length piece_text) st.cur_start st

  unfoldable pub assemble_pieces : List Piece → Assembly → Option Assembly
  unfolding assemble_step Option.bind
  assemble_pieces [] st = some st
  assemble_pieces (piece ∷ pieces) st =
      Option.bind (assemble_step piece st) (assemble_pieces pieces)

abbrev pub no_windows : Assembly
no_windows = record { windows = []; cur_start = none; cur_end = 0; cur_len = 0 }

-- `if cur_start is not None: windows.append((cur_start, cur_end))`
unfoldable pub flush : Option ℕ → Assembly → List Window
flush none st = st.windows
flush (some cur) st = st.windows ++ (cur, st.cur_end) ∷ []

-- `self.separators.index(parent_sep)`, with `none` for the `ValueError`
unfoldable pub index_of : Text → List Text → Option ℕ
index_of sep [] = none
index_of sep (s ∷ separators) =
    if same s sep then some 0 else Option.map suc (index_of sep separators)

-- The separators of the sub-chunker.
unfoldable pub finer_separators : List Text → Text → List Text
unfolding index_of
finer_separators separators parent_sep =
    let finer : List Text = elim (index_of parent_sep separators) [
      | none ↦ [] ∷ []
      | some idx ↦ drop (suc idx) separators
    ] in
    if is_empty finer then [] ∷ [] else finer

abbrev pub shift_windows : ℕ → List Chunk → List Window
shift_windows start [] = []
shift_windows start (c ∷ chunks) =
    (start + c.char_start, start + c.char_end) ∷ shift_windows start chunks

-- The local variables of `_add_overlap`.
pub record Emitted : Type 0 where
  pub out : List Chunk
  pub prev_end : ℕ

-- `out and start <= out[-1].char_start and we <= out[-1].char_end`
unfoldable pub is_covered : Option Chunk → ℕ → ℕ → Bool
is_covered none start we = false
is_covered (some last) start we = leb start last.char_start && leb we last.char_end

module _ (chunk_overlap : ℕ) (text : Text) where
  -- `start`; the subtraction on ℕ stops at 0, as `max(0, …)` does.
  unfoldable pub overlap_start : ℕ → ℕ → ℕ → ℕ
  overlap_start i prev_end ws =
      if i == 0 || chunk_overlap == 0 then ws else min prev_end ws - chunk_overlap

  -- The body of the loop, from the guard against covered chunks on.
  unfoldable pub emit_chunk : ℕ → ℕ → Emitted → Emitted
  unfolding is_covered
  emit_chunk start we st =
      let chunk_text = slice start we text in
      if is_covered (get_last? st.out) start we || is_empty chunk_text then st else record {
        out =
            st.out
            ++ record {
              text = chunk_text;
              chunk_index = length st.out;
              char_start = start;
              char_end = we;
            }
              ∷ [];
        prev_end = we;
      }

  unfoldable pub overlap_loop : ℕ → List Window → Emitted → Emitted
  unfolding overlap_start emit_chunk
  overlap_loop i [] st = st
  overlap_loop i ((ws, we) ∷ windows) st =
      overlap_loop (suc i) windows (emit_chunk (overlap_start i st.prev_end ws) we st)

-- `_add_overlap`
unfoldable pub add_overlap : RecursiveCharacterChunker → List Window → Text → List Chunk
unfolding overlap_loop
add_overlap c windows text =
    (overlap_loop c.chunk_overlap text 0 windows (record { out = []; prev_end = 0 })).out

-- How a chunker calls the `chunk` of its sub-chunker.
abbrev pub ChunkWith : Type 0
ChunkWith = RecursiveCharacterChunker → Text → Option (List Chunk)

module _ (sub_chunk : ChunkWith) (c : RecursiveCharacterChunker) (text : Text) where
  -- `_expand_oversized`
  unfoldable pub expand_oversized : Text → ℕ → ℕ → Option (List Window)
  expand_oversized parent_sep start end =
      elim (init (pos c.chunk_size) (pos 0) (finer_separators c.separators parent_sep)) [
        | raise _ ↦ none
        | ok sub ↦ Option.map (shift_windows start) (sub_chunk sub (slice start end text))
      ]

  -- `_build_windows`
  unfoldable pub build_windows : Option (List Window)
  unfolding pick_separator split_with_positions assemble_pieces flush expand_oversized init
      finer_separators Option.bind
  build_windows =
      let sep = pick_separator c.separators text in
      Option.bind (split_with_positions text sep) λ pieces.
        Option.map (λ st. flush st.cur_start st)
          (assemble_pieces c.chunk_size (expand_oversized sep) pieces no_windows)

-- `chunk`; the fuel bounds how deep `_expand_oversized` recurs.
unfoldable pub chunk_within : ℕ → RecursiveCharacterChunker → Text → Option (List Chunk)
unfolding build_windows add_overlap
chunk_within zero c text = none
chunk_within (suc fuel) c text =
    if is_empty text
    then some []
    else Option.map (λ windows. add_overlap c windows text)
        (build_windows (λ sub part. chunk_within fuel sub part) c text)

-- One level of recursion for each separator, and one for single characters.
unfoldable pub chunk : RecursiveCharacterChunker → Text → Option (List Chunk)
unfolding chunk_within
chunk c text = chunk_within (suc (length c.separators)) c text
