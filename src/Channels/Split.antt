-- ===== src/Channels/Split.antt =====
-- pkg/channels/split.go: SplitMessage. The runes and the positions are those of the source; a search
-- that finds nothing is `none`, where the source returns -1 or `start - 1`. The loop may not end, so it
-- runs on fuel, and `none` is a run that is out of fuel.
pub mod Laws
pub mod Searches
pub mod Plain
pub mod Solid
pub mod Endless
pub mod Fits
use suprclaw_engine.Prelude.{
  ℕ, zero, suc, ◌-◌, ◌+◌, ◌/◌, min, max, Bool, true, false, ◌&&◌, ◌||◌, List, [], ◌∷◌, ◌++◌, Option,
  none, some, if◌then◌else◌, ◌==◌, ltb, leb, nat_eq, is_nil, length, take, drop,
}
use suprclaw_engine.Prelude.Int.{ℤ, pos, negsuc}
use suprclaw_engine.Prelude.Text.{Text, trim_right}
use suprclaw_engine.Prelude.Unicode.{Unicode, trim_space}

abbrev pub is_newline : ℕ → Bool
is_newline c = c == 10

abbrev pub is_space : ℕ → Bool
is_space c = c == 32 || c == 9

abbrev pub is_blank : ℕ → Bool
is_blank c = c == 32 || c == 9 || c == 10 || c == 13

abbrev pub backtick : ℕ
backtick = 96

-- `runes[i]`, which the source reads only where it is.
unfoldable pub rune_at : Text → ℕ → ℕ
rune_at [] i = 0
rune_at (c ∷ s) zero = c
rune_at (c ∷ s) (suc i) = rune_at s i

-- `runes[start:end]`.
abbrev pub slice : Text → ℕ → ℕ → Text
slice runes start stop = take (stop - start) (drop start runes)

unfoldable pub is_fence : Text → ℕ → Bool
is_fence runes i =
    rune_at runes i == backtick
    && rune_at runes (i + 1) == backtick
    && rune_at runes (i + 2) == backtick

-- The last of the `n` positions from `low` on that holds such a rune.
unfoldable pub last_from : (ℕ → Bool) → Text → ℕ → ℕ → Option ℕ
last_from p runes low zero = none
last_from p runes low (suc n) =
    let rest = last_from p runes low n in
    if p (rune_at runes (low + n)) then some (low + n) else rest

-- `findLastNewlineInRange` and `findLastSpaceInRange`.
unfoldable pub find_last_in_range : (ℕ → Bool) → Text → ℕ → ℕ → ℕ → Option ℕ
find_last_in_range p runes start stop search_window =
    let search_start = max (stop - search_window) start in
    last_from p runes search_start (stop - search_start)

-- The loop of `findLastUnclosedCodeBlockInRange` over the `n` positions from `i` on, with the fence that
-- is open.
unfoldable pub unclosed_from : Text → ℕ → ℕ → Option ℕ → Option ℕ
unclosed_from runes i (suc (suc (suc n))) open_at = elim (is_fence runes i) [
  | true ↦ unclosed_from runes (i + 3) n (elim open_at [ none ↦ some i | some o ↦ none ])
  | false ↦ unclosed_from runes (i + 1) (suc (suc n)) open_at
]
unclosed_from runes i (suc (suc zero)) open_at = open_at
unclosed_from runes i (suc zero) open_at = open_at
unclosed_from runes i zero open_at = open_at

unfoldable pub find_last_unclosed_code_block_in_range : Text → ℕ → ℕ → Option ℕ
find_last_unclosed_code_block_in_range runes start stop =
    unclosed_from runes start (stop - start) none

unfoldable pub closing_from : Text → ℕ → ℕ → Option ℕ
closing_from runes i (suc (suc (suc n))) =
    let rest = closing_from runes (i + 1) (suc (suc n)) in
    if is_fence runes i then some (i + 3) else rest
closing_from runes i (suc (suc zero)) = none
closing_from runes i (suc zero) = none
closing_from runes i zero = none

unfoldable pub find_next_closing_code_block_in_range : Text → ℕ → ℕ → Option ℕ
find_next_closing_code_block_in_range runes start stop = closing_from runes start (stop - start)

unfoldable pub newline_from : Text → ℕ → ℕ → Option ℕ
newline_from runes i zero = none
newline_from runes i (suc n) =
    let rest = newline_from runes (i + 1) n in if is_newline (rune_at runes i) then some i else rest

unfoldable pub find_newline_from : Text → ℕ → Option ℕ
find_newline_from runes from = newline_from runes from (length runes - from)

abbrev pub code_block_buffer : ℕ → ℕ
code_block_buffer max_len =
    let buffer = max (max_len / 10) 50 in if ltb (max_len / 2) buffer then max_len / 2 else buffer

abbrev pub effective_limit : ℕ → ℕ
effective_limit max_len = max (max_len - code_block_buffer max_len) (max_len / 2)

-- A position that is found behind the start.
abbrev pub beyond : ℕ → Option ℕ → Option ℕ
beyond start none = none
beyond start (some i) = if leb i start then none else some i

-- The last newline, or else the last space, before a position.
unfoldable pub natural_break : Text → ℕ → ℕ → Option ℕ
natural_break runes start stop =
    elim (beyond start (find_last_in_range is_newline runes start stop 200)) [
      | some i ↦ some i
      | none ↦ beyond start (find_last_in_range is_space runes start stop 100)
    ]

pub record SplitState : Type 0 where
  pub runes : Text
  pub start : ℕ
  pub messages : List Text

pub data Progress : Type 0 where
  again : SplitState → Progress
  finished : List Text → Progress

-- The white space at the front.
abbrev pub blanks : Text → ℕ
blanks [] = 0
blanks (c ∷ s) = let rest = blanks s in if is_blank c then suc rest else 0

-- The end of an iteration that takes the runes up to `msg_end` as they are.
unfoldable pub advance : ℕ → SplitState → ℕ → Progress
advance max_len s msg_end =
    let stop = if leb msg_end s.start then s.start + effective_limit max_len else msg_end in
    again (record s {
      start = stop + blanks (drop stop s.runes);
      messages = s.messages ++ (slice s.runes s.start stop ∷ []);
    })

-- `int` arithmetic: an unclosed fence is found within `effective_limit` runes only if `max_len` is at
-- least 5, so the position is not in front of `start`.
abbrev pub inner_limit : ℕ → SplitState → ℕ
inner_limit max_len s = min (s.start + max_len - 5) (length s.runes)

-- The natural end of a chunk within the effective limit, or the limit itself.
unfoldable pub chunk_end : ℕ → SplitState → ℕ
chunk_end max_len s =
    let stop = s.start + effective_limit max_len in
    elim (natural_break s.runes s.start stop) [ some i ↦ i | none ↦ stop ]

module _ ⦃u : Unicode⦄ where
  -- A chunk up to `cut` with a closing fence, and the rest behind the header of the code block.
  unfoldable pub split_inside : SplitState → Text → ℕ → Progress
  split_inside s header cut = again (record {
    runes = trim_space (header ++ (10 ∷ drop cut s.runes));
    start = 0;
    messages =
        s.messages
        ++ ((trim_right is_blank (slice s.runes s.start cut)
              ++ (10 ∷ backtick ∷ backtick ∷ backtick ∷ []))
            ∷ []);
  })

  -- The first line of the code block at a fence, and where it ends.
  unfoldable pub header_at : Text → ℕ → Text × ℕ
  header_at runes unclosed_idx = elim (find_newline_from runes unclosed_idx) [
    | none ↦
        let header = trim_space (slice runes unclosed_idx (unclosed_idx + 3)) in
        (header, unclosed_idx + length header)
    | some header_end ↦ (trim_space (slice runes unclosed_idx header_end), header_end)
  ]

  -- The code block cannot be closed in this chunk.
  unfoldable pub split_block : ℕ → SplitState → ℕ → ℕ → Progress
  split_block max_len s msg_end unclosed_idx =
      let (header, header_end_idx) = header_at s.runes unclosed_idx in
      let inner = inner_limit max_len s in
      if ltb (header_end_idx + 20) msg_end
      then split_inside s header (elim (find_last_in_range is_newline s.runes s.start inner 200) [
        | none ↦ inner
        | some better_end ↦ if ltb header_end_idx better_end then better_end else inner
      ])
      else elim (natural_break s.runes s.start unclosed_idx) [
        | some new_end ↦ advance max_len s new_end
        | none ↦
            if ltb 20 (unclosed_idx - s.start)
            then advance max_len s unclosed_idx
            else split_inside s header inner
      ]

  -- The chunk would end within the code block at `unclosed_idx`.
  unfoldable pub split_at_fence : ℕ → SplitState → ℕ → ℕ → Progress
  split_at_fence max_len s msg_end unclosed_idx =
      let total = length s.runes in
      let block = split_block max_len s msg_end unclosed_idx in
      if ltb msg_end total
      then elim (find_next_closing_code_block_in_range s.runes msg_end total) [
        | some closing_idx ↦
            if leb (closing_idx - s.start) max_len then advance max_len s closing_idx else block
        | none ↦ block
      ]
      else advance max_len s msg_end

  -- One iteration of the loop.
  unfoldable pub split_step : ℕ → SplitState → Progress
  split_step max_len s =
      let total = length s.runes in
      if leb total s.start
      then finished s.messages
      else if leb (total - s.start) max_len
      then finished (s.messages ++ (drop s.start s.runes ∷ []))
      else let msg_end = chunk_end max_len s in
        elim (find_last_unclosed_code_block_in_range s.runes s.start msg_end) [
          | none ↦ advance max_len s msg_end
          | some unclosed_idx ↦ split_at_fence max_len s msg_end unclosed_idx
        ]

  unfoldable pub split_loop : ℕ → ℕ → SplitState → Option (List Text)
  split_loop zero max_len s = none
  split_loop (suc fuel) max_len s = elim (split_step max_len s) [
    | finished messages ↦ some messages
    | again next ↦ split_loop fuel max_len next
  ]

  -- The result, if the loop ends within `fuel` iterations.
  unfoldable pub split_message : ℕ → ℤ → Text → Option (List Text)
  split_message fuel (pos (suc n)) content =
      split_loop fuel (suc n) (record { runes = content; start = 0; messages = [] })
  split_message fuel (pos zero) content = some (if is_nil content then [] else content ∷ [])
  split_message fuel (negsuc n) content = some (if is_nil content then [] else content ∷ [])
