-- ===== src/Channels/Tests.antt =====
-- Runs of pkg/channels/split.go.
use suprclaw_engine.Prelude.{
  ◌≡◌, refl, List, [], ◌∷◌, some, none, nat_eq, true, suc, length, all, leb, keep, not, arith,
}
use suprclaw_engine.Prelude.Int.{pos}
use suprclaw_engine.Prelude.Text.{Text, codes, trim_right, trim_left}
use suprclaw_engine.Prelude.Unicode.{trim_space}
use suprclaw_engine.Prelude.Unicode.Ascii.{ascii}
use suprclaw_engine.Channels.Split.Laws.{joined}
use suprclaw_engine.Channels.Split.Searches.{is_fence-none}
use suprclaw_engine.Channels.Split.Plain.{split_message-plain}
use suprclaw_engine.Channels.Split.Endless.{split_message-endless}
use suprclaw_engine.Channels.Split.Fits.{Fits, split_step-Fits}
use suprclaw_engine.Channels.Split.{
  SplitState, is_blank, split_message, split_loop, split_step, split_at_fence, split_block,
  split_inside, header_at, advance, chunk_end, natural_break, find_last_in_range,
  find_last_unclosed_code_block_in_range, find_next_closing_code_block_in_range, unclosed_from,
  closing_from, last_from, newline_from, find_newline_from, is_fence, rune_at,
}

abbrev three_words : Text
three_words = codes "one two\nthree"

split_runs :
    (split_message 9 (pos 10) (codes "one two three four")
      ≡ some (codes "one" ∷ codes "two" ∷ codes "three four" ∷ []))
    × (split_message 9 (pos 10) (codes "```aaaaaaaaaa\nb\n```") ≡ none)
unfolding split_message split_loop split_step split_at_fence split_block split_inside header_at
    advance chunk_end natural_break find_last_in_range find_last_unclosed_code_block_in_range
    find_next_closing_code_block_in_range unclosed_from closing_from last_from newline_from
    find_newline_from is_fence rune_at trim_space trim_right trim_left nat_eq
split_runs = (refl, refl)

split_message-plain_example :
    (ms : List Text) × (split_message (suc (length three_words)) (pos 8) three_words ≡ some ms)
    × (all (λ m. leb (length m) 8) ms ≡ true)
    × (keep (λ c. not (is_blank c)) (joined ms) ≡ keep (λ c. not (is_blank c)) three_words)
unfolding nat_eq
split_message-plain_example = split_message-plain 7 three_words (is_fence-none three_words refl)

-- The loop on a block whose first line has ten letters, in messages of ten.
split_message-endless_example : split_message 99 (pos 10) (codes "```aaaaaaaaaa\nb\n```") ≡ none
unfolding nat_eq
split_message-endless_example =
    split_message-endless 9 (codes "aaaaaaaaaa") (codes "b\n```") (omega arith) (omega arith) refl
      99

abbrev in_block : SplitState
in_block = record { runes = codes "a ```aaaaaaaaaa\nb"; start = 0; messages = codes "x" ∷ [] }

split_step-Fits_example : Fits 10 (split_step 10 in_block)
split_step-Fits_example = split_step-Fits 9 in_block refl (omega arith)
