-- ===== src/Heartbeat/Policy/Laws.antt =====
-- Which answers pkg/heartbeat/policy.go suppresses.
use suprclaw_engine.Prelude.{
  ℕ, ◌≤◌, ◌≡◌, refl, true, ◌&&◌, [], ◌∷◌, ◌++◌, some, leb, nat_eq, is_nil, arith, Option-cases, inl,
  inr,
}
use suprclaw_engine.Prelude.Int.{ℤ}
use suprclaw_engine.Prelude.Text.{Text, trim_left, strip_prefix, cut_text, byte_length}
use suprclaw_engine.Prelude.Unicode.{Unicode, trim_space}
use suprclaw_engine.Heartbeat.Policy.{
  heartbeat_ok_token, ack_limit, is_noise, strip_around, strip_heartbeat_token,
}

strip_prefix_lem : (p s after : Text) → strip_prefix p s ≡ some after → s ≡ p ++ after
unfolding strip_prefix
strip_prefix_lem [] s after e = ground arith
strip_prefix_lem (p ∷ ps) [] after e = ground arith
strip_prefix_lem (p ∷ ps) (c ∷ s) after e = ground (arith, strip_prefix_lem ps s after)

cut_text_lem :
    (p s before after : Text) → cut_text p s ≡ some (before, after) → s ≡ before ++ (p ++ after)
unfolding cut_text
cut_text_lem p [] before after e = ground (arith, strip_prefix_lem p [] after)
cut_text_lem p (c ∷ s) before after e = elim (Option-cases (strip_prefix p (c ∷ s))) [
  | inl absent ↦ elim (Option-cases (cut_text p s)) [
    | inl none_left ↦ ground arith
    | inr ((before', after'), found) ↦ ground (arith, cut_text_lem p s before' after' found)
  ]
  | inr (after', found) ↦ ground (arith, strip_prefix_lem p (c ∷ s) after' found)
]

nil_short : (s : Text) → is_nil s ≡ true → byte_length s ≡ 0
unfolding byte_length
nil_short [] e = refl
nil_short (c ∷ s) e = ground arith

module _ ⦃u : Unicode⦄ where
  strip_around_lem :
      (limit : ℕ) (before after : Text)
      → let skipped = (strip_around limit before after).should_skip in
        skipped ≡ (
          leb (byte_length (trim_left is_noise after)) limit
          && leb (byte_length (trim_space before)) limit)
  unfolding strip_around
  strip_around_lem limit before after = ground (arith, nil_short (trim_space before))

  -- A suppressed answer contains the token, and the text before it, trimmed, and the text after it,
  -- without the noise it begins with, are each at most as long as the limit.
  pub strip_heartbeat_token-skips :
      (response : Text) (ack_max_chars : ℤ)
      → (strip_heartbeat_token response ack_max_chars).should_skip ≡ true
      → (before : Text) × (after : Text) × (response ≡ before ++ (heartbeat_ok_token ++ after))
        × (byte_length (trim_space before) ≤ ack_limit ack_max_chars)
        × (byte_length (trim_left is_noise after) ≤ ack_limit ack_max_chars)
  unfolding strip_heartbeat_token
  strip_heartbeat_token-skips response ack_max_chars skipped =
      elim (Option-cases (cut_text heartbeat_ok_token response)) [
        | inl absent ↦ ground arith
        | inr ((before, after), found) ↦ (
          before,
          after,
          cut_text_lem heartbeat_ok_token response before after found,
          ground (arith, strip_around_lem (ack_limit ack_max_chars) before after),
          ground (arith, strip_around_lem (ack_limit ack_max_chars) before after),
        )
      ]
