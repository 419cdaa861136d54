-- ===== src/Routing/Classifier.antt =====
-- pkg/routing/classifier.go: the complexity score. Scores are hundredths: every weight of the source
-- is a whole number of hundredths, and the source adds nothing else.
use suprclaw_engine.Prelude.{ℕ, ◌+◌, ◌≤◌, ◌≡◌, ◌||◌, not, true, if◌then◌else◌, ltb, arith}
use suprclaw_engine.Routing.Features.{Features}

-- The interface.
pub record Classifier : Type 0 where
  pub score : Features → ℕ

unfoldable pub token_weight : ℕ → ℕ
token_weight n = if ltb 200 n then 35 else if ltb 50 n then 15 else 0

unfoldable pub code_weight : ℕ → ℕ
code_weight n = if ltb 0 n then 40 else 0

unfoldable pub tool_weight : ℕ → ℕ
tool_weight n = if ltb 3 n then 25 else if ltb 0 n then 10 else 0

unfoldable pub depth_weight : ℕ → ℕ
depth_weight n = if ltb 10 n then 10 else 0

-- `(*RuleClassifier).Score`. An attachment decides at once; the sum is cut at 100.
unfoldable pub rule_score : Features → ℕ
rule_score f =
    let score =
      token_weight f.token_estimate
      + code_weight f.code_block_count
      + tool_weight f.recent_tool_calls
      + depth_weight f.conversation_depth in
    if f.has_attachments then 100 else if ltb 100 score then 100 else score

token_weight_mono : (a b : ℕ) → a ≤ b → token_weight a ≤ token_weight b
unfolding token_weight
token_weight_mono a b h = ground arith

code_weight_mono : (a b : ℕ) → a ≤ b → code_weight a ≤ code_weight b
unfolding code_weight
code_weight_mono a b h = ground arith

tool_weight_mono : (a b : ℕ) → a ≤ b → tool_weight a ≤ tool_weight b
unfolding tool_weight
tool_weight_mono a b h = ground arith

depth_weight_mono : (a b : ℕ) → a ≤ b → depth_weight a ≤ depth_weight b
unfolding depth_weight
depth_weight_mono a b h = ground arith

-- No feature is weaker in the second.
pub record IsWeaker (f g : Features) : Type 0 where
  pub tokens : f.token_estimate ≤ g.token_estimate
  pub code : f.code_block_count ≤ g.code_block_count
  pub tools : f.recent_tool_calls ≤ g.recent_tool_calls
  pub depth : f.conversation_depth ≤ g.conversation_depth
  pub attachments : not f.has_attachments || g.has_attachments ≡ true

-- The score lies in [0, 1], and it does not fall when features grow.
rule_score_monotone :
    (f g : Features) → IsWeaker f g → (rule_score f ≤ rule_score g) × (rule_score g ≤ 100)
unfolding rule_score
rule_score_monotone f g h = ground (
  arith,
  token_weight_mono _ _ h.tokens,
  code_weight_mono _ _ h.code,
  tool_weight_mono _ _ h.tools,
  depth_weight_mono _ _ h.depth,
)
