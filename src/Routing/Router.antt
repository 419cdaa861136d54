-- ===== src/Routing/Router.antt =====
-- pkg/routing/router.go: the choice between the light and the primary model. Thresholds are in
-- hundredths, as scores are; one of zero stands for every threshold that is not positive.
use suprclaw_engine.Prelude.{
  ℕ, ◌<◌, ◌≡◌, ◌↔◌, Bool, true, false, ◌&&◌, not, if◌then◌else◌, ltb, leb, arith, List,
}
use suprclaw_engine.Prelude.Text.{Text}
use suprclaw_engine.Prelude.Unicode.{Unicode}
use suprclaw_engine.Providers.Message.{Message}
use suprclaw_engine.Routing.Features.{Features, extract_features}
use suprclaw_engine.Routing.Classifier.{
  Classifier, rule_score, token_weight, code_weight, tool_weight, depth_weight,
}

abbrev pub default_threshold : ℕ
default_threshold = 35

pub record RouterConfig : Type 0 where
  pub light_model : Text
  pub threshold : ℕ

pub record Router : Type 0 where
  pub cfg : RouterConfig
  pub classifier : Classifier

abbrev pub rule_classifier : Classifier
rule_classifier = record { score = rule_score }

unfoldable pub new_with_classifier : RouterConfig → Classifier → Router
new_with_classifier cfg classifier = record {
  cfg = record cfg { threshold = if leb cfg.threshold 0 then default_threshold else cfg.threshold };
  classifier = classifier;
}

unfoldable pub new : RouterConfig → Router
unfolding new_with_classifier
new cfg = new_with_classifier cfg rule_classifier

pub record Selection : Type 0 where
  pub model : Text
  pub used_light : Bool
  pub score : ℕ

module _ ⦃u : Unicode⦄ where
  unfoldable pub select_model : Router → Text → List Message → Text → Selection
  select_model r msg history primary_model =
      let score = r.classifier.score (extract_features msg history) in
      if ltb score r.cfg.threshold
      then record { model = r.cfg.light_model; used_light = true; score = score }
      else record { model = primary_model; used_light = false; score = score }

-- What the default threshold calls a simple message.
abbrev pub is_simple : Features → Bool
is_simple f =
    not f.has_attachments
    && leb f.code_block_count 0
    && leb f.token_estimate 200
    && not (ltb 50 f.token_estimate && ltb 3 f.recent_tool_calls)
    && not (ltb 50 f.token_estimate && ltb 0 f.recent_tool_calls && ltb 10 f.conversation_depth)
    && not (ltb 3 f.recent_tool_calls && ltb 10 f.conversation_depth)

rule_score_simple : (f : Features) → ltb (rule_score f) 35 ≡ is_simple f
unfolding rule_score token_weight code_weight tool_weight depth_weight
rule_score_simple f = ground arith

module _ ⦃u : Unicode⦄ where
  -- A router whose threshold is not set sends a message to the light model exactly when it has no
  -- attachment and no code block, is estimated at 200 tokens or less, and no two of these hold
  -- together: it is estimated at more than 50 tokens with more than three recent tool calls, at more
  -- than 50 with some tool call in a session of more than ten messages, or it comes with more than
  -- three tool calls in such a session. Any other message goes to the primary model.
  select_model_default :
      (light primary msg : Text) (history : List Message)
      → let r = new (record { light_model = light; threshold = 0 }) in
        let simple = is_simple (extract_features msg history) in
        ((select_model r msg history primary).used_light ≡ simple)
        × ((select_model r msg history primary).model ≡ (if simple then light else primary))
  unfolding select_model new
  select_model_default light primary msg history =
      ground (arith, rule_score_simple (extract_features msg history))

  -- With any classifier and threshold, the light model is used exactly when the score is below the
  -- threshold in force, which is never zero; the score returned is the classifier's.
  pub select_model_threshold :
      (cfg : RouterConfig) (c : Classifier) (msg primary : Text) (history : List Message)
      → let r = new_with_classifier cfg c in
        let s = select_model r msg history primary in
        ((s.used_light ≡ true) ↔ (s.score < r.cfg.threshold))
        × (0 < r.cfg.threshold)
        × (s.model ≡ (if s.used_light then cfg.light_model else primary))
        × (s.score ≡ c.score (extract_features msg history))
  unfolding select_model new_with_classifier
  select_model_threshold cfg c msg primary history = ground arith
