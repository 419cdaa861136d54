-- ===== src/Identity/Tests.antt =====
-- Runs of the identity code, and its theorems at concrete data.
use suprclaw_engine.Prelude.{◌≡◌, refl, true, false, [], some, nat_eq, list_eq}
use suprclaw_engine.Prelude.Text.{codes, cut, trim_left, trim_right}
use suprclaw_engine.Prelude.Unicode.{to_lower, trim_space}
use suprclaw_engine.Prelude.Unicode.Ascii.{ascii}
use suprclaw_engine.Identity.{
  SenderInfo, is_numeric, trim_at, begins_at, split_compound, match_legacy, build_canonical_id,
  parse_canonical_id, equal_fold, match_canonical, match_allowed,
}
use suprclaw_engine.Identity.Canonical.{parse-build_canonical_id}
use suprclaw_engine.Identity.Allowed.{match_allowed-anonymous}

abbrev alice : SenderInfo
alice = record {
  platform = codes "telegram";
  platform_id = codes "42";
  canonical_id = codes "telegram:42";
  username = codes "alice";
  display_name = [];
}

abbrev nobody : SenderInfo
nobody = record {
  platform = codes "telegram";
  platform_id = [];
  canonical_id = [];
  username = [];
  display_name = codes "42";
}

match_allowed_runs :
    (match_allowed alice (codes " @alice ") ≡ true)
    × (match_allowed alice (codes "alice") ≡ false)
    × (match_allowed alice (codes "7|alice") ≡ true)
    × (match_allowed alice (codes "Telegram:42") ≡ true)
    × (match_allowed alice (codes "discord:42") ≡ false)
unfolding match_allowed match_canonical match_legacy build_canonical_id parse_canonical_id
    equal_fold is_numeric trim_at begins_at split_compound cut trim_space trim_left trim_right
    to_lower list_eq nat_eq
match_allowed_runs = (refl, refl, refl, refl, refl)

parse-build_canonical_id_example :
    parse_canonical_id (build_canonical_id (codes " Slack") (codes "U:7"))
    ≡ some (to_lower (trim_space (codes " Slack")), trim_space (codes "U:7"))
unfolding trim_space trim_left trim_right to_lower nat_eq
parse-build_canonical_id_example =
    parse-build_canonical_id (codes " Slack") (codes "U:7") refl refl refl

match_allowed-anonymous_example : match_allowed nobody (codes "@") ≡ false
match_allowed-anonymous_example = match_allowed-anonymous nobody (codes "@") refl refl refl
