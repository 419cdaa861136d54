-- ===== src/Heartbeat/Tests.antt =====
-- Runs of the heartbeat code, and its theorems at concrete data.
use suprclaw_engine.Prelude.{
  arith, ◌≡◌, ◌*◌, ◌^◌, ◌≤◌, refl, true, false, ◌++◌, if◌then◌else◌, leb, min, list_eq, nat_eq,
}
use suprclaw_engine.Prelude.Int.{pos, negsuc, signed}
use suprclaw_engine.Prelude.Text.{
  Text, codes, trim_left, trim_right, strip_prefix, cut_text, byte_length,
}
use suprclaw_engine.Prelude.Unicode.{trim_space}
use suprclaw_engine.Prelude.Unicode.Ascii.{ascii}
use suprclaw_engine.Heartbeat.Schedule.{
  minute, or_default, double, adaptive_interval, is_idle_window_active,
}
use suprclaw_engine.Heartbeat.Schedule.Laws.{adaptive_interval_lem}
use suprclaw_engine.Heartbeat.Policy.{
  heartbeat_ok_token, ack_limit, is_noise, strip_around, strip_heartbeat_token,
}
use suprclaw_engine.Heartbeat.Policy.Laws.{strip_heartbeat_token-skips}

adaptive_interval_runs :
    (adaptive_interval (pos 30) (pos 120) (pos 0) ≡ pos (30 * minute))
    × (adaptive_interval (pos 30) (pos 120) (pos 1) ≡ pos (60 * minute))
    × (adaptive_interval (negsuc 4) (pos 0) (pos 9) ≡ pos (120 * minute))
unfolding adaptive_interval double signed
adaptive_interval_runs = (refl, refl, refl)

is_idle_window_active_runs :
    (is_idle_window_active 1 (pos 5) (5 * minute) ≡ true)
    × (is_idle_window_active 1 (pos 5) (6 * minute) ≡ false)
unfolding is_idle_window_active
is_idle_window_active_runs = (refl, refl)

strip_heartbeat_token_runs :
    (strip_heartbeat_token (codes "ok. HEARTBEAT_OK!\n") (pos 0)
      ≡ record { text = codes "ok."; should_skip = true })
    × (strip_heartbeat_token (codes "HEARTBEAT_OK but") (pos 2)
        ≡ record { text = codes "but"; should_skip = false })
unfolding strip_heartbeat_token strip_around cut_text strip_prefix byte_length trim_space trim_left
    trim_right list_eq nat_eq
strip_heartbeat_token_runs = (refl, refl)

adaptive_interval_lem_example :
    let base = or_default (pos 30) 30 in
    let cap = or_default (pos 120) 120 in
    let n = or_default (pos 2) 0 in
    adaptive_interval (pos 30) (pos 120) (pos 2)
    ≡ pos ((if leb n 0 then base else min cap (base * 2 ^ n)) * minute)
adaptive_interval_lem_example =
    adaptive_interval_lem (pos 30) (pos 120) (pos 2) (omega arith) (omega arith)

-- With more minutes than a duration holds, the interval wraps and is negative.
wrapped_interval_runs :
    adaptive_interval (pos 200_000_000) (pos 300_000_000) (pos 0) ≡ negsuc 6_446_744_073_709_551_615
unfolding adaptive_interval double signed
wrapped_interval_runs = refl

strip_heartbeat_token-skips_example :
    (before : Text) × (after : Text) × (codes "ok HEARTBEAT_OK."
      ≡ before ++ (heartbeat_ok_token ++ after))
    × (byte_length (trim_space before) ≤ ack_limit (pos 9))
    × (byte_length (trim_left is_noise after) ≤ ack_limit (pos 9))
unfolding strip_heartbeat_token strip_around cut_text strip_prefix byte_length trim_space trim_left
    trim_right list_eq nat_eq
strip_heartbeat_token-skips_example =
    strip_heartbeat_token-skips (codes "ok HEARTBEAT_OK.") (pos 9) refl
