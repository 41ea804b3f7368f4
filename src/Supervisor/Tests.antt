-- ===== src/Supervisor/Tests.antt =====
-- The supervisor at concrete inputs, over the broker's floats and conversions.
use mikrotik_openvpn_gui.Common.{
  ℕ, ◌≡◌, refl, true, false, some, none, List, [], ◌∷◌, ◌==◌, if◌then◌else◌, arith,
}
use mikrotik_openvpn_gui.Broker.Samples.{
  test_floats, test_conversions, eve_record, two_seats, whole_rates, ether_record, monotonic,
  ether_before,
}
use mikrotik_openvpn_gui.Supervisor.Attempt.{
  SupervisorConfig, is_valid_config, Supervisor, new_supervisor, Answers, item, os_error,
  other_error,
}
use mikrotik_openvpn_gui.Supervisor.Retry.{Round, run_forever}
use mikrotik_openvpn_gui.Supervisor.Sampler.{SampleAnswers, sample_once, run_samples}
use mikrotik_openvpn_gui.Supervisor.Sampler.Checked.{
  IsChecked, Follows, sample_once-IsChecked, run_samples-Follows,
}
use mikrotik_openvpn_gui.Supervisor.Delivered.{
  IsWhole, IsCounted, run_forever-IsWhole, run_forever-IsCounted,
}
use mikrotik_openvpn_gui.Supervisor.Backoff.{IsPaced, run_forever-IsPaced}
use mikrotik_openvpn_gui.Supervisor.Outage.{
  IsWorn, IsUntouched, run_forever-IsWorn, run_forever-IsUntouched,
}

abbrev short_waits : SupervisorConfig
short_waits = record { enabled = true; snapshot_limit = 5; initial_backoff = 1; max_backoff = 30 }

abbrev streaming : Answers ℕ
streaming = record {
  stopped_before = false;
  connection = none;
  allowed = λ i. true;
  granted = λ i. true;
  on_events = λ i. none;
  after_dispatch = λ i. none;
  snapshot = some (eve_record ∷ [], 1);
  snapshot_failure = none;
  items = item (record { is_record = true; dead = false; attributes = eve_record }) ∷ [];
  stream_failure = none;
  now = 5;
}

abbrev offline : Answers ℕ
offline = record streaming { connection = some os_error }

-- `on_events` raises in the second publication, `on_events_after_dispatch` in the first.
abbrev failing : Answers ℕ
failing = record streaming { on_events = λ i. if 0 == i then none else some other_error }

abbrev failing_after : Answers ℕ
failing_after = record streaming { after_dispatch = λ i. some other_error }

abbrev revoked : Answers ℕ
revoked = record streaming { granted = λ i. false }

abbrev round_of : Answers ℕ → Round ℕ
round_of answers = record { stop_set = false; answers = answers; stop_in_wait = false }

abbrev fresh : Supervisor ℕ
fresh = new_supervisor short_waits two_seats

abbrev mixed_rounds : List (Round ℕ)
mixed_rounds = round_of streaming ∷ round_of offline ∷ round_of streaming ∷ []

abbrev failing_rounds : List (Round ℕ)
failing_rounds = round_of failing ∷ round_of failing_after ∷ round_of streaming ∷ []

valid_waits : is_valid_config short_waits ≡ true
unfolding is_valid_config
valid_waits = refl

run_forever-IsWhole_example :
    IsWhole 7 (run_forever test_floats test_conversions failing_rounds none fresh)
unfolding new_supervisor
run_forever-IsWhole_example =
    run_forever-IsWhole test_floats test_conversions 7 failing_rounds none fresh
      (refl, omega arith, omega arith)

run_forever-IsCounted_example :
    IsCounted (run_forever test_floats test_conversions mixed_rounds none fresh)
unfolding new_supervisor
run_forever-IsCounted_example =
    run_forever-IsCounted test_floats test_conversions mixed_rounds none fresh
      (λ i. refl, (λ i. refl, (λ i. refl, tt))) refl

run_forever-IsPaced_example :
    IsPaced short_waits (run_forever test_floats test_conversions mixed_rounds none fresh)
run_forever-IsPaced_example =
    run_forever-IsPaced test_floats test_conversions short_waits two_seats mixed_rounds none
      valid_waits

run_forever-IsWorn_example :
    IsWorn fresh 2 (
      run_forever test_floats test_conversions
        (round_of offline ∷ round_of offline ∷ [])
        none
        fresh)
unfolding new_supervisor
run_forever-IsWorn_example =
    run_forever-IsWorn test_floats test_conversions (round_of offline ∷ round_of offline ∷ []) fresh
      refl (omega arith)
      ((refl, refl, refl, (os_error, refl)), ((refl, refl, refl, (os_error, refl)), tt))

run_forever-IsUntouched_example : IsUntouched fresh (
    run_forever test_floats test_conversions
      (round_of revoked ∷ round_of revoked ∷ [])
      (some 2)
      fresh)
run_forever-IsUntouched_example =
    run_forever-IsUntouched test_floats test_conversions (round_of revoked ∷ round_of revoked ∷ [])
      (some 2) fresh (λ i. refl, (λ i. refl, tt))

abbrev quiet_sample : SampleAnswers ℕ
quiet_sample = record {
  connection = none;
  allowed_before = true;
  reading = none;
  records = ether_record 50 ∷ [];
  allowed_after = true;
  granted = true;
  on_sample = none;
  on_events = none;
  sample = monotonic 9;
  now = 7;
}

sample_once-IsChecked_example :
    IsChecked test_floats test_conversions whole_rates quiet_sample ether_before
      (sample_once test_floats test_conversions whole_rates quiet_sample ether_before)
sample_once-IsChecked_example =
    sample_once-IsChecked test_floats test_conversions whole_rates quiet_sample ether_before

abbrev failing_sample : SampleAnswers ℕ
failing_sample = record quiet_sample { on_events = some other_error }

run_samples-Follows_example : Follows test_floats test_conversions whole_rates ether_before (
    run_samples test_floats test_conversions whole_rates
      ((false, quiet_sample) ∷ (false, failing_sample) ∷ [])
      none
      ether_before)
run_samples-Follows_example =
    run_samples-Follows test_floats test_conversions whole_rates
      ((false, quiet_sample) ∷ (false, failing_sample) ∷ []) none ether_before
