-- ===== src/Tests/Settings.antt =====
-- The settings of an environment that sets the database and the secret.
use activity_events_api.Prelude.{◌*◌, ◌≡◌, refl, true, false, none, [], arith, if◌then◌else◌}
use activity_events_api.Prelude.Int.{pos}
use activity_events_api.Go.Text.{Bytes, codes, bytes_eq}
use activity_events_api.Go.Decimal.{parse_int}
use activity_events_api.Go.Clock.{hour}
use activity_events_api.Models.Aggregation.{bucket_start_of}
use activity_events_api.Repository.Statistics.{day_of}
use activity_events_api.Config.{Parsers, validate}
use activity_events_api.Config.Load.{settings}
use activity_events_api.Config.Checked.{day_of-bucket_start_of}
use activity_events_api.Tests.Events.{noon}

-- Reads no duration, so that the defaults hold, and takes any URL.
abbrev parsers : Parsers
parsers = record {
  parse_duration = λ s. none;
  is_prefix = λ s. false;
  is_addr = λ s. false;
  is_request_uri = λ s. true;
}

abbrev environment : Bytes → Bytes
environment key =
    if bytes_eq key (codes "DATABASE_URL")
    then codes "postgres://localhost/events"
    else if bytes_eq key (codes "JWT_SECRET")
    then codes "0123456789abcdef0123456789abcdef"
    else []

settings-valid : validate parsers (settings parsers environment) ≡ none
unfolding validate settings bytes_eq parse_int
settings-valid = refl

four_hours : (settings parsers environment).aggregation.bucket ≡ pos (4 * hour)
unfolding settings bytes_eq
four_hours = refl

day_of-bucket_start_of_example : day_of noon ≡ day_of (bucket_start_of noon (4 * hour))
day_of-bucket_start_of_example =
    day_of-bucket_start_of parsers (settings parsers environment) (4 * hour) noon noon
      settings-valid four_hours (unfold bucket_start_of in omega arith)
      (unfold bucket_start_of in omega arith)
