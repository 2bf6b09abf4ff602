-- ===== src/Tests/Events.antt =====
-- Writes of internal/repository/event.go on a table of one row.
use activity_events_api.Prelude.{
  ℕ, ◌+◌, refl, Bool, false, Option, none, some, List, [], ◌∷◌, arith, ◌==◌, if◌then◌else◌,
}
use activity_events_api.Go.Text.{Bytes, codes}
use activity_events_api.Go.Clock.{Time, unix_epoch}
use activity_events_api.Models.Event.{Event}
use activity_events_api.Models.User.{User, user}
use activity_events_api.Repository.Db.{Db}
use activity_events_api.Repository.Event.{create, create_batch, type_check}
use activity_events_api.Repository.Event.Keys.{IsConsistent, Keeps}
use activity_events_api.Repository.Event.Stable.{create-Keeps}
use activity_events_api.Repository.Event.Batch.{Whole, create_batch-Whole}
use activity_events_api.Repository.Event.Idempotent.{Retry, create_twice}

-- A reader of jsonb that takes what begins with a brace, as it is.
abbrev pub braces : Bytes → Option Bytes
braces [] = none
braces (c ∷ cs) = if c == b'{' then some (c ∷ cs) else none

abbrev pub noon : Time
noon = unix_epoch + 1700000000000000000

abbrev pub ann : User
ann = record {
  id = 7;
  email = codes "ann@example.com";
  password_hash = none;
  role = user;
  google_sub = none;
  name = none;
  email_verified = false;
  created_at = noon;
  updated_at = noon;
}

abbrev pub click : ℕ → Time → Event
click id at = record {
  id = id;
  user_id = 7;
  type = codes "click";
  payload = codes "{}";
  occurred_at = at;
  created_at = noon;
  idempotency_key = none;
}

abbrev pub keyed : Event → Bytes → Event
keyed e k = record e { idempotency_key = some k }

-- The connection fails at the statements that `faults` says.
abbrev pub one_click : List Bool → Db
one_click faults = record {
  faults = faults;
  clock = noon + 1000000000;
  users = ann ∷ [];
  next_user_id = 8;
  tokens = [];
  oauth_states = [];
  oauth_codes = [];
  events = click 1 noon ∷ [];
  next_event_id = 2;
  buckets = [];
  runs = [];
  next_run_id = 1;
  locked = [];
}

one_click-IsConsistent : (faults : List Bool) → IsConsistent (one_click faults)
unfolding type_check
one_click-IsConsistent faults = record {
  ids = (omega arith, omega arith);
  keys = (refl, tt);
  types = (refl, tt);
}

create-Keeps_example :
    Keeps (one_click []) (create braces (keyed (click 0 noon) (codes "k")) (one_click [])).1
create-Keeps_example =
    create-Keeps braces (keyed (click 0 noon) (codes "k")) (one_click [])
      (one_click-IsConsistent [])

create_batch-Whole_example :
    Whole
      (keyed (click 0 noon) (codes "k") ∷ keyed (click 0 noon) (codes "k") ∷ [])
      (create_batch braces
        (keyed (click 0 noon) (codes "k") ∷ keyed (click 0 noon) (codes "k") ∷ [])
        (one_click [])).0
      (one_click [])
      (create_batch braces
        (keyed (click 0 noon) (codes "k") ∷ keyed (click 0 noon) (codes "k") ∷ [])
        (one_click [])).1
create_batch-Whole_example =
    create_batch-Whole braces
      (keyed (click 0 noon) (codes "k") ∷ keyed (click 0 noon) (codes "k") ∷ []) (one_click [])

create_twice_example :
    Retry braces
      (keyed (click 0 noon) (codes "k"))
      (keyed (click 0 (noon + 5000)) (codes "k"))
      (one_click [])
unfolding type_check
create_twice_example =
    create_twice braces (keyed (click 0 noon) (codes "k"))
      (keyed (click 0 (noon + 5000)) (codes "k")) (codes "{}") (codes "{}") (codes "k")
      (one_click []) refl refl refl refl refl refl refl refl refl
