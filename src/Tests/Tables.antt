-- ===== src/Tests/Tables.antt =====
-- Writes to the tables of users and tokens, some of whose statements fail.
use activity_events_api.Prelude.{◌+◌, ◌*◌, true, false, refl, none, [], ◌∷◌, arith}
use activity_events_api.Go.Text.{codes}
use activity_events_api.Repository.Db.{Db}
use activity_events_api.Repository.User.{can_log_in}
use activity_events_api.Repository.User.Unique.{Consistent, Keeps}
use activity_events_api.Repository.User.Writes.{attaches, write, write-Keeps}
use activity_events_api.Repository.Token.{delete_expired}
use activity_events_api.Repository.Token.Upkeep.{
  rotates_to, revokes, deletes_expired, writes, writes-IsLinked,
}
use activity_events_api.Repository.Token.Links.{IsLinked}
use activity_events_api.Repository.Token.Sweep.{Swept, delete_expired-Swept}
use activity_events_api.Go.Clock.{hour}
use activity_events_api.Tests.Events.{noon}
use activity_events_api.Tests.Accounts.{token, used, signed_in}

-- The COMMIT fails.
abbrev failing : Db
failing = record (signed_in []) { faults = false ∷ false ∷ false ∷ false ∷ true ∷ [] }

failing-Consistent : Consistent failing
unfolding can_log_in
failing-Consistent = record {
  ids = (omega arith, omega arith);
  emails = (refl, tt);
  subs = (refl, tt);
  methods = (refl, tt);
}

write-Keeps_example : Keeps failing (write (attaches 7 (codes "google") none true) failing).1
write-Keeps_example = write-Keeps (attaches 7 (codes "google") none true) failing failing-Consistent

-- A rotation, a revocation that fails, and a deletion.
writes-IsLinked_example :
    IsLinked
      (writes
        (rotates_to 2 (token 4 (codes "fourth"))
          ∷ revokes 3
          ∷ deletes_expired (noon + 2 * hour)
          ∷ [])
        (signed_in (used ∷ token 2 (codes "second") ∷ []))).tokens
writes-IsLinked_example =
    writes-IsLinked
      (rotates_to 2 (token 4 (codes "fourth")) ∷ revokes 3 ∷ deletes_expired (noon + 2 * hour) ∷ [])
      (signed_in (used ∷ token 2 (codes "second") ∷ [])) (refl, (refl, tt))

-- One of two tokens has expired, that the other names.
delete_expired-Swept_example :
    Swept
      (noon + 2 * hour)
      3
      (signed_in (used ∷ token 2 (codes "second") ∷ [])).tokens
      (delete_expired (noon + 2 * hour) (signed_in (used ∷ token 2 (codes "second") ∷ []))).0
      (delete_expired (noon + 2 * hour) (signed_in (used ∷ token 2 (codes "second") ∷ []))).1.tokens
delete_expired-Swept_example =
    delete_expired-Swept (noon + 2 * hour) 3 (signed_in (used ∷ token 2 (codes "second") ∷ []))
