-- ===== src/Handler/Health.antt =====
-- internal/handler/health.go. The ping of the database within two seconds is a parameter.
use activity_events_api.Prelude.{Bool, true, false, [], ◌∷◌}
use activity_events_api.Go.Text.{Bytes, codes}
use activity_events_api.Handler.Reply.{Request, Response, json, facts}

-- `NewHealth`
pub record Health (W : Type 0) : Type 0 where
  pub ping : W → Bool × W
  pub version : Bytes
  pub mode : Bytes

ready_response : Bool → Response
unfolding json
ready_response true =
    json 200 (facts ((codes "status", codes "ok") ∷ (codes "database", codes "up") ∷ []))
ready_response false =
    json 503 (facts ((codes "status", codes "unavailable") ∷ (codes "database", codes "down") ∷ []))

module _ {W : Type 0} (h : Health W) where
  unfoldable pub live : Request → W → Response × W
  unfolding json
  live c w = (
    json 200 (
        facts (
          (codes "status", codes "ok")
          ∷ (codes "version", h.version)
          ∷ (codes "mode", h.mode)
          ∷ [])),
    w,
  )

  unfoldable pub ready : Request → W → Response × W
  unfolding ready_response
  ready c w = (ready_response (h.ping w).0, (h.ping w).1)
