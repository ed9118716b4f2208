-- ===== src/System/HealthChecks.antt =====
-- app/config/observability/health.py.
use library_api.Prelude.{◌≡◌, refl, ◌⊎◌, inl, inr}
use library_api.Exec.{Result, ok, err}
use library_api.System.{health}

-- The check of health answers 200 exactly when the database and Redis both answered, and 503
-- otherwise; and it names the one that did not.
pub health_lem :
    (select_1 ping : Result (Unit {0}))
    → (((health select_1 ping).status_code ≡ 200)
        × (select_1 ≡ ok tt)
        × (ping ≡ ok tt)
        × ((health select_1 ping).status ≡ "healthy"))
      ⊎ (((health select_1 ping).status_code ≡ 503)
          × ((health select_1 ping).status ≡ "unhealthy")
          × (((health select_1 ping).postgres ≡ "unhealthy")
              ⊎ ((health select_1 ping).redis ≡ "unhealthy")))
unfolding health
health_lem (ok a) (ok b) = inl (refl, refl, refl, refl)
health_lem (ok a) (err e) = inr (refl, refl, inr refl)
health_lem (err e) ping = inr (refl, refl, inl refl)
