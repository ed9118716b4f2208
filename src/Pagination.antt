-- ===== src/Pagination.antt =====
-- The query parameters `page` and `size` of the controllers: `Query(1, ge=1)` and
-- `Query(10, ge=1, le=100)`. FastAPI reports what is out of range after it has run the
-- dependencies of an endpoint.
use library_api.Prelude.{ℕ, Bool, true, false, ◌&&◌}
use library_api.Prelude.Int.{ℤ, pos, pos_part, leb_ℤ}
use library_api.Errors.{request_validation_error}
use library_api.Exec.{Exec, pure, raise}

abbrev pub in_range : ℤ → ℤ → Bool
in_range page size = leb_ℤ (pos 1) page && (leb_ℤ (pos 1) size && leb_ℤ size (pos 100))

-- The page and the size of a request that passes.
abbrev pub page_of : Bool → ℤ → ℤ → {S : Type 0} → Exec S (ℕ × ℕ)
page_of true page size = pure (pos_part page, pos_part size)
page_of false page size = raise request_validation_error

abbrev pub page_query : {S : Type 0} → ℤ → ℤ → Exec S (ℕ × ℕ)
page_query page size = page_of (in_range page size) page size
