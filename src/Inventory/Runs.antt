-- ===== src/Inventory/Runs.antt =====
-- The two tables along any run of requests.
use library_api.Prelude.{String, ◌≡◌, some, List, [], ◌∷◌, Option-cases, inl, inr}
use library_api.Models.Loan.{Loan, loan_row}
use library_api.Table.{find_by_key}
use library_api.External.{External}
use library_api.World.{State}
use library_api.Api.{Request, serve, serve_all}
use library_api.Inventory.{Shelf, Step, shelf}
use library_api.Inventory.Refines.{Admissible, serve-Step}
use library_api.Inventory.Stock.{IsBalanced, Step-IsBalanced}
use library_api.Inventory.Limits.{
  IsLimited, Step-IsLimited, IsRenewedFew, Step-IsRenewedFew, Kept, Kept-refl, Kept-trans,
  Step-Kept,
}

module _ ⦃ext : External⦄ where
  -- Every new book of the run is new when it comes.
  abbrev pub AllAdmissible : List Request → State → Type 0
  AllAdmissible [] w = Unit
  AllAdmissible (r ∷ rs) w = Admissible r w × AllAdmissible rs (serve r w)

  run_induction :
      {P : Shelf → Type 0}
      → ((s t : Shelf) → Step s t → P s → P t)
      → (rs : List Request) (w : State) → AllAdmissible rs w
      → P (shelf w)
      → P (shelf (serve_all rs w))
  unfolding serve_all
  run_induction keep [] w a h = h
  run_induction keep (r ∷ rs) w a h =
      run_induction keep rs (serve r w) a.1
        (keep (shelf w) (shelf (serve r w)) (serve-Step r w a.0) h)

  -- Along any run of requests in which every created book is new and has no negative total, the
  -- copies of a book on the shelf and its active loans make up its total, and the shelf never
  -- owes copies, if it was so before the run.
  pub serve_all-IsBalanced :
      (rs : List Request) (w : State)
      → AllAdmissible rs w
      → IsBalanced (shelf w)
      → IsBalanced (shelf (serve_all rs w))
  serve_all-IsBalanced = run_induction (λ s t. Step-IsBalanced)

  -- Along any run of requests in which every created book is new and has no negative total,
  -- served one request after the other, no user has more than three active loans, if it was so
  -- before the run.
  pub serve_all-IsLimited :
      (rs : List Request) (w : State)
      → AllAdmissible rs w
      → IsLimited (shelf w)
      → IsLimited (shelf (serve_all rs w))
  serve_all-IsLimited = run_induction (λ s t. Step-IsLimited)

  -- Along any run of requests in which every created book is new and has no negative total, no
  -- loan has been renewed more than twice, if it was so before the run.
  pub serve_all-IsRenewedFew :
      (rs : List Request) (w : State)
      → AllAdmissible rs w
      → IsRenewedFew (shelf w)
      → IsRenewedFew (shelf (serve_all rs w))
  serve_all-IsRenewedFew = run_induction (λ s t. Step-IsRenewedFew)

  -- After any run of requests in which every created book is new and has no negative total, a
  -- loan is still there with its user, its book and its date, and it was active before the run or
  -- is wholly as it was: what has been returned or cancelled never changes again.
  pub serve_all-Kept :
      (rs : List Request) (w : State) (loan_id : String) (l : Loan)
      → AllAdmissible rs w
      → find_by_key loan_id w.loans ≡ some l
      → Kept l (find_by_key loan_id (serve_all rs w).loans)
  unfolding serve_all
  serve_all-Kept [] w k l a h = Kept-refl l _ h
  serve_all-Kept (r ∷ rs) w k l a h =
      let step = Step-Kept k l (serve-Step r w a.0) h in
      elim (Option-cases (find_by_key k (serve r w).loans)) [
        | inl gone ↦ absurd (rw gone at step)
        | inr (m, there) ↦
            Kept-trans l m (find_by_key k (serve_all rs (serve r w)).loans) (rw there at step)
              (serve_all-Kept rs (serve r w) k m a.1 there)
      ]
