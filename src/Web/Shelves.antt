-- ===== src/Web/Shelves.antt =====
-- The books and the loans along any run of requests over HTTP, whoever sends them.
use library_api.Prelude.{ap, arith, sym, List, [], ◌∷◌, ◌≡◌}
use library_api.External.{External}
use library_api.World.{State, Db}
use mathlib.Core.Path.{subst}
use library_api.Books.Service.{CreateBook}
use library_api.Api.{Request, serve}
use library_api.Inventory.{Shelf, Step, shelf, idle}
use library_api.Inventory.BookSteps.{IsNew}
use library_api.Inventory.Refines.{Admissible, serve-Step}
use library_api.Inventory.Stock.{IsBalanced, Step-IsBalanced}
use library_api.Inventory.Limits.{IsLimited, Step-IsLimited}
use library_api.Web.{Endpoint, Orders, answer}
use library_api.Web.Reads.{Reading}
use library_api.Web.Access.{Asks, reads, serves}
use library_api.Web.Answers.{answer-Course}
use library_api.Web.Visits.{answer_all}

Step-carried : (s t s' t' : Shelf) → s ≡ s' → t' ≡ t → Step s t → Step s' t'
Step-carried s t s' t' p q step = subst (λ u. Step s' u) (sym q) (subst (λ u. Step u t) p step)

abbrev shelf_of : Db → Shelf
shelf_of d = record { books = d.books; loans = d.loans }

module _ ⦃ext : External⦄ where
  -- What a request over HTTP may be: a new book is new.
  abbrev pub NewBook : Endpoint → State → Type 0
  NewBook (Endpoint.create_book input) w = IsNew input w
  NewBook _ w = Unit

  Asks-IsNew :
      (e : Endpoint) (input : CreateBook) (w : State)
      → Asks e (Request.create_book input)
      → NewBook e w
      → IsNew input w
  Asks-IsNew (Endpoint.create_book given) input w asked new =
      let same : input ≡ given = cc in rw same new
  Asks-IsNew (Endpoint.create_reservation _) input w (user_id, asked) new =
      absurd (ground (arith, asked))
  Asks-IsNew _ input w asked new = absurd (ground (arith, asked))

  NewBook-Admissible :
      (e : Endpoint) (r : Request) (w s : State)
      → Asks e r
      → Reading w s
      → NewBook e w
      → Admissible r s
  NewBook-Admissible e (Request.create_book input) w s asked before new =
      let (unused, full) = Asks-IsNew e input w asked new in
      (rw (before.identifiers, ap (λ d. d.books) before.db) unused, full)
  NewBook-Admissible e _ w s asked before new = tt

  module _ (orders : Orders) where
    answer-Step :
        (token : ext.Token) (e : Endpoint) (w : State)
        → NewBook e w
        → Step (shelf w) (shelf (answer orders token e w).1)
    answer-Step token e w new = elim (answer-Course orders token e w) [
      | reads same ↦ idle (ap (λ d. d.books) same.db) (ap (λ d. d.loans) same.db)
      | serves s r asked before done allowed ↦
          let step = serve-Step r s (NewBook-Admissible e r w s asked before new) in
          Step-carried (shelf s) (shelf (serve r s)) (shelf w) (shelf (answer orders token e w).1)
            (ap shelf_of before.db) (ap (λ (v : State). shelf v) done) step
    ]

    -- Every new book of the run is new when it comes.
    abbrev pub AllNew : List (ext.Token × Endpoint) → State → Type 0
    AllNew [] w = Unit
    AllNew ((token, e) ∷ visits) w = NewBook e w × AllNew visits (answer orders token e w).1

    shelf_induction :
        {P : Shelf → Type 0}
        → ((s t : Shelf) → Step s t → P s → P t)
        → (visits : List (ext.Token × Endpoint)) (w : State) → AllNew visits w
        → P (shelf w)
        → P (shelf (answer_all orders visits w))
    unfolding answer_all
    shelf_induction keep [] w a h = h
    shelf_induction keep ((token, e) ∷ visits) w a h =
        let w' = (answer orders token e w).1 in
        shelf_induction keep visits w' a.1 (keep (shelf w) (shelf w') (answer-Step token e w a.0) h)

    -- However many people send whatever requests over HTTP, with whatever tokens: the copies of a
    -- book on the shelf and its active loans make up its total, and the shelf never owes copies, if
    -- it was so before, and every book that a request would create has an identifier that no book
    -- has and no negative total.
    pub answer_all-IsBalanced :
        (visits : List (ext.Token × Endpoint)) (w : State)
        → AllNew visits w
        → IsBalanced (shelf w)
        → IsBalanced (shelf (answer_all orders visits w))
    answer_all-IsBalanced = shelf_induction (λ s t. Step-IsBalanced)

    -- However many people send whatever requests over HTTP, one after the other, with whatever tokens:
    -- no user has more than three active loans, if it was so before, and every book that a request
    -- would create has an identifier that no book has and no negative total.
    pub answer_all-IsLimited :
        (visits : List (ext.Token × Endpoint)) (w : State)
        → AllNew visits w
        → IsLimited (shelf w)
        → IsLimited (shelf (answer_all orders visits w))
    answer_all-IsLimited = shelf_induction (λ s t. Step-IsLimited)
