-- ===== src/Books/Listing.antt =====
-- The cached lists of `list_books_paginated` of the book service, by the keys of app/cache/keys.py.
use Prim.Native.String.{◌++◌}
use text.Mathlib.TextLemmas.{append_assoc}
use library_api.Prelude.{String, ℕ, Bool, Option, some, ◌≡◌, refl}
use library_api.Responses.{Document}
use library_api.Exec.{ok}
use library_api.External.{External}
use library_api.World.{State}
use library_api.Cache.Keys.{books_list_key}
use library_api.Cache.Again.{read_through-read_through}
use library_api.Books.Service.{list_books_paginated, load_page, book_cache_ttl_seconds}

module _ ⦃ext : External⦄ where
  one_key :
      (page size : ℕ) (a b c : String) (author : Option String) (available : Option Bool)
      → books_list_key page size (some a) (some (b ++ (":" ++ c))) author available
        ≡ books_list_key page size (some (a ++ (":" ++ b))) (some c) author available
  unfolding books_list_key
  one_key page size a b c author available =
      rw (append_assoc, append_assoc, append_assoc, append_assoc) refl

  -- Two filters that put a colon in different places, in the title or in the category, share a cached
  -- list: what `list_books_paginated` has answered for the one it answers next for the other, whatever
  -- the catalogue holds.
  pub list_books_paginated-list_books_paginated :
      (page size : ℕ) (a b c : String) (author : Option String) (available : Option Bool)
      (w : State) (d : Document)
      → (list_books_paginated page size (some (a ++ (":" ++ b))) (some c) author available w).0
        ≡ ok d
      → (list_books_paginated page size
          (some a)
          (some (b ++ (":" ++ c)))
          author
          available
          (list_books_paginated page size (some (a ++ (":" ++ b))) (some c) author available w).1).0
        ≡ ok d
  unfolding list_books_paginated
  list_books_paginated-list_books_paginated page size a b c author available w d h =
      rw (one_key page size a b c author available) (
        read_through-read_through
          (books_list_key page size (some (a ++ (":" ++ b))) (some c) author available)
          book_cache_ttl_seconds
          (load_page page size (some (a ++ (":" ++ b))) (some c) author available)
          (load_page page size (some a) (some (b ++ (":" ++ c))) author available) w d h)
