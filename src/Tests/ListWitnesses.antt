-- ===== src/Tests/ListWitnesses.antt =====
-- The cached lists of the books at concrete filters.
use Prim.Native.String.{◌++◌}
use library_api.Prelude.{◌≡◌, refl, none, some, []}
use library_api.Responses.{Document}
use library_api.Exec.{ok}
use library_api.Table.{find_by_key}
use library_api.Books.Service.{list_books_paginated}
use library_api.Cache.{cached}
use library_api.Books.Repository
use library_api.Books.Listing.{list_books_paginated-list_books_paginated}
use library_api.Tests.Fixture.{local, world}

abbrev no_books : Document
no_books = Document.book_page (record { items = []; total = 0; page = 1; size = 10 })

list_books_paginated-list_books_paginated_example :
    (list_books_paginated 1 10
      (some "Dom")
      (some ("Casmurro" ++ (":" ++ "Romance")))
      none
      none
      (list_books_paginated 1 10
        (some ("Dom" ++ (":" ++ "Casmurro")))
        (some "Romance")
        none
        none
        world).1).0
    ≡ ok no_books
unfolding list_books_paginated find_by_key cached Repository.list_books_paginated
list_books_paginated-list_books_paginated_example =
    list_books_paginated-list_books_paginated 1 10 "Dom" "Casmurro" "Romance" none none world
      no_books refl
