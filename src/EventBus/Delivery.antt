-- ===== src/EventBus/Delivery.antt =====
-- What a published event can change.
use library_api.Prelude.{◌≤◌, ◌≡◌, List, [], ◌∷◌, arith}
use library_api.Events.{DomainEvent, Handler}
use library_api.External.{External}
use library_api.World.{State}
use library_api.EventBus.{EventBus, handle, handle_all, publish}

module _ ⦃ext : External⦄ where
  -- The tables other than `notifications`, and the cache, are as before, and no identifier is given
  -- out again.
  pub record Delivered (w w' : State) : Type 0 where
    pub users : w'.users ≡ w.users
    pub authors : w'.authors ≡ w.authors
    pub books : w'.books ≡ w.books
    pub loans : w'.loans ≡ w.loans
    pub reservations : w'.reservations ≡ w.reservations
    pub cache : w'.cache ≡ w.cache
    pub later : w.identifiers ≤ w'.identifiers
    pub read : w.readings ≤ w'.readings

  handle-Delivered : (h : Handler) (e : DomainEvent) (w : State) → Delivered w (handle h e w).1
  unfolding handle
  handle-Delivered h e w = ground arith

  handle_all-Delivered :
      (hs : List Handler) (e : DomainEvent) (w : State) → Delivered w (handle_all hs e w).1
  handle_all-Delivered [] e w = ground arith
  handle_all-Delivered (h ∷ hs) e w =
      let (r, w₁) = handle h e w in
      ground (arith, handle-Delivered h e w, handle_all-Delivered hs e w₁)

  -- Publishing an event changes no table but `notifications`, and not the cache.
  pub publish-Delivered :
      (bus : EventBus) (e : DomainEvent) (w : State) → Delivered w (publish bus e w).1
  unfolding publish
  publish-Delivered bus e w = handle_all-Delivered _ e w
