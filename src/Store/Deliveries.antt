-- ===== src/Store/Deliveries.antt =====
-- src/store/sqlite-store.ts: the table `deliveries`, the webhook deliveries that were processed.
use previewer.Prelude.{
  ℕ, String, ◌≡◌, Bool, ◌||◌, List, [], ◌∷◌, ◌++◌, arith, str_eq, str_eq_iff, if◌then◌else◌, any,
}

pub record Delivery : Type 0 where
  pub github_delivery_id : String
  pub received_at : ℕ

-- `seenDelivery`
unfoldable pub seen_delivery : String → List Delivery → Bool
seen_delivery id = any (λ d. str_eq d.github_delivery_id id)

-- `markDelivery`: a second insert of the primary key does nothing.
unfoldable pub mark_delivery : ℕ → String → List Delivery → List Delivery
mark_delivery now id ds =
    if seen_delivery id ds
    then ds
    else ds ++ record { github_delivery_id = id; received_at = now } ∷ []

seen-append :
    (id : String) (d : Delivery) (ds : List Delivery)
    → seen_delivery id (ds ++ d ∷ []) ≡ (seen_delivery id ds || str_eq d.github_delivery_id id)
unfolding seen_delivery
seen-append id d [] = ground arith
seen-append id d (x ∷ ds) = ground (arith, seen-append id d ds)

-- After a delivery is marked it is seen, and what is seen of any other id has not changed; marking
-- it again changes nothing.
pub mark_delivery-seen :
    (now later : ℕ) (id other : String) (ds : List Delivery)
    → (seen_delivery other (mark_delivery now id ds) ≡ (str_eq id other || seen_delivery other ds))
      × (mark_delivery later id (mark_delivery now id ds) ≡ mark_delivery now id ds)
unfolding mark_delivery
mark_delivery-seen now later id other ds =
    let append =
      λ (i : String). seen-append i (record { github_delivery_id = id; received_at = now }) ds in
    (ground (arith, append other, str_eq_iff id other), ground (arith, append id, str_eq_iff id id))
