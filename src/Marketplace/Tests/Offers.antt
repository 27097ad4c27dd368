-- ===== src/Marketplace/Tests/Offers.antt =====
-- Capacity offers: runs, and the theorems at inputs (packages/marketplace-domain/src/capacity-offer.ts).
use token_streaming.Common.{◌≡◌, refl, some, [], ◌∷◌}
use token_streaming.Common.Outcome.{ok, err}
use token_streaming.Js.{ref}
use token_streaming.Marketplace.Errors.{invalid_supplier_state}
use token_streaming.Marketplace.Offer.{publish_capacity_offer, rehydrate_capacity_offer}
use token_streaming.Marketplace.Offer.Published.{
  IsBacked, publish_capacity_offer-IsBacked, publish_capacity_offer-rehydrate,
}
use token_streaming.Marketplace.Code.{code}
use token_streaming.Marketplace.World.{engine}
use token_streaming.Marketplace.Cast.{waiting, selling, published_offer, world}

selling_publishes : publish_capacity_offer engine selling (ref 4) (ref 3) ≡ ok published_offer
unfolding code world
selling_publishes = refl

waiting_publishes_nothing :
    publish_capacity_offer engine waiting (ref 4) (ref 3) ≡ err invalid_supplier_state
unfolding code world
waiting_publishes_nothing = refl

publish_capacity_offer-IsBacked_example : IsBacked engine selling published_offer
publish_capacity_offer-IsBacked_example =
    publish_capacity_offer-IsBacked engine selling (ref 4) (ref 3) published_offer selling_publishes

publish_capacity_offer-rehydrate_example :
    rehydrate_capacity_offer (published_offer ∷ [])
    ≡ ok (
        some (record {
          offer = published_offer.payload;
          tenant_id = published_offer.tenant_id;
          version = 1;
          published_at = published_offer.occurred_at;
        }))
publish_capacity_offer-rehydrate_example =
    publish_capacity_offer-rehydrate engine selling (ref 4) (ref 3) published_offer
      selling_publishes
