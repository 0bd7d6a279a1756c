-- ===== src/Examples/Tiers.antt =====
-- The recommendation for a task with a strong trigger.
use dev_platform.Base.{◌≡◌, refl, none, some}
use dev_platform.Base.Result.{ok}
use dev_platform.Base.Json.{Fields, obj}
use dev_platform.StartTier.{receipt, recommend_start_tier, validate_routing_receipt}
use dev_platform.StartTier.Receipts.{recommend_start_tier-validates}

abbrev strong_receipt : Fields
strong_receipt = receipt "R3" "parser" "low" "standard" "high" (some "novel_cross_system")

recommend_start_tier-validates_example :
    validate_routing_receipt (obj strong_receipt) ≡ ok (some strong_receipt)
unfolding recommend_start_tier
recommend_start_tier-validates_example =
    recommend_start_tier-validates (some " novel_cross_system") "parser " "low" "standard" none refl
