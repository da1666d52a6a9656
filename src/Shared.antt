-- ===== src/Shared.antt =====
-- The constants that the console shares with the API (packages/shared/constants.py).
use deskfleet_ticketwarden.Base.{String, List, [], ◌∷◌, map}
use deskfleet_ticketwarden.Vocabulary.{Decision, Category, decision_value, category_value}

abbrev decisions : List String
decisions = map decision_value (Decision.resolved ∷ Decision.escalate ∷ Decision.refuse ∷ [])

abbrev categories : List String
categories =
    map category_value (Category.order ∷ Category.product ∷ Category.refund ∷ Category.other ∷ [])

abbrev decision_colors : Decision → String
decision_colors Decision.resolved = "#1a7f37"
decision_colors Decision.escalate = "#9a6700"
decision_colors Decision.refuse = "#cf222e"
