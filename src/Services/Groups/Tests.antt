-- ===== src/Services/Groups/Tests.antt =====
-- The theorems on groups at inputs.
use jwt_exchange.Prelude.{String, refl, List, [], ◌∷◌}
use jwt_exchange.Services.Groups.{filter_groups}
use jwt_exchange.Services.Groups.Laws.{IsGranted, filter_groups-IsGranted}

abbrev whitelist : List String
whitelist = "g1" ∷ "g2" ∷ []

abbrev asked : List String
asked = "g2" ∷ "x" ∷ "g2" ∷ []

filter_groups-IsGranted_example : IsGranted asked whitelist 3 2 ("g2" ∷ "g2" ∷ [])
unfolding filter_groups
filter_groups-IsGranted_example =
    filter_groups-IsGranted asked whitelist ("g2" ∷ "g2" ∷ []) 3 2 refl
