-- ===== src/Oscillation/Examples.antt =====
-- The detector at a parameter that stays.
use ztrade_ares_7x.Base.{String, ◌≡◌, refl, List, [], ◌∷◌, map}
use ztrade_ares_7x.Oscillation.{default_detector, recent, structural_hash, Param}
use ztrade_ares_7x.Oscillation.Window.{observe_all, observe_all-history}
use ztrade_ares_7x.Oscillation.Patterns.{times}

abbrev digest : List (String × String) → String
digest [] = ""
digest ((name, value) ∷ rest) = value

abbrev lookback : String → Param
lookback value = record { name = "lookback"; structural = value; bucketed = value }

observe_all-history_example :
    (observe_all digest default_detector (times 8 (lookback "20"))).history
    ≡ recent 6 (map (structural_hash digest) (times 8 (lookback "20")))
observe_all-history_example =
    observe_all-history digest default_detector [] (times 8 (lookback "20")) refl
