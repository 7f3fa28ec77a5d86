-- ===== src/Reports/Costs.antt =====
-- The sums of `costs` of ar724/cli.py.
use ztrade_ares_7x.Base.{if◌then◌else◌, ℕ, String, List, [], ◌∷◌, map, str_eq}
use ztrade_ares_7x.Db.{Db}
use ztrade_ares_7x.Reports.{Spend}

abbrev pub models : List Spend → List String
models rows = map (λ s. s.model) rows

-- the cents of the row of a model, 0 if there is none
abbrev pub cents_for : String → List Spend → ℕ
cents_for m [] = 0
cents_for m (s ∷ rows) = if str_eq s.model m then s.cents else cents_for m rows
