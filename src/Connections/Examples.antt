-- ===== src/Connections/Examples.antt =====
-- Two threads, of which one closes its connection.
use ztrade_ares_7x.Base.{ℕ, ◌≡◌, refl, List, [], ◌∷◌}
use ztrade_ares_7x.Connections.{connection, close, new_pool}
use ztrade_ares_7x.Connections.Own.{make_calls, new_pool-IsApart, Call, IsApart, connects, closes}

abbrev calls : List Call
calls = connects 1 ∷ (connects 2 ∷ (closes 1 ∷ []))

left_test : (make_calls calls new_pool).local ≡ (2, 1) ∷ []
unfolding connection close
left_test = refl

new_pool-IsApart_example :
    IsApart (make_calls calls new_pool)
    × ((thread : ℕ)
        → connection thread (connection thread (make_calls calls new_pool)).0
          ≡ connection thread (make_calls calls new_pool))
new_pool-IsApart_example = new_pool-IsApart calls
