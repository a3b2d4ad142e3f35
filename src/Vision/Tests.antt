-- ===== src/Vision/Tests.antt =====
-- A concrete track over whole numbers, and the theorem at it.
use robonode.Prelude.{ℕ, ◌≡◌, refl, List, [], ◌∷◌, some, map}
use robonode.Prelude.Int.{pos}
use robonode.Core.Double.Whole.{Whole, whole}
use robonode.Core.Geometry.{Vec3}
use robonode.Vision.Tracker.{Observation, new_window, window_observe_all}
use robonode.Vision.Tracker.Window.{Inv, new_window-Inv}

abbrev num : ℕ → Whole
num n = some (pos n)

abbrev along : Vec3 Whole → Whole
along v = v.x

abbrev seen : ℕ → ℕ → Observation Whole
seen t x = record { t_s = num t; position = record { x = num x; y = num 0; z = num 0 } }

-- A part that moves by 2 in each unit of time, one sighting of it repeated.
abbrev track : List (Observation Whole)
track = seen 1 2 ∷ seen 2 4 ∷ seen 2 4 ∷ seen 3 6 ∷ []

times_kept :
    map (λ o. o.t_s) (window_observe_all along track (new_window 0 (num 9) (num 1))).history
    ≡ num 2 ∷ num 3 ∷ []
unfolding window_observe_all new_window
times_kept = refl

new_window-Inv_example : Inv 2 (window_observe_all along track (new_window 0 (num 9) (num 1)))
new_window-Inv_example = new_window-Inv along 0 (num 9) (num 1) track
