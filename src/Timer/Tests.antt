-- ===== src/Timer/Tests.antt =====
-- A run of Async, and the theorem at it.
use nbio.Base.{ℕ, ◌≡◌, ◌⊎◌, List, [], ◌∷◌, ◌++◌, refl}
use nbio.Timer.{Runner, calling, Timer, Reach, start, later, add, check_end, check_next, call_done}
use nbio.Timer.Ordered.{Reach-Called}

-- Two functions, the second of them given while the first is called.
abbrev second_called : Timer
second_called = record {
  async_list = 5 ∷ 6 ∷ [];
  runners = calling 2 6 ∷ [];
  submitted = 5 ∷ 6 ∷ [];
  called = 5 ∷ 6 ∷ [];
}

second_reached : Reach second_called
second_reached =
    later
      (later
        (later (later (later start (add 5)) (check_next 0 5 [] [] [] [] refl refl refl)) (add 6))
        (call_done 1 5 [] [] refl))
      (check_next 1 6 [] [] (5 ∷ []) [] refl refl refl)

Reach-Called_example :
    ((second_called.runners ≡ []) × (second_called.called ≡ 5 ∷ 6 ∷ []))
    ⊎ ((r : Runner) × (rest : List ℕ) × (second_called.runners ≡ r ∷ [])
        × (second_called.called ++ rest ≡ 5 ∷ 6 ∷ []))
Reach-Called_example = Reach-Called second_called second_reached

-- The list is run to its end, and made empty.
ended : Reach (record second_called { async_list = []; runners = [] })
ended = later (later second_reached (call_done 2 6 [] [] refl)) (check_end 2 [] [] refl refl)
