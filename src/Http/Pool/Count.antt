-- ===== src/Http/Pool/Count.antt =====
-- How many workers are in which stage.
use esp32_wifi_gnss.Prelude.{
  ℕ, zero, suc, ◌+◌, ◌<◌, ◌≤◌, ◌≡◌, List, [], ◌∷◌, set, get_or, length, arith,
}
use esp32_wifi_gnss.Http.Pool.{Stage, at_head, idle, serves}

module _ {R : Type 0} where
  -- A worker that is not waiting for a request.
  abbrev pub busy : Stage R → ℕ
  busy at_head = 1
  busy idle = 0
  busy (serves r) = 1

  abbrev pub serving : Stage R → ℕ
  serving at_head = 0
  serving idle = 0
  serving (serves r) = 1

  abbrev pub total : (Stage R → ℕ) → List (Stage R) → ℕ
  total f [] = 0
  total f (w ∷ workers) = f w + total f workers

  pub total-set :
      (f : Stage R → ℕ) (workers : List (Stage R)) (i : ℕ) (w : Stage R)
      → i < length workers
      → total f (set workers i w) + f (get_or workers i at_head) ≡ total f workers + f w
  total-set f [] i w h = absurd (omega arith)
  total-set f (x ∷ workers) zero w h = omega arith
  total-set f (x ∷ workers) (suc i) w h = omega (arith, total-set f workers i w (omega arith))

  serving-le_busy : (w : Stage R) → serving w ≤ busy w
  serving-le_busy at_head = omega arith
  serving-le_busy idle = omega arith
  serving-le_busy (serves r) = omega arith

  pub total_serving-le : (workers : List (Stage R)) → total serving workers ≤ total busy workers
  total_serving-le [] = omega arith
  total_serving-le (w ∷ workers) = omega (arith, serving-le_busy w, total_serving-le workers)
