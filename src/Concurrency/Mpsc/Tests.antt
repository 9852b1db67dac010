-- ===== src/Concurrency/Mpsc/Tests.antt =====
-- Two producers: the second exchanges and links before the first has linked.
use scalable_cross_platform.Prelude.{◌≤◌, ◌≡◌, refl, none, some, List, [], ◌∷◌, ◌++◌, arith}
use scalable_cross_platform.Concurrency.Mpsc.{empty, set, exchange, link, dequeue}
use scalable_cross_platform.Concurrency.Mpsc.Fifo.{
  Step, exchanged, linked, dequeued, step, run, enqueued, held_by, run_fifo, run_safe, run_progress,
}

abbrev overtaking : List Step
overtaking = exchanged 7 ∷ exchanged 8 ∷ linked 2 ∷ dequeued ∷ []

run_fifo_example :
    (run (empty, []) overtaking).1 ++ held_by (run (empty, []) overtaking).0 ≡ enqueued overtaking
run_fifo_example = run_fifo overtaking

run_safe_example :
    ((run (empty, []) overtaking).0.tail ≤ 0) × ((run (empty, []) overtaking).0.next 0 ≡ none)
run_safe_example = run_safe overtaking 1 0 (unfold run step exchange link dequeue set in refl)

run_progress_example :
    (dequeue (run (empty, []) (overtaking ++ (linked 1 ∷ []))).0).0
    ≡ some ((run (empty, []) (overtaking ++ (linked 1 ∷ []))).0.content 1)
unfolding run step exchange link dequeue set
run_progress_example = run_progress (overtaking ++ (linked 1 ∷ [])) refl (omega arith)
