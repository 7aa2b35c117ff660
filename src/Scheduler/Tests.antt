-- ===== src/Scheduler/Tests.antt =====
-- Runs of the scheduler, and its theorems at a queue of two events.
use native.Mathlib.Nat.{ℕ_set}
use mathlib.Core.List.{filter}
use govertone.Common.{ℕ, ◌≡◌, refl, none, [], ◌∷◌, map, Perm, arith}
use govertone.Heap
use govertone.Scheduler.{
  Event, zero_event, less, event_priority, Scheduler, new, add, pop, cancel_handle,
}
use govertone.Scheduler.Queue.{IsValid, stamp, new-IsValid, add-full, add-Takes}
use govertone.Scheduler.Dispatch.{IsOrdered, dispatch, dispatch-IsOrdered}
use govertone.Scheduler.Refinement.{insert_ordered, stays, dispatch-add, dispatch-cancel_handle}

abbrev event : ℕ → ℕ → Event ℕ
event frame handle = record (zero_event 0) { frame = frame; handle_id = handle }

abbrev empty : Scheduler ℕ
empty = new 0 3

abbrev one : Scheduler ℕ
one = (add 0 empty (event 20 7)).0

abbrev two : Scheduler ℕ
two = (add 0 one (event 10 8)).0

one-IsValid : IsValid 0 one
unfolding new Heap.init
one-IsValid =
    (add-Takes 0 empty (event 20 7) (new-IsValid 0 3) (omega arith) (omega arith)
      (omega arith)).1.valid

two-IsValid : IsValid 0 two
unfolding new Heap.init add Heap.push Heap.up
two-IsValid =
    (add-Takes 0 one (event 10 8) one-IsValid (omega arith) (omega arith) (omega arith)).1.valid

handles_in_order : map (λ (e : Event ℕ). e.handle_id) (dispatch 0 two) ≡ 8 ∷ 7 ∷ []
unfolding new Heap.init add Heap.push Heap.up less event_priority dispatch pop Heap.pop Heap.down
handles_in_order = refl

cancelled_in_order :
    map (λ (e : Event ℕ). e.handle_id) (dispatch 0 (cancel_handle 0 two 7 15).0) ≡ 8 ∷ []
unfolding new Heap.init add Heap.push Heap.up less event_priority dispatch pop Heap.pop Heap.down
    cancel_handle
cancelled_in_order = refl

add-full_example : (add 0 (new 0 0) (event 1 1)).1 ≡ none
unfolding new Heap.init
add-full_example = rw (add-full 0 (new 0 0) (event 1 1) (omega arith))

dispatch-IsOrdered_example : IsOrdered (dispatch 0 two) × Perm (dispatch 0 two) two.h
dispatch-IsOrdered_example = dispatch-IsOrdered 0 two two-IsValid

dispatch-add_example : dispatch 0 two ≡ insert_ordered (stamp one (event 10 8)) (dispatch 0 one)
unfolding new Heap.init add Heap.push Heap.up
dispatch-add_example =
    dispatch-add ℕ_set 0 one (event 10 8) one-IsValid (omega arith) (omega arith) (omega arith)

dispatch-cancel_handle_example :
    dispatch 0 (cancel_handle 0 two 7 15).0 ≡ filter (stays 7 15) (dispatch 0 two)
dispatch-cancel_handle_example = dispatch-cancel_handle ℕ_set 0 two 7 15 two-IsValid
