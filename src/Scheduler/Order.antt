-- ===== src/Scheduler/Order.antt =====
-- The dispatch order of events: frame first, then priority, then the order of the calls of Add.
use govertone.Common.{◌<◌, ◌≡◌, ◌⊎◌, ◌↔◌, true, arith}
use govertone.Heap.Order.{IsOrder}
use govertone.Scheduler.{Event, event_priority, less}

module _ {F : Type 0} where
  -- The order that Less should have, as a lexicographic order of three numbers.
  abbrev pub Before : Event F → Event F → Type 0
  Before a b =
      (a.frame < b.frame)
      ⊎ ((a.frame ≡ b.frame) × (event_priority a < event_priority b))
      ⊎ ((a.frame ≡ b.frame) × (event_priority a ≡ event_priority b) × (a.sequence < b.sequence))

  -- Less is the lexicographic order of frame, priority and sequence number.
  pub less_iff : (a b : Event F) → (less a b ≡ true) ↔ Before a b
  unfolding less
  less_iff a b = ground arith

  -- The order is strict and weak, so that the heap of events works.
  pub less-IsOrder : IsOrder (less {F = F})
  unfolding less
  less-IsOrder = record { asym = λ a b h. ground arith; trans = λ a b c p q. ground arith }
