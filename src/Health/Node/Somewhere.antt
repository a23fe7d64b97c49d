-- ===== src/Health/Node/Somewhere.antt =====
-- Tests of a considered observation, and of those handed in.
use mathlib.Core.List.{reverse, reverse-cons}
use task_scheduler.Prelude.{
  ℕ, suc, zero, ◌≡◌, refl, Bool, true, ◌&&◌, ◌||◌, List, [], ◌∷◌, arith, take, keep, any,
  any-append,
}
use task_scheduler.Health.Node.Evaluate.{
  NodeHealthObservation, latest, latest_by_input, insert_by_time, sort_by_time,
}

-- A test that holds somewhere in a list.
module _ (q : NodeHealthObservation → Bool) where
  pub any-keep :
      (p : NodeHealthObservation → Bool) (os : List NodeHealthObservation)
      → any q (keep p os) ≡ any (λ o. p o && q o) os
  any-keep p [] = refl
  any-keep p (o ∷ os) = ground (arith, any-keep p os)

  pub any-take :
      (n : ℕ) (os : List NodeHealthObservation) → any q (take n os) ≡ true → any q os ≡ true
  any-take zero os h = cc
  any-take (suc n) [] h = h
  any-take (suc n) (o ∷ os) h = ground (arith, any-take n os)

  pub any-reverse : (os : List NodeHealthObservation) → any q (reverse os) ≡ any q os
  any-reverse [] = refl
  any-reverse (o ∷ os) =
      ground (arith, reverse-cons o os, any-append q (reverse os) (o ∷ []), any-reverse os)

  any-insert_by_time :
      (o : NodeHealthObservation) (os : List NodeHealthObservation)
      → any q (insert_by_time o os) ≡ (q o || any q os)
  unfolding insert_by_time
  any-insert_by_time o [] = refl
  any-insert_by_time o (c ∷ os) = ground (arith, any-insert_by_time o os)

  pub any-sort_by_time : (os : List NodeHealthObservation) → any q (sort_by_time os) ≡ any q os
  unfolding sort_by_time
  any-sort_by_time [] = refl
  any-sort_by_time (o ∷ os) = rw (any-insert_by_time o (sort_by_time os), any-sort_by_time os)

  any-latest :
      (o : NodeHealthObservation) (m : List NodeHealthObservation)
      → any q (latest o m) ≡ true
      → (q o || any q m) ≡ true
  unfolding latest
  any-latest o [] h = h
  any-latest o (c ∷ m) h = ground (arith, any-latest o m)

  pub any-latest_by_input :
      (m os : List NodeHealthObservation)
      → any q (latest_by_input m os) ≡ true
      → (any q m || any q os) ≡ true
  unfolding latest_by_input
  any-latest_by_input m [] h = ground arith
  any-latest_by_input m (o ∷ os) h =
      ground (arith, any-latest_by_input (latest o m) os h, any-latest o m)
