-- ===== src/Tests/Processes/Linked.antt =====
-- The list that `test_scheduler` of kernel/tests.c links by hand.
use my_kernel.Common.{ℕ, ◌≤◌, ◌≡◌, ◌≢◌, refl, ap, ◌∙◌, true, false, [], ◌∷◌, arith, ◌==◌}
use my_kernel.Common.Run.{ok}
use my_kernel.Process.{ready, running, with_state, is_ready, Process, Kernel, assign, schedule}
use my_kernel.Process.Links.{Links}
use my_kernel.Process.Schedule.{first_ready, schedule-first_ready}
use my_kernel.Process.Circle.{Distinct}
use my_kernel.Tests.Processes.{link_three}

-- Three different processes.
pub record Three (p1 p2 p3 : ℕ) : Type 0 where
  pub nonzero : (p1 ≢ 0) × (p2 ≢ 0) × (p3 ≢ 0)
  pub distinct : Distinct (p1 ∷ p2 ∷ p3 ∷ [])

self : (f : ℕ → Process) (a : ℕ) (v : Process) → assign f a v a ≡ v
unfolding assign
self f a v = let s : (a == a) ≡ true = ground arith in rw s refl

other : (f : ℕ → Process) (a b : ℕ) (v : Process) → (b == a) ≡ false → assign f a v b ≡ f b
unfolding assign
other f a b v n = rw n refl

module _ (p1 p2 p3 : ℕ) (k : Kernel) (three : Three p1 p2 p3) where
  -- The processes after each write of `link_three`.
  abbrev f : ℕ → Process
  f = assign k.proc p1 (record (k.proc p1) { next = p2 })

  abbrev g : ℕ → Process
  g = assign f p2 (record (f p2) { next = p3 })

  abbrev h : ℕ → Process
  h = assign g p3 (record (g p3) { next = 0 })

  abbrev f' : ℕ → Process
  f' = assign h p1 (with_state running (h p1))

  abbrev g' : ℕ → Process
  g' = assign f' p2 (with_state ready (f' p2))

  pub apart :
      ((p1 == p2) ≡ false)
      × ((p1 == p3) ≡ false)
      × ((p2 == p1) ≡ false)
      × ((p2 == p3) ≡ false)
      × ((p3 == p1) ≡ false)
      × ((p3 == p2) ≡ false)
  apart =
      let a : (p1 == p2) ≡ false = ground (arith, three.distinct.0) in
      let b : (p1 == p3) ≡ false = ground (arith, three.distinct.0) in
      let c : (p2 == p3) ≡ false = ground (arith, three.distinct.1.0) in
      (a, b, ground arith, c, ground arith, ground arith)

  pub at_first :
      (link_three p1 p2 p3 k).proc p1 ≡ with_state running (record (k.proc p1) { next = p2 })
  unfolding link_three
  at_first =
      let (a, b, _, _, _, _) = apart in
      other g' p3 p1 _ b
      ∙ other f' p2 p1 _ a
      ∙ self h p1 _
      ∙ ap (with_state running) (other g p3 p1 _ b ∙ other f p2 p1 _ a ∙ self k.proc p1 _)

  pub at_second :
      (link_three p1 p2 p3 k).proc p2 ≡ with_state ready (record (k.proc p2) { next = p3 })
  unfolding link_three
  at_second =
      let (_, _, a, b, _, _) = apart in
      other g' p3 p2 _ b
      ∙ self f' p2 _
      ∙ ap (with_state ready) (
          other h p1 p2 _ a
          ∙ other g p3 p2 _ b
          ∙ self f p2 _
          ∙ ap (λ (p : Process). record p { next = p3 }) (other k.proc p1 p2 _ a))

  at_third : ((link_three p1 p2 p3 k).proc p3).next ≡ 0
  unfolding link_three
  at_third =
      let (_, _, _, _, a, b) = apart in
      ap (λ (p : Process). p.next)
        (self g' p3 _
          ∙ ap (with_state ready) (other f' p2 p3 _ b ∙ other h p1 p3 _ a ∙ self g p3 _))

  pub linked :
      Links (link_three p1 p2 p3 k).proc 0 (link_three p1 p2 p3 k).process_list (p1 ∷ p2 ∷ p3 ∷ [])
  unfolding link_three
  linked = (
    refl,
    three.nonzero.0,
    (
      ap (λ (p : Process). p.next) at_first,
      three.nonzero.1,
      (ap (λ (p : Process). p.next) at_second, three.nonzero.2, at_third),
    ),
  )

  pub schedule_second : (fuel : ℕ) → 4 ≤ fuel → schedule fuel (link_three p1 p2 p3 k) ≡ ok p2
  unfolding link_three first_ready
  schedule_second fuel h =
      let t = link_three p1 p2 p3 k in
      let is_ready_second : is_ready (t.proc p2).state ≡ true =
        ap (λ (p : Process). is_ready p.state) at_second in
      let (a, b, _, _, _, _) = apart in
      schedule-first_ready fuel t [] (p2 ∷ p3 ∷ [])
        (record { links = linked; once_before = refl; once_after = rw (a, b) refl }) (omega arith)
      ∙ rw is_ready_second refl

  pub link_three-heap : (link_three p1 p2 p3 k).heap ≡ k.heap
  unfolding link_three
  link_three-heap = refl
