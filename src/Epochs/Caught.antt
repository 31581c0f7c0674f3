-- ===== src/Epochs/Caught.antt =====
-- How far the scan gets.
use explorer_api_gql.Base.{
  ℕ, suc, ◌+◌, ◌-◌, ◌≤◌, ◌<◌, ◌≡◌, refl, min, Bool, Bool-cases, true, false, inl, inr, Option, none,
  some, List, [], ◌∷◌, arith, ltb, ◌==◌, All,
}
use explorer_api_gql.Types.{Epoch, u64}
use explorer_api_gql.Epochs.{
  EpochScanner, next_epoch, store, take_epoch, dequeue, Event, observe_tick, scan_tick,
  dequeue_tick, step, run, observe_epoch,
}

-- the rounds in which the scan is ticked
abbrev pub ticks : List Event → ℕ
ticks [] = 0
ticks (observe_tick ep ∷ events) = ticks events
ticks (scan_tick epoch stop ∷ events) = suc (ticks events)
ticks (dequeue_tick inserted ∷ events) = ticks events

module _ (top : Epoch) where
  -- the same top epoch is observed, if any; the node has each epoch up to it; there is no stop signal
  abbrev pub Smooth : Event → Type 0
  Smooth (observe_tick none) = Unit {0}
  Smooth (observe_tick (some none)) = Unit {0}
  Smooth (observe_tick (some (some ep))) = ep.id ≡ top.id
  Smooth (scan_tick epoch stop) =
      ((n : ℕ) → n ≤ top.id → (e : Epoch) × (epoch n ≡ some e)) × (stop ≡ false)
  Smooth (dequeue_tick inserted) = Unit {0}

  record Moved (s t : EpochScanner) (n : ℕ) : Type 0 where
    top_kept : t.top ≡ some top
    moved : t.current ≡ min (s.current + n) (top.id + 1)

  take-Moved :
      (inserted : Bool) (queue : List Epoch) (s : EpochScanner)
      → s.top ≡ some top
      → s.current ≤ top.id + 1
      → Moved s (take_epoch inserted queue s) 0
  unfolding store
  take-Moved inserted [] s e le = record { top_kept = e; moved = omega arith }
  take-Moved inserted (ep ∷ queue) s e le = elim (Bool-cases (ep.end_time == 0)) [
    | inl p ↦ rw p (record { top_kept = e; moved = omega arith })
    | inr p ↦ rw p (record { top_kept = e; moved = omega arith })
  ]

  tick-Moved :
      (epoch : ℕ → Option Epoch) (s : EpochScanner)
      → top.id < u64 - 1
      → Smooth (scan_tick epoch false)
      → s.top ≡ some top
      → s.current ≤ top.id + 1
      → Moved s (next_epoch epoch false s) 1
  unfolding next_epoch
  tick-Moved epoch s small a e le = elim (Bool-cases (ltb top.id s.current)) [
    | inl p ↦ rw (e, p) (record { top_kept = refl; moved = ground arith })
    | inr p ↦
        let below : s.current ≤ top.id = ground arith in
        let (ep, q) = a.0 s.current below in
        rw (e, p, q) (record { top_kept = refl; moved = omega arith })
  ]

  step-Moved :
      (s : EpochScanner) (e : Event)
      → top.id < u64 - 1
      → Smooth e
      → s.top ≡ some top
      → s.current ≤ top.id + 1
      → Moved s (step s e) (ticks (e ∷ []))
  unfolding step observe_epoch dequeue
  step-Moved s (observe_tick none) small a e le = record { top_kept = e; moved = omega arith }
  step-Moved s (observe_tick (some none)) small a e le = record {
    top_kept = e;
    moved = omega arith;
  }
  step-Moved s (observe_tick (some (some ep))) small a e le =
      let same : (top.id == ep.id) ≡ true = ground arith in
      rw (e, same) (record { top_kept = refl; moved = omega arith })
  step-Moved s (scan_tick epoch stop) small a e le =
      rw a.1 (tick-Moved epoch s small (a.0, refl) e le)
  step-Moved s (dequeue_tick inserted) small a e le = take-Moved inserted s.queue s e le

  ticks_cons :
      (e : Event) (events : List Event) → ticks (e ∷ events) ≡ ticks (e ∷ []) + ticks events
  ticks_cons (observe_tick ep) events = omega arith
  ticks_cons (scan_tick epoch stop) events = omega arith
  ticks_cons (dequeue_tick inserted) events = omega arith

  -- Let the scanner know its top epoch, and let the node have each epoch up to it. Then each tick
  -- takes one more epoch, until the top epoch is the last one taken: whatever is stored meanwhile.
  pub run_reaches :
      (events : List Event) (s : EpochScanner)
      → top.id < u64 - 1
      → All Smooth events
      → s.top ≡ some top
      → s.current ≤ top.id + 1
      → (run s events).current ≡ min (s.current + ticks events) (top.id + 1)
  unfolding run
  run_reaches [] s small a e le = omega arith
  run_reaches (ev ∷ events) s small a e le =
      let m = step-Moved s ev small a.0 e le in
      let r = run_reaches events (step s ev) small a.1 m.top_kept (omega (arith, m.moved)) in
      omega (arith, m.moved, r, ticks_cons ev events)
