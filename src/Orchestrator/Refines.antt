-- ===== src/Orchestrator/Refines.antt =====
-- What the orchestrator promises, with the waiting blocks as a plain list.
use explorer_api_gql.Base.{
  ℕ, ◌%◌, ◌≡◌, refl, ap, ◌∙◌, Bool, true, false, Bool-cases, inl, inr, Option, none, some, List, [],
  ◌∷◌, ◌++◌, arith, take, if◌then◌else◌,
}
use explorer_api_gql.Types.{Block, u64}
use explorer_api_gql.Ring.Holds.{
  Holds, new-Holds, add-Holds, reset-Holds, capacity-add, capacity-reset, capacity-new, new_ring,
}
use explorer_api_gql.Ring.Recent.{list-take}
use explorer_api_gql.Orchestrator.{
  Orchestrator, Event, new_head, scan_switch, cache_capacity, starting, init, handle_block,
  unload_cache, handle_new_head, step, run,
}

-- The blocks that wait, the newest first; whether heads are pushed; and what was sent.
pub record View : Type 0 where
  pub waiting : List Block
  pub pushing : Bool
  pub sent : List Block

abbrev pub start : Bool → View
start pushing = record { waiting = []; pushing = pushing; sent = [] }

abbrev pub arrive : Option Block → View → View
arrive none v = v
arrive (some blk) v =
    if v.pushing
    then record v { sent = v.sent ++ blk ∷ [] }
    else record v { waiting = blk ∷ v.waiting }

abbrev pub switched : Bool → View → View
switched true v = record {
  waiting = [];
  pushing = true;
  sent = v.sent ++ take cache_capacity v.waiting;
}
switched false v = record v { pushing = false }

pub record Refines (or : Orchestrator) (v : View) : Type 0 where
  pub cached : Holds or.blk_cache v.waiting
  pub capacity : or.blk_cache.capacity ≡ cache_capacity
  pub pushing : or.push_heads ≡ v.pushing
  pub sent : or.in_block ≡ v.sent

module _ (block_by_number : ℕ → Option Block) where
  unfoldable pub view_step : View → Event → View
  view_step v (new_head number true) = arrive (block_by_number (number % u64)) v
  view_step v (scan_switch idle true) = switched idle v
  view_step v _ = v

  unfoldable pub view_run : View → List Event → View
  view_run v [] = v
  view_run v (e ∷ events) = view_run (view_step v e) events

  block-Refines :
      (blk : Option Block) (or : Orchestrator) (v : View)
      → Refines or v
      → Refines (handle_block blk or) (arrive blk v)
  block-Refines none or v r = r
  block-Refines (some blk) or v r = elim (Bool-cases v.pushing) [
    | inl on ↦
        rw (r.pushing ∙ on, on)
          (record {
            cached = r.cached;
            capacity = r.capacity;
            pushing = refl;
            sent = ap (λ l. l ++ blk ∷ []) r.sent;
          })
    | inr off ↦
        rw (r.pushing ∙ off, off)
          (record {
            cached = add-Holds blk r.cached;
            capacity = capacity-add (some blk) or.blk_cache ∙ r.capacity;
            pushing = refl;
            sent = r.sent;
          })
  ]

  switch-Refines :
      (idle : Bool) (or : Orchestrator) (v : View)
      → Refines or v
      → Refines (step block_by_number or (scan_switch idle true)) (switched idle v)
  unfolding step unload_cache
  switch-Refines true or v r = record {
    cached = reset-Holds r.cached;
    capacity = capacity-reset or.blk_cache ∙ r.capacity;
    pushing = refl;
    sent = rw (r.sent) (
        ap (λ l. v.sent ++ l)
          (list-take cache_capacity or.blk_cache v.waiting r.cached ∙ rw (r.capacity) refl));
  }
  switch-Refines false or v r = record {
    cached = r.cached;
    capacity = r.capacity;
    pushing = refl;
    sent = r.sent;
  }

  step-Refines :
      (or : Orchestrator) (v : View) (e : Event)
      → Refines or v
      → Refines (step block_by_number or e) (view_step v e)
  unfolding step view_step handle_new_head
  step-Refines or v (new_head number true) r = block-Refines (block_by_number (number % u64)) or v r
  step-Refines or v (new_head number false) r = r
  step-Refines or v (scan_switch idle true) r = switch-Refines idle or v r
  step-Refines or v (scan_switch idle false) r = r

  run-Refines :
      (events : List Event) (or : Orchestrator) (v : View)
      → Refines or v
      → Refines (run block_by_number or events) (view_run v events)
  unfolding run view_run
  run-Refines [] or v r = r
  run-Refines (e ∷ events) or v r =
      run-Refines events (step block_by_number or e) (view_step v e) (step-Refines or v e r)

  -- The orchestrator starts, and after any events it has sent to the block dispatcher what the view
  -- says: on a switch to idle the waiting blocks, the newest first and at most fifty, and while
  -- heads are pushed each block as it comes.
  pub run_refines :
      (on_idle : Bool) (events : List Event)
      → (or : Orchestrator) × (init on_idle ≡ some or)
        × ((run block_by_number or events).in_block ≡ (view_run (start on_idle) events).sent)
        × ((run block_by_number or events).push_heads ≡ (view_run (start on_idle) events).pushing)
  unfolding init
  run_refines on_idle events =
      let (ring, made) = new_ring {A = Block} cache_capacity (omega arith) in
      let or : Orchestrator = record { blk_cache = ring; push_heads = on_idle; in_block = [] } in
      let r = run-Refines events or (start on_idle) (record {
        cached = new-Holds cache_capacity made;
        capacity = capacity-new cache_capacity made;
        pushing = refl;
        sent = refl;
      }) in
      (or, ap (starting on_idle) made, r.sent, r.pushing)
