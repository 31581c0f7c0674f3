-- ===== src/Orchestrator/Agrees.antt =====
-- The orchestrator beside the block scanner.
use explorer_api_gql.Base.{
  ℕ, ◌%◌, ◌≡◌, refl, ap, ◌∙◌, Bool, true, false, Option, List, [], ◌∷◌, arith,
}
use explorer_api_gql.Types.{Block, u64}
use explorer_api_gql.Scanner
use explorer_api_gql.Scanner.Switch.{last_switch, Going, switches_alternate}
use explorer_api_gql.Orchestrator.{
  Orchestrator, Event, new_head, scan_switch, handle_block, unload_cache, handle_new_head, step,
  run,
}

-- the switches that the orchestrator received
abbrev pub received : List Event → List Bool
received [] = []
received (new_head number ok ∷ events) = received events
received (scan_switch idle true ∷ events) = idle ∷ received events
received (scan_switch idle false ∷ events) = received events

module _ (block_by_number : ℕ → Option Block) where
  push_heads-block :
      (blk : Option Block) (or : Orchestrator) → (handle_block blk or).push_heads ≡ or.push_heads
  push_heads-block blk or = ground arith

  push_heads-new_head :
      (number : ℕ) (ok : Bool) (or : Orchestrator)
      → (step block_by_number or (new_head number ok)).push_heads ≡ or.push_heads
  unfolding step handle_new_head
  push_heads-new_head number ok or =
      ground (arith, push_heads-block (block_by_number (number % u64)) or)

  push_heads-switch :
      (idle : Bool) (or : Orchestrator)
      → (step block_by_number or (scan_switch idle true)).push_heads ≡ idle
  unfolding step unload_cache
  push_heads-switch true or = refl
  push_heads-switch false or = refl

  ignored :
      (idle : Bool) (or : Orchestrator) → step block_by_number or (scan_switch idle false) ≡ or
  unfolding step
  ignored idle or = refl

  push_heads-run :
      (events : List Event) (or : Orchestrator)
      → (run block_by_number or events).push_heads ≡ last_switch or.push_heads (received events)
  unfolding run
  push_heads-run [] or = refl
  push_heads-run (new_head number ok ∷ events) or =
      push_heads-run events (step block_by_number or (new_head number ok))
      ∙ ap (λ b. last_switch b (received events)) (push_heads-new_head number ok or)
  push_heads-run (scan_switch idle true ∷ events) or =
      push_heads-run events (step block_by_number or (scan_switch idle true))
      ∙ ap (λ b. last_switch b (received events)) (push_heads-switch idle or)
  push_heads-run (scan_switch idle false ∷ events) or =
      rw (ignored idle or, run) (push_heads-run events or)

  -- Let the scanner run from its start, whatever happens before the stop signal. An orchestrator
  -- that did not push heads at first, and has received the switches that the scanner sent, in their
  -- order, whatever heads came in between, pushes heads exactly if the scanner is idle.
  pub push_heads-eq-on_idle :
      (start : ℕ) (height : Option ℕ) (scanned : List Scanner.Event) (or : Orchestrator)
      (events : List Event)
      → Going scanned
      → or.push_heads ≡ false
      → received events
        ≡ (Scanner.execute block_by_number height (Scanner.started start) scanned).out_state_switch
      → (run block_by_number or events).push_heads
        ≡ (Scanner.execute block_by_number height (Scanner.started start) scanned).on_idle
  push_heads-eq-on_idle start height scanned or events going off e =
      push_heads-run events or
      ∙ ap (λ b. last_switch b (received events)) off
      ∙ ap (last_switch false) e
      ∙ (switches_alternate block_by_number start height scanned going).known
