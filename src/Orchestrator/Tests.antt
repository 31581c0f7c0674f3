-- ===== src/Orchestrator/Tests.antt =====
-- Runs of the orchestrator over a short chain.
use explorer_api_gql.Base.{
  ℕ, ◌≡◌, refl, true, false, Option, none, some, List, [], ◌∷◌, ◌==◌, if◌then◌else◌,
}
use explorer_api_gql.Types.{Block}
use explorer_api_gql.Scanner
use explorer_api_gql.Orchestrator.{Orchestrator, Event, new_head, scan_switch, init, run}
use explorer_api_gql.Orchestrator.Refines.{view_run, view_step, start, run_refines}
use explorer_api_gql.Orchestrator.Agrees.{push_heads-eq-on_idle}

abbrev block : ℕ → Block
block n = record { number = n; time_stamp = n; txs = [] }

-- block 4 is not available
abbrev chain : ℕ → Option Block
chain n = if n == 4 then none else some (block n)

abbrev heads : List Event
heads =
    new_head 2 true
    ∷ new_head 3 true
    ∷ new_head 4 true
    ∷ scan_switch true true
    ∷ new_head 5 true
    ∷ scan_switch false true
    ∷ new_head 6 true
    ∷ []

heads_sent : (view_run chain (start false) heads).sent ≡ block 3 ∷ block 2 ∷ block 5 ∷ []
unfolding view_run view_step
heads_sent = refl

run_refines_example :
    (or : Orchestrator) × (init false ≡ some or)
    × ((run chain or heads).in_block ≡ (view_run chain (start false) heads).sent)
    × ((run chain or heads).push_heads ≡ (view_run chain (start false) heads).pushing)
run_refines_example = run_refines chain false heads

abbrev quiet : Orchestrator
quiet = record {
  blk_cache = record { nodes = none ∷ none ∷ []; capacity = 2; head = 0; depth = 0 };
  push_heads = false;
  in_block = [];
}

abbrev short_scan : List Scanner.Event
short_scan = Scanner.scan_tick (some 3) false ∷ Scanner.scan_tick (some 3) false ∷ []

push_heads-eq-on_idle_example :
    (run chain quiet (new_head 9 true ∷ scan_switch true true ∷ [])).push_heads
    ≡ (Scanner.execute chain (some 3) (Scanner.started 3) short_scan).on_idle
unfolding Scanner.execute Scanner.run Scanner.step Scanner.started Scanner.shift
    Scanner.observe_and_update Scanner.observe Scanner.update_state
push_heads-eq-on_idle_example =
    push_heads-eq-on_idle chain 3 (some 3) short_scan quiet
      (new_head 9 true ∷ scan_switch true true ∷ []) (refl, (refl, tt)) refl refl
