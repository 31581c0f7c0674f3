-- ===== src/Scanner/Tests.antt =====
-- Runs of the scanner over a short chain.
use explorer_api_gql.Base.{
  ℕ, zero, suc, ◌≤◌, ◌<◌, ◌≡◌, refl, true, false, Option, none, some, List, [], ◌∷◌, arith,
}
use explorer_api_gql.Types.{Block}
use explorer_api_gql.Scanner.{
  BlkScanner, Event, in_dispatched, observe_tick, scan_tick, shift, dispatched, step, run, execute,
  started, boundaries,
}
use explorer_api_gql.Scanner.Dispatched.{Listed, done_skips_none}
use explorer_api_gql.Scanner.Scan.{
  Ticks, stay, tick, announce, Sent, blocks_from, Ticks-Sent, catch_up,
}
use explorer_api_gql.Scanner.Switch.{Advertised, switches_alternate}

abbrev block : ℕ → Block
block n = record { number = n; time_stamp = n; txs = [] }

abbrev chain : ℕ → Option Block
chain n = some (block n)

abbrev at_seven : BlkScanner
unfolding started
at_seven = record (started 7) { to = 9; done = 6 }

abbrev three_ticks : List Event
three_ticks =
    scan_tick none false ∷ in_dispatched 7 true ∷ scan_tick none false ∷ scan_tick none false ∷ []

three_blocks : (run chain at_seven three_ticks).out_block ≡ block 7 ∷ block 8 ∷ block 9 ∷ []
unfolding run step shift dispatched started
three_blocks = refl

re_scan : boundaries 200 (some 1000) ≡ some 800
unfolding boundaries
re_scan = refl

abbrev acknowledged : List Event
acknowledged =
    in_dispatched 7 true ∷ in_dispatched 7 true ∷ in_dispatched 9 true ∷ in_dispatched 8 true ∷ []

acknowledged_to_eight : (run chain at_seven acknowledged).done ≡ 8
unfolding run step dispatched started
acknowledged_to_eight = refl

done_skips_none_example :
    (6 ≤ (run chain at_seven acknowledged).done)
    × ((k : ℕ) → 6 < k → k ≤ (run chain at_seven acknowledged).done → Listed k (7 ∷ 7 ∷ 9 ∷ 8 ∷ []))
unfolding started
done_skips_none_example =
    done_skips_none chain acknowledged at_seven (omega arith) (omega arith) (omega arith)

Ticks-Sent_example : Sent chain block at_seven (run chain at_seven three_ticks) 3
unfolding started
Ticks-Sent_example =
    Ticks-Sent chain block (tick none (announce 7 true (tick none (tick none stay)))) at_seven refl
      (omega arith) (omega arith) (λ n lo hi. refl)

abbrev idle_at_six : BlkScanner
unfolding started
idle_at_six = record (started 7) { on_idle = true; to = 6; done = 6 }

abbrev ticking : ℕ → List Event
ticking zero = []
ticking (suc count) = scan_tick none false ∷ ticking count

ticking-Ticks : (count : ℕ) → Ticks chain block count (ticking count)
ticking-Ticks zero = stay
ticking-Ticks (suc count) = tick none (ticking-Ticks count)

catch_up_example :
    let t =
      run chain idle_at_six
        (observe_tick (some 6) false ∷ observe_tick (some 106) false ∷ ticking 101) in
    (t.on_idle ≡ false) × (t.next ≡ 107) × (t.out_block ≡ blocks_from chain block 6 101)
unfolding started
catch_up_example =
    catch_up chain block 6 106 idle_at_six refl (omega arith) (omega arith) (omega arith)
      (omega arith) (ticking-Ticks 101) (λ n lo hi. refl)

switches_alternate_example :
    Advertised (
      execute chain (some 3) (started 3) (scan_tick (some 3) false ∷ scan_tick (some 3) false ∷ []))
switches_alternate_example =
    switches_alternate chain 3 (some 3) (scan_tick (some 3) false ∷ scan_tick (some 3) false ∷ [])
      (refl, (refl, tt))
