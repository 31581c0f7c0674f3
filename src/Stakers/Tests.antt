-- ===== src/Stakers/Tests.antt =====
-- Two validators, the second of which gives no information.
use explorer_api_gql.Base.{
  ℕ, refl, arith, true, false, Option, none, some, [], ◌∷◌, ◌==◌, if◌then◌else◌,
}
use explorer_api_gql.Stakers.{StiScanner, StakerTick, run_stakers}
use explorer_api_gql.Stakers.Rounds.{Round, ticks-Round}

abbrev start : StiScanner ℕ
start = record { current = 0; top = 0; slow = false; asked = []; kept = [] }

abbrev info : ℕ → Option ℕ
info n = if n == 1 then some 77 else none

abbrev first : StakerTick ℕ
first = record { last = some 2; info = info; cached = true }

abbrev second : StakerTick ℕ
second = record { last = none; info = info; cached = true }

ticks-Round_example :
    Round start (run_stakers start (first ∷ second ∷ [])) 1 2 (first ∷ second ∷ [])
ticks-Round_example = ticks-Round 2 start first (second ∷ []) refl refl (omega arith) refl
