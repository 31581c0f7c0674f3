-- ===== src/Epochs/Stored.antt =====
-- Which epochs are taken from the node, and which of them are stored.
use mathlib.Core.List.{append-nil, append_assoc}
use mathlib.Core.Option.{some-injective, none-ne-some}
use mathlib.Core.Path.{subst}
use explorer_api_gql.Base.{
  ℕ, suc, ◌+◌, ◌≤◌, ◌<◌, ◌≡◌, refl, sym, ap, ◌∙◌, Bool, Bool-cases, true, false, inl, inr, Option,
  none, some, List, [], ◌∷◌, ◌++◌, arith, ltb, ◌==◌, length, if◌then◌else◌, ◌||◌, ◌-◌,
  length-append, All, Option-cases,
}
use explorer_api_gql.Types.{Epoch, u64}
use explorer_api_gql.Epochs.{
  EpochScanner, starting_epoch, started_epochs, same_top, update_top, observe_epoch, push_epoch,
  next_below, next_epoch, is_epoch_known, add_epoch, store, take_epoch, dequeue, Event,
  observe_tick, scan_tick, dequeue_tick, step, run,
}

-- the numbers go up one by one from `n`
abbrev pub Consecutive : ℕ → List Epoch → Type 0
Consecutive n [] = Unit {0}
Consecutive n (e ∷ es) = (e.id ≡ n) × Consecutive (suc n) es

-- no epoch of a collection has a number from `n` on
abbrev pub Below : ℕ → List Epoch → Type 0
Below n [] = Unit {0}
Below n (e ∷ es) = (e.id < n) × Below n es

-- the epochs with an end and a stake that a collection did not have
abbrev pub novel : List Epoch → List Epoch → List Epoch
novel col [] = []
novel col (e ∷ es) =
    if e.end_time == 0 || (e.stake_total_amount == 0 || is_epoch_known col e)
    then novel col es
    else e ∷ novel col es

append-Consecutive :
    (n : ℕ) (es : List Epoch) (e : Epoch)
    → Consecutive n es
    → e.id ≡ n + length es
    → Consecutive n (es ++ e ∷ [])
append-Consecutive n [] e c p = (omega arith, tt)
append-Consecutive n (d ∷ es) e c p = (c.0, append-Consecutive (suc n) es e c.1 (omega arith))

Below-mono : (n m : ℕ) (es : List Epoch) → n ≤ m → Below n es → Below m es
Below-mono n m [] le b = tt
Below-mono n m (e ∷ es) le b = (omega arith, Below-mono n m es le b.1)

Below-unknown : (es : List Epoch) (e : Epoch) → Below e.id es → is_epoch_known es e ≡ false
unfolding is_epoch_known
Below-unknown [] e b = refl
Below-unknown (d ∷ es) e b = ground (arith, Below-unknown es e b.1)

known-append :
    (es ds : List Epoch) (e : Epoch)
    → is_epoch_known (es ++ ds) e ≡ (is_epoch_known es e || is_epoch_known ds e)
unfolding is_epoch_known
known-append [] ds e = refl
known-append (d ∷ es) ds e = ground (arith, known-append es ds e)

novel-append : (col es ds : List Epoch) → novel col (es ++ ds) ≡ novel col es ++ novel col ds
novel-append col [] ds = refl
novel-append col (e ∷ es) ds = ground (arith, novel-append col es ds)

Consecutive-Below :
    (n : ℕ) (es : List Epoch) (e : Epoch) (queue : List Epoch)
    → Consecutive n (es ++ e ∷ queue)
    → (n ≤ e.id) × Below e.id es
Consecutive-Below n [] e queue c = (omega arith, tt)
Consecutive-Below n (d ∷ es) e queue c =
    let rest = Consecutive-Below (suc n) es e queue c.1 in
    (omega (arith, rest.0), (omega (arith, rest.0), rest.1))

novel-Below : (n : ℕ) (col es : List Epoch) → Below n es → Below n (novel col es)
novel-Below n col [] b = tt
novel-Below n col (e ∷ es) b = ground (arith, novel-Below n col es b.1)

-- what the collection was, and what was added of the epochs that were taken
known_before :
    (n : ℕ) (col es queue : List Epoch) (e : Epoch)
    → Consecutive n (es ++ e ∷ queue)
    → is_epoch_known (col ++ novel col es) e ≡ is_epoch_known col e
known_before n col es queue e c =
    let below = (Consecutive-Below n es e queue c).1 in
    let unknown = Below-unknown (novel col es) e (novel-Below e.id col es below) in
    ground (arith, known-append col (novel col es) e)

add_epoch-novel :
    (col cur : List Epoch) (e : Epoch)
    → is_epoch_known cur e ≡ is_epoch_known col e
    → (if e.end_time == 0 then cur else add_epoch true e cur) ≡ cur ++ novel col (e ∷ [])
unfolding add_epoch
add_epoch-novel col cur e k = ground (arith, append-nil cur)

-- The state of a scanner that started_epochs at `start`, over a collection `col`, where no epoch above
-- `high` was seen.
pub record Inv (start high : ℕ) (col : List Epoch) (s : EpochScanner) : Type 0 where
  pub consecutive : Consecutive start (s.taken ++ s.queue)
  pub counted : s.current ≡ start + length (s.taken ++ s.queue)
  pub stored : s.collection ≡ col ++ novel col s.taken
  pub limited : s.current ≤ high + 1
  pub top_limited : (t : Epoch) → s.top ≡ some t → t.id ≤ high

-- The answers of the environment: the sealed epochs are at most `high`, an epoch has the number that
-- was asked for, and inserts succeed.
abbrev pub Answers : ℕ → Event → Type 0
Answers high (observe_tick none) = Unit {0}
Answers high (observe_tick (some none)) = Unit {0}
Answers high (observe_tick (some (some ep))) = ep.id ≤ high
Answers high (scan_tick epoch stop) = (n : ℕ) (e : Epoch) → epoch n ≡ some e → e.id ≡ n
Answers high (dequeue_tick inserted) = inserted ≡ true

store_eq :
    (ep : Epoch) (s : EpochScanner)
    → store true ep s ≡ record s {
      collection = if ep.end_time == 0 then s.collection else add_epoch true ep s.collection;
    }
unfolding store
store_eq ep s = elim (Bool-cases (ep.end_time == 0)) [ inl e ↦ rw e refl | inr e ↦ rw e refl ]

module _ (start high : ℕ) (col : List Epoch) (small : high < u64 - 1) where
  observe_epoch-Inv :
      (ep : Epoch) (s : EpochScanner)
      → ep.id ≤ high
      → Inv start high col s
      → Inv start high col (update_top (some ep) s)
  observe_epoch-Inv ep s le v = elim (Bool-cases (same_top s.top ep)) [
    | inl e ↦ rw e v
    | inr e ↦ rw e (record {
      consecutive = v.consecutive;
      counted = v.counted;
      stored = v.stored;
      limited = v.limited;
      top_limited = λ t q. subst (λ u. u.id ≤ high) (some-injective ep t q) le;
    })
  ]

  push-Inv :
      (ep : Epoch) (s : EpochScanner)
      → ep.id ≡ s.current
      → s.current ≤ high
      → Inv start high col s
      → Inv start high col (push_epoch (some ep) false s)
  push-Inv ep s e le v =
      let assoc = append_assoc s.taken s.queue (ep ∷ []) in
      record {
        consecutive =
            subst (Consecutive start) assoc
              (append-Consecutive start (s.taken ++ s.queue) ep v.consecutive (e ∙ v.counted));
        counted =
            omega (arith, v.counted, ap length assoc, length-append (s.taken ++ s.queue) (ep ∷ []));
        stored = v.stored;
        limited = omega arith;
        top_limited = v.top_limited;
      }

  push_or_stay :
      (epoch : ℕ → Option Epoch) (stop : Bool) (s : EpochScanner)
      → Answers high (scan_tick epoch stop)
      → s.current ≤ high
      → Inv start high col s
      → Inv start high col (push_epoch (epoch s.current) stop s)
  push_or_stay epoch true s a le v = elim (Option-cases (epoch s.current)) [
    | inl e ↦ rw e v
    | inr (ep, e) ↦ rw e v
  ]
  push_or_stay epoch false s a le v = elim (Option-cases (epoch s.current)) [
    | inl e ↦ rw e v
    | inr (ep, e) ↦ rw e (push-Inv ep s (a s.current ep e) le v)
  ]

  take-Inv :
      (ep : Epoch) (queue : List Epoch) (s : EpochScanner)
      → s.queue ≡ ep ∷ queue
      → Inv start high col s
      → Inv start high col (take_epoch true (ep ∷ queue) s)
  take-Inv ep queue s e v =
      let assoc = append_assoc s.taken (ep ∷ []) queue in
      let c : Consecutive start (s.taken ++ ep ∷ queue) =
        subst (λ q. Consecutive start (s.taken ++ q)) e v.consecutive in
      let known =
        ap (λ l. is_epoch_known l ep) v.stored ∙ known_before start col s.taken queue ep c in
      rw (store_eq ep (record s { queue = queue; taken = s.taken ++ ep ∷ [] })) (record {
        consecutive = subst (Consecutive start) (sym assoc) c;
        counted =
            v.counted
            ∙ ap (λ q. start + length (s.taken ++ q)) e
            ∙ ap (λ l. start + length l) (sym assoc);
        stored =
            add_epoch-novel col s.collection ep known
            ∙ ap (λ l. l ++ novel col (ep ∷ [])) v.stored
            ∙ append_assoc col (novel col s.taken) (novel col (ep ∷ []))
            ∙ ap (λ l. col ++ l) (sym (novel-append col s.taken (ep ∷ [])));
        limited = v.limited;
        top_limited = v.top_limited;
      })

  dequeue_tick-Inv :
      (queue : List Epoch) (s : EpochScanner)
      → s.queue ≡ queue
      → Inv start high col s
      → Inv start high col (take_epoch true queue s)
  dequeue_tick-Inv [] s e v = v
  dequeue_tick-Inv (ep ∷ queue) s e v = take-Inv ep queue s e v

  next_epoch-Inv :
      (top : Option Epoch) (epoch : ℕ → Option Epoch) (stop : Bool) (s : EpochScanner)
      → s.top ≡ top
      → Answers high (scan_tick epoch stop)
      → Inv start high col s
      → Inv start high col (next_below top epoch stop s)
  next_epoch-Inv none epoch stop s e a v = v
  next_epoch-Inv (some top) epoch stop s e a v = elim (Bool-cases (ltb top.id s.current)) [
    | inl p ↦ rw p v
    | inr p ↦
        let sealed = v.top_limited top e in rw p (push_or_stay epoch stop s a (ground arith) v)
  ]

  step-Inv :
      (s : EpochScanner) (e : Event)
      → Answers high e
      → Inv start high col s
      → Inv start high col (step s e)
  unfolding step observe_epoch next_epoch dequeue
  step-Inv s (observe_tick none) a v = v
  step-Inv s (observe_tick (some none)) a v = v
  step-Inv s (observe_tick (some (some ep))) a v = observe_epoch-Inv ep s a v
  step-Inv s (scan_tick epoch stop) a v = next_epoch-Inv s.top epoch stop s refl a v
  step-Inv s (dequeue_tick inserted) a v = rw a (dequeue_tick-Inv s.queue s refl v)

  run-Inv :
      (events : List Event) (s : EpochScanner)
      → All (Answers high) events
      → Inv start high col s
      → Inv start high col (run s events)
  unfolding run
  run-Inv [] s a v = v
  run-Inv (e ∷ events) s a v = run-Inv events (step s e) a.1 (step-Inv s e a.0 v)

-- A scanner that starts at the last known epoch, or at 1 if that is not known, takes the epochs from
-- there on, each once and in order of their numbers, and none above those that the node has
-- sealed. If the inserts succeed, then the collection is the old one, and after it those of the epochs that were taken
-- from the queue which have an end and a stake, and were not in it, in the same order.
pub run_stores :
    (last : Option ℕ) (col : List Epoch) (high : ℕ) (events : List Event)
    → starting_epoch last ≤ high + 1
    → high < u64 - 1
    → All (Answers high) events
    → Inv (starting_epoch last) high col (run (started_epochs last col) events)
unfolding started_epochs
run_stores last col high events below small a =
    run-Inv (starting_epoch last) high col small events (started_epochs last col) a (record {
      consecutive = tt;
      counted = omega arith;
      stored = sym (append-nil col);
      limited = below;
      top_limited = λ t e. absurd (none-ne-some t e);
    })
