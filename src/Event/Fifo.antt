-- ===== src/Event/Fifo.antt =====
-- The queues of src/event.rs are first in, first out, in every interleaving of the CPUs.
use sys_hyper.Base.{
  ℕ, zero, suc, ◌<◌, ◌≤◌, ◌≡◌, refl, sym, ◌∙◌, ap, false, ◌==◌, Bool-cases, inl, inr, if◌then◌else◌,
  Option, none, some, Option-cases, List, [], ◌∷◌, ◌++◌, get_elem?, get_or, length, length-set,
  get_or-set_self, get_or-set_ne, arith, suc,
}
use mathlib.Core.List.{append-nil, append_assoc}
use sys_hyper.Event.{EventManager, add_event, fetch_event}

-- One call, with its result, from one state to the next.
pub data Step : EventManager → EventManager → Type 0 where
  add : {m m' : EventManager} (cpu event_id : ℕ) → m' ≡ (add_event cpu event_id m).0 → Step m m'
  fetch : {m m' : EventManager} (cpu : ℕ) → m' ≡ (fetch_event cpu m).0 → Step m m'

pub data Steps : EventManager → EventManager → Type 0 where
  done : {m : EventManager} → Steps m m
  step : {m m' m'' : EventManager} → Step m m' → Steps m' m'' → Steps m m''

abbrev pub queue : EventManager → ℕ → List ℕ
queue m cpu = get_or m.inner cpu []

abbrev to_list : Option ℕ → List ℕ
to_list none = []
to_list (some x) = x ∷ []

-- The events that one call adds for `c`, and fetches for `c`.
unfoldable pub adds : {m m' : EventManager} → Step m m' → ℕ → List ℕ
adds (Step.add cpu event_id e) c = if cpu == c then event_id ∷ [] else []
adds (Step.fetch cpu e) c = []

unfoldable pub fetches : {m m' : EventManager} → Step m m' → ℕ → List ℕ
fetches (Step.add cpu event_id e) c = []
fetches {m} (Step.fetch cpu e) c = if cpu == c then to_list ((fetch_event cpu m).1) else []

unfoldable pub added : {m m' : EventManager} → Steps m m' → ℕ → List ℕ
unfolding adds
added Steps.done c = []
added (Steps.step s r) c = adds s c ++ added r c

unfoldable pub fetched : {m m' : EventManager} → Steps m m' → ℕ → List ℕ
unfolding fetches
fetched Steps.done c = []
fetched (Steps.step s r) c = fetches s c ++ fetched r c

queue_of :
    (xs : List (List ℕ)) (c : ℕ) (q : List ℕ)
    → get_elem? xs c ≡ some q
    → (get_or xs c [] ≡ q) × (c < length xs)
queue_of [] c q h = cc h
queue_of (x ∷ xs) zero q h = (cc h, omega arith)
queue_of (x ∷ xs) (suc c) q h = let r = queue_of xs c q h in (r.0, omega (arith, r.1))

no_queue : (xs : List (List ℕ)) (c : ℕ) → get_elem? xs c ≡ none → length xs ≤ c
no_queue [] c h = omega arith
no_queue (x ∷ xs) zero h = cc h
no_queue (x ∷ xs) (suc c) h = omega (arith, no_queue xs c h)

-- A queue gains what is added at its end, and loses what is fetched at its front.
abbrev Balances : EventManager → EventManager → ℕ → List ℕ → List ℕ → Type 0
Balances m m' c more less =
    (queue m c ++ more ≡ less ++ queue m' c) × (length m'.inner ≡ length m.inner)

module _ (m : EventManager) (c : ℕ) (lt : c < length m.inner) where
  add-Balances :
      (cpu event_id : ℕ)
      → Balances m ((add_event cpu event_id m).0) c (if cpu == c then event_id ∷ [] else []) []
  unfolding add_event
  add-Balances cpu event_id = elim (Option-cases (get_elem? m.inner cpu)) [
    | inl e ↦
        let far : (cpu == c) ≡ false = ground (arith, no_queue m.inner cpu e) in
        rw (e, far) (append-nil (queue m c), refl)
    | inr (q, e) ↦ elim (Bool-cases (cpu == c)) [
      | inl hit ↦
          let d : cpu ≡ c = ground arith in
          let here = queue_of m.inner c q (rw d at e) in
          rw (e, hit, d, here.0, get_or-set_self m.inner c (q ++ event_id ∷ []) [] lt)
            (refl, length-set m.inner c (q ++ event_id ∷ []))
      | inr far ↦
          rw (e, far, get_or-set_ne m.inner cpu c (q ++ event_id ∷ []) [] (ground arith))
            (append-nil (queue m c), length-set m.inner cpu (q ++ event_id ∷ []))
    ]
  ]

  fetch_some :
      (cpu : ℕ) (q : List ℕ)
      → get_elem? m.inner cpu ≡ some q
      → Balances m
          ((fetch_event cpu m).0)
          c
          []
          (if cpu == c then to_list ((fetch_event cpu m).1) else [])
  unfolding fetch_event
  fetch_some cpu [] e = rw e (append-nil (queue m c) ∙ ground arith, refl)
  fetch_some cpu (x ∷ q) e = elim (Bool-cases (cpu == c)) [
    | inl hit ↦
        let d : cpu ≡ c = ground arith in
        let here = queue_of m.inner c (x ∷ q) (rw d at e) in
        rw (e, hit, d, here.0, get_or-set_self m.inner c q [] lt)
          (append-nil (x ∷ q), length-set m.inner c q)
    | inr far ↦
        rw (e, far, get_or-set_ne m.inner cpu c q [] (ground arith))
          (append-nil (queue m c), length-set m.inner cpu q)
  ]

  fetch-Balances :
      (cpu : ℕ)
      → Balances m
          ((fetch_event cpu m).0)
          c
          []
          (if cpu == c then to_list ((fetch_event cpu m).1) else [])
  unfolding fetch_event
  fetch-Balances cpu = elim (Option-cases (get_elem? m.inner cpu)) [
    | inl e ↦ rw e (append-nil (queue m c) ∙ ground arith, refl)
    | inr (q, e) ↦ fetch_some cpu q e
  ]

step-Balances :
    {m m' : EventManager} (s : Step m m') (c : ℕ)
    → c < length m.inner
    → Balances m m' c (adds s c) (fetches s c)
unfolding adds fetches
step-Balances {m} (Step.add cpu event_id e) c lt = rw e (add-Balances m c lt cpu event_id)
step-Balances {m} (Step.fetch cpu e) c lt = rw e (fetch-Balances m c lt cpu)

-- In every sequence of calls, of all CPUs in any order, for a CPU that has a queue: the events that
-- were in its queue at first, followed by those added for it, are those fetched for it, followed by
-- those still in its queue.
pub steps-Balances :
    {m m' : EventManager} (r : Steps m m') (c : ℕ)
    → c < length m.inner
    → queue m c ++ added r c ≡ fetched r c ++ queue m' c
unfolding added fetched
steps-Balances Steps.done c lt = append-nil _
steps-Balances {m} (Steps.step {m'} s r) c lt =
    let now = step-Balances s c lt in
    let later = steps-Balances r c (rw now.1 lt) in
    sym (append_assoc (queue m c) (adds s c) (added r c))
    ∙ ap (λ (l : List ℕ). l ++ added r c) now.0
    ∙ append_assoc (fetches s c) (queue m' c) (added r c)
    ∙ ap (λ (l : List ℕ). fetches s c ++ l) later
    ∙ sym (append_assoc (fetches s c) (fetched r c) (queue _ c))
