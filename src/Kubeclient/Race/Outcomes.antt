-- ===== src/Kubeclient/Race/Outcomes.antt =====
-- internal/kubeclient/kubeclient.go: what waitAllReady returns, in every interleaving.
use nanok8s.Base.{
  All, ℕ, zero, suc, ◌+◌, ◌≤◌, ◌<◌, ◌≡◌, ◌⊎◌, inl, inr, refl, sym, ap, subst, Option, true, none,
  some, List, length, arith,
}
use nanok8s.Kubeclient.Race.{
  Worker, passed, Outcome, ready, not_ready, Race, Turn, Caller, receive, give_up, finish, Reach,
  Step, send, stop, expire, call, next, capacity,
}
use nanok8s.Kubeclient.Race.Invariant.{
  passes, Explained, Inv, Reach-Inv, passes-le-length, passes-Turn_lt, All-passed,
}

-- waitAllReady returns nil only when each of its checks has been found true, in every interleaving.
pub ready_sound :
    (n : ℕ) (s : Race)
    → Reach n s
    → s.outcome ≡ some ready
    → (length s.workers ≡ n) × All (λ w. w ≡ passed) s.workers
ready_sound n s r o =
    let i = Reach-Inv r in
    let none_left : s.remaining ≡ 0 = subst (Explained s) o i.outcome in
    (
      i.workers,
      All-passed s.workers
          (omega (arith, i.counted, i.workers, none_left, passes-le-length s.workers)),
    )

-- waitAllReady returns an error only after the context is done; the number in it is that of the
-- checks whose names it has not received, and at least one.
pub not_ready_sound :
    (n r : ℕ) (s : Race)
    → Reach n s
    → s.outcome ≡ some (not_ready r)
    → (s.done ≡ true) × ((1 ≤ r) × (s.buffered + n ≡ passes s.workers + r))
not_ready_sound n r s reach o =
    let i = Reach-Inv reach in
    let e : Explained s (some (not_ready r)) = subst (Explained s) o i.outcome in
    (e.1.1, (e.1.0, omega (arith, i.counted, e.0)))

-- No goroutine ever blocks on the channel: whenever one may send, fewer names are buffered than the
-- channel has capacity for.
pub send_has_room :
    (n : ℕ) (s : Race) (ws : List Worker)
    → Reach n s
    → Turn passed s.workers ws
    → s.buffered < capacity s
send_has_room n s ws r m =
    let i = Reach-Inv r in omega (arith, i.counted, i.workers, i.bounded, passes-Turn_lt m)

-- Steps of the goroutines, of the context and of the caller, with a count of the caller's
pub data Walk : ℕ → Race → Race → Type 0 where
  stay : {s : Race} → Walk zero s s
  own : {k : ℕ} {s t u : Race} → Caller s t → Walk k t u → Walk (suc k) s u
  beside : {k : ℕ} {s t u : Race} → Step s t → Walk k t u → Walk k s u

-- How many steps the caller has left
abbrev left : Option Outcome → ℕ → ℕ
left none r = suc r
left (some o) r = zero

abbrev budget : Race → ℕ
budget s = left s.outcome s.remaining

lowers : (o : Option Outcome) (r k : ℕ) → o ≡ none → k ≤ r → k < left o r
lowers none r k e h = omega (arith, h)
lowers (some x) r k e h = absurd (cc e)

Caller-budget : {s t : Race} → Caller s t → budget t < budget s
Caller-budget {s} (receive {b} {r} o f e) =
    subst (λ x. left x r < budget s) (sym o)
      (lowers s.outcome s.remaining (suc r) o (omega (arith, e)))
Caller-budget {s} (give_up o e d) = lowers s.outcome s.remaining zero o (omega arith)
Caller-budget {s} (finish o e) = lowers s.outcome s.remaining zero o (omega arith)

Step-budget : {s t : Race} → Step s t → budget t ≤ budget s
Step-budget (send m r) = omega arith
Step-budget (stop m r) = omega arith
Step-budget expire = omega arith
Step-budget (call c) = omega (arith, Caller-budget c)

Walk-budget : {k : ℕ} {s u : Race} → Walk k s u → k + budget u ≤ budget s
Walk-budget stay = omega arith
Walk-budget (own c w) = omega (arith, Caller-budget c, Walk-budget w)
Walk-budget (beside c w) = omega (arith, Step-budget c, Walk-budget w)

Walk-Reach : {n k : ℕ} {s u : Race} → Walk k s u → Reach n s → Reach n u
Walk-Reach stay r = r
Walk-Reach (own c w) r = Walk-Reach w (next r (call c))
Walk-Reach (beside c w) r = Walk-Reach w (next r c)

moves :
    (n : ℕ) (s : Race) (r : ℕ)
    → Inv n s
    → s.remaining ≡ r
    → s.outcome ≡ none
    → (s.done ≡ true) ⊎ (passes s.workers ≡ n)
    → (t : Race) × Caller s t
moves n s zero i e o h = (_, finish o e)
moves n s (suc r) i e o (inl d) = (_, give_up o e d)
moves n s (suc r) i e o (inr p) =
    let full : s.buffered ≡ suc r = omega (arith, i.counted) in (_, receive o full e)

-- The caller of waitAllReady does not turn for ever and is not stuck. In whatever order goroutines,
-- context and caller take their steps, as long as it has not returned it has taken no more steps
-- than it had names to wait for; and if the context is done, or all checks have been found true, it
-- can take one more.
pub wait-Returns :
    (n k : ℕ) (s u : Race)
    → Reach n s
    → Walk k s u
    → u.outcome ≡ none
    → (u.done ≡ true) ⊎ (passes u.workers ≡ n)
    → (k ≤ s.remaining) × ((t : Race) × Caller u t)
wait-Returns n k s u r w o h = (
  within s.outcome s.remaining (Walk-budget w),
  moves n u u.remaining (Reach-Inv (Walk-Reach w r)) refl o h,
)
  where
    running : budget u ≡ suc u.remaining
    running = ap (λ (x : Option Outcome). left x u.remaining) o

    within : (x : Option Outcome) (m : ℕ) → k + budget u ≤ left x m → k ≤ m
    within none m q = omega (arith, q, running)
    within (some y) m q = absurd (omega (arith, q, running))
