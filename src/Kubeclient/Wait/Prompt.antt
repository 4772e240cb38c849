-- ===== src/Kubeclient/Wait/Prompt.antt =====
-- internal/kubeclient/kubeclient.go: when waitAllReady is sure to return nil.
use nanok8s.Base.{
  ℕ, zero, suc, ◌≤◌, ◌<◌, ◌≡◌, ◌≢◌, refl, sym, ◌∙◌, subst, Bool, true, false, Option, none, some,
  List, [], ◌∷◌, ◌++◌, length, All, arith,
}
use mathlib.Core.List.{Memᴰ}
use mathlib.Core.List.Memᴰ.{head, tail}
use nanok8s.Os.World.{Error, ok, World, M, pure, ◌>>=◌}
use nanok8s.Os.Spec.Values.{Gives, Gives-ok}
use nanok8s.Kubeclient.{Context}
use nanok8s.Kubeclient.Race.{Worker, polling, passed, stopped, Race, pollers, start, Reach, begin}
use nanok8s.Kubeclient.Race.Invariant.{passes, Reach-Inv, length-pollers}
use nanok8s.Kubeclient.Wait as W
use nanok8s.Kubeclient.Wait.Checks.{AllChecks, AllChecks-check_of}
use nanok8s.Kubeclient.Wait.Schedule.{happen-Reach}

-- An action that succeeds in every world, with a value of which this is known
pub record Comes {A : Type 0} (P : A → Type 0) (m : M A) : Type 0 where
  pub at : (w : World) → (a : A) × ((w' : World) × ((m w ≡ (ok a, w')) × P a))

Comes-pure : {A : Type 0} {P : A → Type 0} (a : A) → P a → Comes P (pure a)
unfolding pure
Comes-pure a p = record { at = λ w. (a, (w, (refl, p))) }

Comes-bind :
    {A B : Type 0} {P : A → Type 0} {Q : B → Type 0} {m : M A} {f : A → M B}
    → Comes P m
    → ((a : A) → P a → Comes Q (f a))
    → Comes Q (m >>= f)
unfolding ◌>>=◌
Comes-bind c k = record {
  at = λ w.
      let r = c.at w in
      let s = (k r.0 r.1.1.1).at r.1.0 in (s.0, (s.1.0, (rw r.1.1.0 s.1.1.0, s.1.1.1)));
}

Comes-Gives :
    {A : Type 0} {P Q : A → Type 0} {E : Error → Type 0} {m : M A}
    → Comes P m
    → Gives Q E m
    → Comes (λ a. P a × Q a) m
Comes-Gives c g = record {
  at = λ w. let r = c.at w in (r.0, (r.1.0, (r.1.1.0, (r.1.1.1, Gives-ok w r.1.0 r.0 g r.1.1.0))));
}

abbrev At : List Worker → ℕ → Type 0
At [] i = ⊥
At (w ∷ ws) zero = w ≡ passed
At (w ∷ ws) (suc i) = At ws i

abbrev Live : List Worker → Type 0
Live ws = All (λ w. w ≢ stopped) ws

At-set_worker : (ws : List Worker) (i : ℕ) → i < length ws → At (W.set_worker passed ws i) i
unfolding W.set_worker
At-set_worker [] i h = absurd (omega (arith, h))
At-set_worker (w ∷ ws) zero h = refl
At-set_worker (w ∷ ws) (suc i) h = At-set_worker ws i (omega (arith, h))

At-stays : (ws : List Worker) (i j : ℕ) → At ws j → At (W.set_worker passed ws i) j
unfolding W.set_worker
At-stays [] i j h = h
At-stays (w ∷ ws) zero zero h = refl
At-stays (w ∷ ws) zero (suc j) h = h
At-stays (w ∷ ws) (suc i) zero h = h
At-stays (w ∷ ws) (suc i) (suc j) h = At-stays ws i j h

Live-set_worker : (ws : List Worker) (i : ℕ) → Live ws → Live (W.set_worker passed ws i)
unfolding W.set_worker
Live-set_worker [] i h = tt
Live-set_worker (w ∷ ws) zero h = ((λ e. cc), h.1)
Live-set_worker (w ∷ ws) (suc i) h = (h.0, Live-set_worker ws i h.1)

length-set_worker :
    (v : Worker) (ws : List Worker) (i : ℕ) → length (W.set_worker v ws i) ≡ length ws
unfolding W.set_worker
length-set_worker v [] i = refl
length-set_worker v (w ∷ ws) zero = refl
length-set_worker v (w ∷ ws) (suc i) = omega (arith, length-set_worker v ws i)

Live-pollers : (n : ℕ) → Live (pollers n)
Live-pollers zero = tt
Live-pollers (suc n) = ((λ e. cc), Live-pollers n)

-- A goroutine that polls no longer has passed.
At-check_of :
    (cs : List W.ReadyCheck) (ws : List Worker) (i : ℕ)
    → i < length ws
    → length ws ≡ length cs
    → Live ws
    → W.check_of cs ws i ≡ none
    → At ws i
unfolding W.check_of
At-check_of cs [] i h e l n = absurd (omega (arith, h))
At-check_of [] (w ∷ ws) i h e l n = absurd (omega (arith, e))
At-check_of (c ∷ cs) (polling ∷ ws) zero h e l n = absurd (cc n)
At-check_of (c ∷ cs) (passed ∷ ws) zero h e l n = refl
At-check_of (c ∷ cs) (stopped ∷ ws) zero h e l n = absurd (l.0 refl)
At-check_of (c ∷ cs) (w ∷ ws) (suc i) h e l n =
    At-check_of cs ws i (omega (arith, h)) (omega (arith, e)) l.1 n

passes-At : (ws : List Worker) → ((i : ℕ) → i < length ws → At ws i) → passes ws ≡ length ws
passes-At [] k = refl
passes-At (passed ∷ ws) k = omega (arith, passes-At ws (λ i h. k (suc i) (omega (arith, h))))
passes-At (polling ∷ ws) k = absurd (cc (k zero (omega arith)))
passes-At (stopped ∷ ws) k = absurd (cc (k zero (omega arith)))

-- An event other than the end of the context
abbrev pub Prompt : W.Event → Type 0
Prompt (W.poll i quits) = Unit
Prompt W.receive = Unit
Prompt W.give_up = Unit
Prompt W.expire = ⊥

-- The caller takes as many names.
abbrev pub receives : ℕ → List W.Event
receives zero = []
receives (suc k) = W.receive ∷ receives k

abbrev pub IsTrue : M Bool → Type 0
IsTrue m = Comes (λ b. b ≡ true) m

module _ (cs : List W.ReadyCheck) (T : AllChecks IsTrue cs) where
  abbrev Good : Race → Type 0
  Good s =
      ((s.done ≡ false) × (s.outcome ≡ none)) × ((length s.workers ≡ length cs) × Live s.workers)

  abbrev Later : Race → Race → Type 0
  Later s t = (j : ℕ) → At s.workers j → At t.workers j

  -- Whom the event has had poll
  abbrev Asked : W.Event → Race → Type 0
  Asked (W.poll i quits) t = i < length cs → At t.workers i
  Asked W.receive t = Unit
  Asked W.give_up t = Unit
  Asked W.expire t = Unit

  abbrev After : Race → W.Event → Race → Type 0
  After s e t = Good t × (Later s t × Asked e t)

  run_poll-After :
      (i : ℕ) (quits : Bool) (s : Race) (o : Option (M Bool))
      → W.check_of cs s.workers i ≡ o
      → Good s
      → Comes (After s (W.poll i quits)) (W.run_poll i quits s o)
  unfolding W.run_poll W.polled
  run_poll-After i quits s none e g =
      Comes-pure s
        (g, ((λ j a. a), λ h. At-check_of cs s.workers i (omega (arith, h, g.1.0)) g.1.0 g.1.1 e))
  run_poll-After i quits s (some m) e g =
      Comes-bind (AllChecks-check_of IsTrue cs s.workers i m e T) λ b y. rw y (
        Comes-pure _ (
          (g.0, (length-set_worker passed s.workers i ∙ g.1.0, Live-set_worker s.workers i g.1.1)),
          (
            (λ j a. At-stays s.workers i j a),
            λ h. At-set_worker s.workers i (omega (arith, h, g.1.0)),
          ),
        ))

  received-After : (s : Race) (b r : ℕ) → Good s → After s W.receive (W.received s b r)
  unfolding W.received
  received-After s zero r g = (g, ((λ j a. a), tt))
  received-After s (suc b) zero g = (g, ((λ j a. a), tt))
  received-After s (suc b) (suc r) g = (g, ((λ j a. a), tt))

  given_up-After :
      (s : Race) (r : ℕ) (d : Bool) → d ≡ false → Good s → After s W.give_up (W.given_up s r d)
  unfolding W.given_up
  given_up-After s zero d e g = (g, ((λ j a. a), tt))
  given_up-After s (suc r) false e g = (g, ((λ j a. a), tt))
  given_up-After s (suc r) true e g = absurd cc

  happen-After :
      (s : Race) (e : W.Event) → Prompt e → Good s → Comes (After s e) (W.happen cs s none e)
  unfolding W.happen
  happen-After s (W.poll i quits) p g = run_poll-After i quits s _ refl g
  happen-After s W.receive p g = Comes-pure _ (received-After s _ _ g)
  happen-After s W.give_up p g = Comes-pure _ (given_up-After s s.remaining s.done g.0.0 g)
  happen-After s W.expire p g = absurd p

  abbrev n : ℕ
  n = length cs

  -- The schedule's goroutines poll, and then something else happens.
  run_events-After :
      {P : Race → Type 0} (es rs : List W.Event) (s : Race)
      → All Prompt es
      → Reach n s
      → Good s
      → ((t : Race)
          → Reach n t
          → Good t
          → Later s t
          → ((i : ℕ) (q : Bool) → Memᴰ (W.poll i q) es → i < n → At t.workers i)
          → Comes P (W.run_events cs rs t))
      → Comes P (W.run_events cs (es ++ rs) s)
  unfolding W.run_events
  run_events-After [] rs s p r g k = k s r g (λ j a. a) (λ i q m. elim m [ ])
  run_events-After (e ∷ es) rs s p r g k =
      Comes-bind
        (subst (λ o. Comes (λ t. After s e t × Reach n t) (W.happen cs s o e)) (sym g.0.1)
          (Comes-Gives (happen-After s e p.0 g) (happen-Reach n cs s none e g.0.1 r)))
        λ u h. run_events-After es rs u p.1 h.1 h.0.0 λ t rt gt l a.
          k t rt gt (λ j b. l j (h.0.1.0 j b))
            λ i q m c. elim m [
              | head y ↦ l i (subst (λ x. Asked x u) (sym y) h.0.1.1 c)
              | tail j ↦ a i q j c
            ]

  lowered :
      (s : Race) (k b r : ℕ)
      → s.buffered ≡ b
      → s.remaining ≡ r
      → b ≡ r
      → r ≤ suc k
      → ((W.received s b r).buffered ≡ (W.received s b r).remaining)
        × ((W.received s b r).remaining ≤ k)
  unfolding W.received
  lowered s k zero zero e f q h = (e ∙ sym f, omega (arith, f))
  lowered s k zero (suc r) e f q h = absurd (omega (arith, q))
  lowered s k (suc b) zero e f q h = absurd (omega (arith, q))
  lowered s k (suc b) (suc r) e f q h = (omega (arith, q), omega (arith, h))

  abbrev Drained : Race → Type 0
  Drained t = (t.outcome ≡ none) × (t.remaining ≡ 0)

  run_events-Drained :
      (k : ℕ) (s : Race)
      → Good s
      → s.buffered ≡ s.remaining
      → s.remaining ≤ k
      → Comes Drained (W.run_events cs (receives k) s)
  unfolding W.run_events W.happen
  run_events-Drained zero s g e h = Comes-pure s (g.0.1, omega (arith, h))
  run_events-Drained (suc k) s g e h =
      let t = W.received s s.buffered s.remaining in
      let low = lowered s k s.buffered s.remaining refl refl e h in
      Comes-bind {P = λ u. u ≡ t}
        (subst (λ o. Comes (λ u. u ≡ t) (W.happen cs s o W.receive)) (sym g.0.1)
          (Comes-pure t refl))
        λ u q.
          subst (λ x. Comes Drained (W.run_events cs (receives k) x)) (sym q)
            (run_events-Drained k t (received-After s _ _ g).0 low.0 low.1)

  start-Good : Good (start n)
  unfolding start
  start-Good = ((refl, refl), (length-pollers n, Live-pollers n))

  finished :
      (t : Race)
      → Reach n t
      → Good t
      → ((i : ℕ) → i < n → At t.workers i)
      → Comes Drained (W.run_events cs (receives n) t)
  finished t r g a =
      let i = Reach-Inv r in
      let all = passes-At t.workers (λ j h. a j (omega (arith, h, g.1.0))) in
      run_events-Drained n t g (omega (arith, i.counted, all, g.1.0)) i.bounded

-- waitAllReady returns nil where each of its checks, whenever it is asked, answers true, each of its
-- goroutines polls at some time, in whatever order and with whatever else the schedule holds, the
-- context is not done meanwhile, and then the caller takes the names.
pub wait_all_ready-Comes :
    (cs : List W.ReadyCheck) (es : List W.Event) (ctx : Context)
    → AllChecks IsTrue cs
    → All Prompt es
    → ((i : ℕ) → i < length cs → (q : Bool) × Memᴰ (W.poll i q) es)
    → Comes (λ u. Unit) (W.wait_all_ready (es ++ receives (length cs)) ctx cs)
unfolding W.wait_all_ready W.last_outcome W.returned
wait_all_ready-Comes cs es ctx T p polls =
    Comes-bind
      (run_events-After cs T es _ (start (length cs)) p begin (start-Good cs T)
        λ t r g l a. finished cs T t r g λ i h. let m = polls i h in a i m.0 m.1 h)
      λ t d. rw d.0 (rw d.1 (Comes-pure tt tt))
