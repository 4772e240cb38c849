-- ===== src/Kubeclient/Poll.antt =====
-- internal/kubeclient/kubeclient.go: how WaitForAPIServer's loop ends.
use nanok8s.Base.{
  ℕ, zero, suc, ◌+◌, ◌≤◌, ◌<◌, ◌≡◌, ◌≢◌, ◌⊎◌, inl, inr, refl, arith, sym, ◌∙◌, subst, Option, none,
  some, ltb, Bool-cases,
}
use nanok8s.Os.World.{Error, Result, ok, err, World, M, pure, throw, ◌>>=◌, attempt}
use nanok8s.Kubeclient.{poll_from, not_ready, Api, Context, wait_for_api_server}

-- Requests that are answered by their number, and that change nothing: no error is a success.
abbrev pub answer : Option Error → Result (Unit {0})
answer none = ok tt
answer (some e) = err e

abbrev pub answered : (ℕ → Option Error) → ℕ → M (Unit {0})
answered answers k w = (answer (answers k), w)

-- One of the requests k, …, k + n succeeds, and the wait returns nil.
pub record Up (answers : ℕ → Option Error) (k n : ℕ) (r : Result (Unit {0}) × World) (w : World)
    : Type 0 where
  pub index : ℕ
  pub low : k ≤ index
  pub high : index ≤ k + n
  pub success : answers index ≡ none
  pub before : (j : ℕ) → k ≤ j → j < index → answers j ≢ none
  pub result : r ≡ (ok tt, w)

-- They all fail, and the wait returns the context's error with the last of theirs.
pub record Down (answers : ℕ → Option Error) (cause : Error) (k n : ℕ)
    (r : Result (Unit {0}) × World) (w : World) : Type 0 where
  pub index : ℕ
  pub end : index ≡ k + n
  pub last : Error
  pub failed : answers index ≡ some last
  pub all : (j : ℕ) → k ≤ j → j ≤ k + n → answers j ≢ none
  pub result : r ≡ (err (not_ready cause last), w)

le_cases : (k j : ℕ) → k ≤ j → (k ≡ j) ⊎ (suc k ≤ j)
le_cases k j h = elim (Bool-cases (ltb k j)) [
  | inl y ↦ inr (ground arith)
  | inr z ↦ inl (ground arith)
]

module _ (answers : ℕ → Option Error) (cause : Error) (w : World) where
  abbrev poll : ℕ → ℕ → Option Error → Result (Unit {0}) × World
  poll k n a = poll_from (answered answers) cause k n (answer a) w

  abbrev pub Ends : ℕ → ℕ → Result (Unit {0}) × World → Type 0
  Ends k n r = Up answers k n r w ⊎ Down answers cause k n r w

  failed_at : (k j : ℕ) (e : Error) → answers k ≡ some e → k ≡ j → answers j ≢ none
  failed_at k j e h q = subst (λ i. answers i ≢ none) q (λ z. cc (sym z ∙ h))

  later :
      (k n : ℕ) (e : Error) (r : Result (Unit {0}) × World)
      → answers k ≡ some e
      → Ends (suc k) n r
      → Ends k (suc n) r
  later k n e r h (inl u) = inl (record {
    index = u.index;
    low = omega (arith, u.low);
    high = omega (arith, u.high);
    success = u.success;
    before =
        λ j a b. elim (le_cases k j a) [ inl q ↦ failed_at k j e h q | inr q ↦ u.before j q b ];
    result = u.result;
  })
  later k n e r h (inr d) = inr (record {
    index = d.index;
    end = omega (arith, d.end);
    last = d.last;
    failed = d.failed;
    all = λ j a b. elim (le_cases k j a) [
      | inl q ↦ failed_at k j e h q
      | inr q ↦ d.all j q (omega (arith, b))
    ];
    result = d.result;
  })

  once :
      (k : ℕ) (a : Option Error) (f : Result (Unit {0}) → M (Unit {0}))
      → answers k ≡ a
      → (attempt (answered answers k) >>= f) w ≡ f (answer a) w
  unfolding attempt ◌>>=◌
  once k none f e = rw e refl
  once k (some x) f e = rw e refl

  poll-Ends : (n k : ℕ) (a : Option Error) → answers k ≡ a → Ends k n (poll k n a)
  unfolding poll_from pure throw
  poll-Ends n k none e = inl (record {
    index = k;
    low = omega arith;
    high = omega arith;
    success = e;
    before = λ j a b. absurd (omega (arith, a, b));
    result = refl;
  })
  poll-Ends zero k (some x) e = inr (record {
    index = k;
    end = omega arith;
    last = x;
    failed = e;
    all = λ j a b. failed_at k j x e (omega (arith, a, b));
    result = refl;
  })
  poll-Ends (suc n) k (some x) e =
      subst (Ends k (suc n)) (sym (once (suc k) _ _ refl))
        (later k n x _ e (poll-Ends n (suc k) _ refl))

-- WaitForAPIServer, where the requests change nothing and the context is done after `rounds` waits,
-- returns: nil, after the first request that succeeds, if one of the first `rounds` and one more
-- does; the context's error with that of the last request if all of these fail.
pub wait_for_api_server-Ends :
    {Rest Client : Type 0} (api : Api Rest Client) (ctx : Context) (client : Client)
    (answers : ℕ → Option Error) (w : World)
    → api.readyz client ≡ answered answers
    → Ends answers ctx.cause w 0 ctx.rounds (wait_for_api_server api ctx client w)
unfolding wait_for_api_server
wait_for_api_server-Ends api ctx client answers w e =
    subst (Ends answers ctx.cause w 0 ctx.rounds) (sym (rw e (once answers ctx.cause w 0 _ _ refl)))
      (poll-Ends answers ctx.cause w ctx.rounds 0 _ refl)
