-- ===== src/World/Attempts.antt =====
-- Rules for the statements whose error a handler looks at, and for the process memory.
use statusnook.Prelude.{Bool-cases, arith, false, if◌then◌else◌, inl, inr, true, ◌≡◌, ◌⊎◌}
use statusnook.World.{
  Answer, Env, H, Response, Result, Run, World, attempt, bad, begin, commit, done, err, fault, good,
  ok, recall, remember, reply, serve, stop, tick, ◌>>=◌,
}
use statusnook.World.Rules.{Keeps, Keeps-begin}
use statusnook.World.Hoare.{Ends, IsRefusal, Outcome, Serves, Serves-serve, Triple, Triple-begin}

-- What a statement that the handler goes on after has to establish; a failure changes nothing.
abbrev pub Answers : {S A : Type 0} → (Result A → S → Type 0) → S → Answer S A → Type 0
Answers Q s (ok a s') = Q (good a) s'
Answers Q s (err e) = Q (bad e) s

module _ {S M : Type 0} {s₀ : S} where
  pub Triple-recall : {P : S → Type 0} → Triple s₀ P (recall {M = M}) (λ _. P)
  unfolding recall
  Triple-recall = record { at = λ w c p. (c, p) }

  pub Triple-remember : {P : S → Type 0} (m : M) → Triple s₀ P (remember m) (λ _. P)
  unfolding remember
  Triple-remember m = record { at = λ w c p. (c, p) }

  pub Triple-reply :
      {A : Type 0} {P : S → Type 0} {Q : A → S → Type 0} (r : Response)
      → IsRefusal r
      → Triple s₀ P (reply {M = M} r) Q
  unfolding reply
  Triple-reply r h = record { at = λ w c p. (c, h) }

  pub Triple-attempt :
      {A : Type 0} {P : S → Type 0} {Q : Result A → S → Type 0} (env : Env)
      (statement : S → Answer S A)
      → ((s : S) → P s → Answers Q s (statement s) × Q (bad fault) s)
      → Triple s₀ P (attempt {M = M} env statement) Q
  unfolding attempt
  Triple-attempt {A} {Q} env statement h = record {
    at = λ w c p.
        go w c (Bool-cases (env.fails w.calls)) (statement w.working) (h w.working p).0
          (h w.working p).1;
  }
    where
      after : World S M → Answer S A → Run S M (Result A)
      after w r = elim r [
        | ok a s ↦ done (good a) (record (tick w) { working = s })
        | err e ↦ done (bad e) (tick w)
      ]

      go :
          (w : World S M)
          → w.committed ≡ s₀
          → (env.fails w.calls ≡ true) ⊎ (env.fails w.calls ≡ false)
          → (r : Answer S A) → Answers Q w.working r
          → Q (bad fault) w.working
          → Ends s₀
              (λ a w'. (w'.committed ≡ s₀) × Q a w'.working)
              (if env.fails w.calls then done (bad fault) (tick w) else after w r)
      go w c (inl e) r q f = rw e (c, f)
      go w c (inr e) (ok a s) q f = rw e (c, q)
      go w c (inr e) (err x) q f = rw e (c, q)

  -- The commit of a transaction that only read.
  pub Triple-commit_same :
      {P : S → Type 0} (env : Env)
      → ((s : S) → P s → s ≡ s₀)
      → Triple s₀ P (commit {M = M} env) (λ _. P)
  unfolding ◌>>=◌
  Triple-commit_same {P} env h = record {
    at = λ w c p. elim (Bool-cases (env.fails w.calls)) [
      | inl e ↦ rw (e, Ends) (c, omega arith)
      | inr e ↦ rw (e, Ends) (h w.working p, p)
    ];
  }

  -- A fact that does not depend on the tables outlives the start of a transaction.
  pub Keeps-begin_fact : {F : Type 0} (env : Env) → Keeps {M = M} s₀ (λ _. F) (begin env)
  Keeps-begin_fact {F} env = record { at = λ w c f. (Keeps-begin (λ _. F) env f).at w c f }

  -- The start of a transaction, with such a fact: it sees the committed tables.
  pub Triple-begin_fact :
      {F : Type 0} (env : Env) → Triple {M = M} s₀ (λ _. F) (begin env) (λ _ s. (s ≡ s₀) × F)
  Triple-begin_fact {F} env = record {
    at = λ w c f. go f (begin env w) ((Triple-begin env {P = λ _. F}).at w c f);
  }
    where
      go :
          F
          → (r : Run S M (Unit {0})) → Ends s₀ (λ a w'. (w'.committed ≡ s₀) × (w'.working ≡ s₀)) r
          → Ends s₀ (λ a w'. (w'.committed ≡ s₀) × ((w'.working ≡ s₀) × F)) r
      go f (done a w) (c, e) = (c, (e, f))
      go f (stop r w) e = e

  -- A fact that does not depend on the tables, beside a rule.
  pub Triple-fact :
      {F A : Type 0} {P : S → Type 0} {Q : A → S → Type 0} {m : H S M A}
      → Triple s₀ P m Q
      → Triple s₀ (λ s. F × P s) m (λ a s. F × Q a s)
  Triple-fact {F} {A} {Q} {m} h = record { at = λ w c p. go p.0 (m w) (h.at w c p.1) }
    where
      go :
          F
          → (r : Run S M A) → Ends s₀ (λ a w'. (w'.committed ≡ s₀) × Q a w'.working) r
          → Ends s₀ (λ a w'. (w'.committed ≡ s₀) × (F × Q a w'.working)) r
      go f (done a w) (c, q) = (c, (f, q))
      go f (stop r w) e = e

-- A handler that starts by reading the memory.
pub Outcome-recall :
    {S M : Type 0} (Good : Response → S → Type 0) (f : M → H S M Response) (s : S) (m : M)
    → Serves s (λ s'. s' ≡ s) (f m) Good
    → Outcome Good s (serve (recall >>= f) s m)
unfolding ◌>>=◌
Outcome-recall Good f s m h = Serves-serve Good (f m) s m h

-- A fact that the open transaction's tables give.
pub Serves-given :
    {S M F : Type 0} {s₀ : S} {P : S → Type 0} {h : H S M Response} {Good : Response → S → Type 0}
    → ((s : S) → P s → F)
    → (F → Serves s₀ P h Good)
    → Serves s₀ P h Good
Serves-given f k = record { at = λ w c p. (k (f w.working p)).at w c p }

pub Triple-given :
    {S M F A : Type 0} {s₀ : S} {P : S → Type 0} {m : H S M A} {Q : A → S → Type 0}
    → ((s : S) → P s → F)
    → (F → Triple s₀ P m Q)
    → Triple s₀ P m Q
Triple-given f k = record { at = λ w c p. (k (f w.working p)).at w c p }
