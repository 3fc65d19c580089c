-- ===== src/World/Reads.antt =====
-- Actions that write nothing: the read transactions of the loops that go on afterwards.
use statusnook.Prelude.{Bool-cases, false, if◌then◌else◌, inl, inr, refl, true, ◌∙◌, ◌≡◌, ◌⊎◌}
use statusnook.World.{
  Answer, Env, H, Run, World, begin, commit, done, err, exec, internal_error, ok, stop, tick,
}
use statusnook.World.Hoare.{Gives}

-- The state an action leaves, however it ends.
abbrev pub left : {S M A : Type 0} → Run S M A → World S M
left (done a w) = w
left (stop r w) = w

-- An action that writes nothing.
abbrev pub Same : {S M : Type 0} → World S M → World S M → Type 0
Same w w' = (w'.committed ≡ w.committed) × (w'.working ≡ w.committed) × (w'.memory ≡ w.memory)

pub record Reading {S M A : Type 0} (m : H S M A) : Type 0 where
  pub at : (w : World S M) → w.working ≡ w.committed → Same w (left (m w))

pub Reading-begin : {S M : Type 0} (env : Env) → Reading (begin {S = S} {M = M} env)
unfolding begin
Reading-begin {S} {M} env = record { at = λ w e. go w e (Bool-cases (env.fails w.calls)) }
  where
    go :
        (w : World S M)
        → w.working ≡ w.committed
        → (env.fails w.calls ≡ true) ⊎ (env.fails w.calls ≡ false)
        → Same w (left (begin env w))
    go w e (inl a) = rw (a, left) (refl, e, refl)
    go w e (inr a) = rw (a, left) (refl, refl, refl)

pub Reading-commit : {S M : Type 0} (env : Env) → Reading (commit {S = S} {M = M} env)
unfolding commit
Reading-commit {S} {M} env = record { at = λ w e. go w e (Bool-cases (env.fails w.calls)) }
  where
    go :
        (w : World S M)
        → w.working ≡ w.committed
        → (env.fails w.calls ≡ true) ⊎ (env.fails w.calls ≡ false)
        → Same w (left (commit env w))
    go w e (inl a) = rw (a, left) (refl, e, refl)
    go w e (inr a) = rw (a, left) (e, e, refl)

pub Reading-exec :
    {S M A : Type 0} (env : Env) (statement : S → Answer S A)
    → ((s : S) → Gives (λ _ s'. s' ≡ s) (statement s))
    → Reading (exec {M = M} env statement)
unfolding exec
Reading-exec {S} {M} {A} env statement h = record {
  at = λ w e. go w e (Bool-cases (env.fails w.calls)) (statement w.working) (h w.working);
}
  where
    after : World S M → Answer S A → Run S M A
    after w r = elim r [
      | ok a s ↦ done a (record (tick w) { working = s })
      | err e ↦ stop internal_error (tick w)
    ]

    go :
        (w : World S M)
        → w.working ≡ w.committed
        → (env.fails w.calls ≡ true) ⊎ (env.fails w.calls ≡ false)
        → (r : Answer S A) → Gives (λ _ s'. s' ≡ w.working) r
        → Same w (left (if env.fails w.calls then stop internal_error (tick w) else after w r))
    go w e (inl a) r g = rw (a, left) (refl, e, refl)
    go w e (inr a) (ok x s) g = rw (a, left) (refl, g ∙ e, refl)
    go w e (inr a) (err x) g = rw (a, left) (refl, e, refl)
