-- ===== src/World/Hoare.antt =====
-- Rules for handlers: what holds of the committed tables when a handler has replied.
use statusnook.Prelude.{
  Bool, Bool-cases, Option, arith, false, if◌then◌else◌, inl, inr, none, refl, some, true, ◌≡◌, ◌≤◌,
  ◌⊎◌,
}
use statusnook.World.{
  Answer, Env, H, Response, Run, Served, World, begin, commit, demand, done, err, exec, final,
  internal_error, ok, pure, refuse_if, response, serve, start, stop, tick, ◌>>=◌, ◌>>◌,
}

-- The reply of a branch that gave up.
abbrev pub IsRefusal : Response → Type 0
IsRefusal r = 400 ≤ r.status

module _ {S M : Type 0} (s₀ : S) where
  -- An action's end: by giving up nothing is committed.
  abbrev pub Ends : {A : Type 0} → (A → World S M → Type 0) → Run S M A → Type 0
  Ends Q (done a w) = Q a w
  Ends Q (stop r w) = (w.committed ≡ s₀) × IsRefusal r

  -- From an open transaction that satisfies `P` to one that satisfies `Q`.
  pub record Triple {A : Type 0} (P : S → Type 0) (m : H S M A) (Q : A → S → Type 0) : Type 0 where
    pub at :
        (w : World S M)
        → w.committed ≡ s₀
        → P w.working
        → Ends (λ a w'. (w'.committed ≡ s₀) × Q a w'.working) (m w)

  -- From an open transaction that satisfies `P` to a reply and committed tables that satisfy `Good`.
  pub record Serves (P : S → Type 0) (m : H S M Response) (Good : Response → S → Type 0)
      : Type 0 where
    pub at :
        (w : World S M) → w.committed ≡ s₀ → P w.working → Ends (λ r w'. Good r w'.committed) (m w)

-- What a statement that succeeds has to establish.
abbrev pub Gives : {S A : Type 0} → (A → S → Type 0) → Answer S A → Type 0
Gives Q (ok a s) = Q a s
Gives Q (err e) = Unit

abbrev pub Anything : {S : Type 0} → S → Type 0
Anything s = Unit

module _ {S M : Type 0} {s₀ : S} where
  pub Triple-bind :
      {A B : Type 0} {P : S → Type 0} {Q : A → S → Type 0} {R : B → S → Type 0} (m : H S M A)
      (f : A → H S M B)
      → Triple s₀ P m Q
      → ((a : A) → Triple s₀ (Q a) (f a) R)
      → Triple s₀ P (m >>= f) R
  unfolding ◌>>=◌
  Triple-bind {Q} {R} m f h k = record { at = λ w c p. go (m w) (h.at w c p) }
    where
      go :
          (r : Run S M _)
          → Ends s₀ (λ a w'. (w'.committed ≡ s₀) × Q a w'.working) r
          → Ends s₀
              (λ b w'. (w'.committed ≡ s₀) × R b w'.working)
              (elim r [ done a w' ↦ f a w' | stop r w' ↦ stop r w' ])
      go (done a w') (c, q) = (k a).at w' c q
      go (stop r w') e = e

  pub Serves-bind :
      {A : Type 0} {P : S → Type 0} {Q : A → S → Type 0} {Good : Response → S → Type 0}
      (m : H S M A) (f : A → H S M Response)
      → Triple s₀ P m Q
      → ((a : A) → Serves s₀ (Q a) (f a) Good)
      → Serves s₀ P (m >>= f) Good
  unfolding ◌>>=◌
  Serves-bind {Q} {Good} m f h k = record { at = λ w c p. go (m w) (h.at w c p) }
    where
      go :
          (r : Run S M _)
          → Ends s₀ (λ a w'. (w'.committed ≡ s₀) × Q a w'.working) r
          → Ends s₀
              (λ b w'. Good b w'.committed)
              (elim r [ done a w' ↦ f a w' | stop r w' ↦ stop r w' ])
      go (done a w') (c, q) = (k a).at w' c q
      go (stop r w') e = e

  pub Serves-weaken :
      {P P' : S → Type 0} {h : H S M Response} {Good : Response → S → Type 0}
      → Serves s₀ P' h Good
      → ((s : S) → P s → P' s)
      → Serves s₀ P h Good
  Serves-weaken h k = record { at = λ w c p. h.at w c (k w.working p) }

  pub Triple-weaken :
      {A : Type 0} {P P' : S → Type 0} {Q : A → S → Type 0} {m : H S M A}
      → Triple s₀ P' m Q
      → ((s : S) → P s → P' s)
      → Triple s₀ P m Q
  Triple-weaken h k = record { at = λ w c p. h.at w c (k w.working p) }

  pub Triple-pure :
      {A : Type 0} {P : S → Type 0} {Q : A → S → Type 0} (a : A)
      → ((s : S) → P s → Q a s)
      → Triple {M = M} s₀ P (pure a) Q
  unfolding pure
  Triple-pure a h = record { at = λ w c p. (c, h w.working p) }

  pub Triple-refuse_if :
      {P : S → Type 0} {Q : Unit {0} → S → Type 0} (b : Bool) (r : Response)
      → IsRefusal r
      → (b ≡ false → (s : S) → P s → Q tt s)
      → Triple {M = M} s₀ P (refuse_if b r) Q
  unfolding refuse_if
  Triple-refuse_if true r e h = record { at = λ w c p. (c, e) }
  Triple-refuse_if false r e h = record { at = λ w c p. (c, h refl w.working p) }

  pub Triple-demand :
      {A : Type 0} {P : S → Type 0} {Q : A → S → Type 0} (o : Option A) (r : Response)
      → IsRefusal r
      → ((a : A) → o ≡ some a → (s : S) → P s → Q a s)
      → Triple {M = M} s₀ P (demand o r) Q
  unfolding demand
  Triple-demand none r e h = record { at = λ w c p. (c, e) }
  Triple-demand (some a) r e h = record { at = λ w c p. (c, h a refl w.working p) }

  module _ (env : Env) where
    -- A new transaction sees the committed tables.
    pub Triple-begin : {P : S → Type 0} → Triple s₀ P (begin {M = M} env) (λ _ s. s ≡ s₀)
    unfolding begin
    Triple-begin {P} = record { at = λ w c p. go w c (Bool-cases (env.fails w.calls)) }
      where
        go :
            (w : World S M)
            → w.committed ≡ s₀
            → (env.fails w.calls ≡ true) ⊎ (env.fails w.calls ≡ false)
            → Ends s₀ (λ a w'. (w'.committed ≡ s₀) × (w'.working ≡ s₀)) (begin env w)
        go w c (inl e) = rw (e) (c, omega arith)
        go w c (inr e) = rw (e) (c, c)

    pub Triple-exec :
        {A : Type 0} {P : S → Type 0} {Q : A → S → Type 0} (statement : S → Answer S A)
        → ((s : S) → P s → Gives Q (statement s))
        → Triple s₀ P (exec {M = M} env statement) Q
    unfolding exec
    Triple-exec {A} {P} {Q} statement h = record {
      at = λ w c p. go w c (Bool-cases (env.fails w.calls)) (statement w.working) (h w.working p);
    }
      where
        after : World S M → Answer S A → Run S M A
        after w r = elim r [
          | ok a s ↦ done a (record (tick w) { working = s })
          | err e ↦ stop internal_error (tick w)
        ]

        go :
            (w : World S M)
            → w.committed ≡ s₀
            → (env.fails w.calls ≡ true) ⊎ (env.fails w.calls ≡ false)
            → (r : Answer S A) → Gives Q r
            → Ends s₀
                (λ a w'. (w'.committed ≡ s₀) × Q a w'.working)
                (if env.fails w.calls then stop internal_error (tick w) else after w r)
        go w c (inl e) r q = rw e (c, omega arith)
        go w c (inr e) (ok a s) q = rw e (c, q)
        go w c (inr e) (err x) q = rw e (c, omega arith)

    -- tx.Commit() and the reply.
    pub Serves-commit :
        {P : S → Type 0} {Good : Response → S → Type 0} (r : Response)
        → ((s : S) → P s → Good r s)
        → Serves s₀ P (commit {M = M} env >> pure r) Good
    unfolding ◌>>=◌
    Serves-commit {P} {Good} r h = record {
      at = λ w c p. elim (Bool-cases (env.fails w.calls)) [
        | inl e ↦ rw (e, Ends) (c, omega arith)
        | inr e ↦ rw (e, Ends) (h w.working p)
      ];
    }

-- A handler either refuses and leaves the tables as they were, or commits tables that are good.
abbrev pub Outcome : {S M : Type 0} → (Response → S → Type 0) → S → Served S M → Type 0
Outcome Good s r = ((r.tables ≡ s) × IsRefusal r.sent) ⊎ Good r.sent r.tables

pub Serves-serve :
    {S M : Type 0} (Good : Response → S → Type 0) (h : H S M Response) (s : S) (m : M)
    → Serves s (λ s'. s' ≡ s) h Good
    → Outcome Good s (serve h s m)
Serves-serve {S} {M} Good h s m k = go (h (start s m)) (k.at (start s m) refl refl)
  where
    go :
        (r : Run S M Response)
        → Ends s (λ r' w'. Good r' w'.committed) r
        → (((final r).committed ≡ s) × IsRefusal (response r))
          ⊎ Good (response r) (final r).committed
    go (done r w) g = inr g
    go (stop r w) e = inl e
