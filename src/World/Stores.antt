-- ===== src/World/Stores.antt =====
-- Rules for handlers that change the process memory after their commit: either nothing changes, in
-- the tables and in the memory, or both are good.
use mathlib.Core.Path.{subst}
use statusnook.Prelude.{
  Bool, Bool-cases, Option, arith, false, if◌then◌else◌, inl, inr, none, refl, some, sym, true, ◌∙◌,
  ◌≡◌, ◌⊎◌,
}
use statusnook.World.{
  Answer, Env, H, Response, Result, Run, World, attempt, bad, begin, commit, demand, done, err,
  exec, fault, final, good, internal_error, ok, pure, recall, refuse_if, response, serve, start,
  stop, tick, ◌>>=◌, ◌>>◌,
}
use statusnook.World.Hoare.{Ends, Gives, IsRefusal, Triple, Triple-begin, Triple-exec}
use statusnook.World.Reads.{left}
use statusnook.World.Steps.{and_then}

-- An action that leaves the memory alone.
pub record Forgetful {S M A : Type 0} (m : H S M A) : Type 0 where
  pub at : (w : World S M) → (left (m w)).memory ≡ w.memory

module _ {S M : Type 0} (s₀ : S) (m₀ : M) where
  abbrev pub Settles : (Response → S → M → Type 0) → Run S M Response → Type 0
  Settles Good (done r w) = Good r w.committed w.memory
  Settles Good (stop r w) = (w.committed ≡ s₀) × (w.memory ≡ m₀) × IsRefusal r

  pub record Stores (P : S → Type 0) (h : H S M Response) (Good : Response → S → M → Type 0)
      : Type 0 where
    pub at : (w : World S M) → w.committed ≡ s₀ → w.memory ≡ m₀ → P w.working → Settles Good (h w)

module _ {S M : Type 0} where
  pub Forgetful-begin : (env : Env) → Forgetful (begin {S = S} {M = M} env)
  unfolding begin
  Forgetful-begin env = record {
    at = λ w. elim (Bool-cases (env.fails w.calls)) [
      | inl e ↦ rw (e, left) refl
      | inr e ↦ rw (e, left) refl
    ];
  }

  pub Forgetful-refuse_if : (b : Bool) (r : Response) → Forgetful (refuse_if {S = S} {M = M} b r)
  unfolding refuse_if
  Forgetful-refuse_if true r = record { at = λ w. refl }
  Forgetful-refuse_if false r = record { at = λ w. refl }

  pub Forgetful-demand :
      {A : Type 0} (o : Option A) (r : Response) → Forgetful (demand {S = S} {M = M} o r)
  unfolding demand
  Forgetful-demand none r = record { at = λ w. refl }
  Forgetful-demand (some a) r = record { at = λ w. refl }

  pub Forgetful-exec :
      {A : Type 0} (env : Env) (statement : S → Answer S A) → Forgetful (exec {M = M} env statement)
  unfolding exec
  Forgetful-exec {A} env statement = record {
    at = λ w. go w (Bool-cases (env.fails w.calls)) (statement w.working);
  }
    where
      after : World S M → Answer S A → Run S M A
      after w r = elim r [
        | ok a s ↦ done a (record (tick w) { working = s })
        | err e ↦ stop internal_error (tick w)
      ]

      go :
          (w : World S M)
          → (env.fails w.calls ≡ true) ⊎ (env.fails w.calls ≡ false)
          → (r : Answer S A)
          → (left (if env.fails w.calls then stop internal_error (tick w) else after w r)).memory
            ≡ w.memory
      go w (inl e) r = rw (e, left) refl
      go w (inr e) (ok a s) = rw (e, left) refl
      go w (inr e) (err x) = rw (e, left) refl

  pub Forgetful-attempt :
      {A : Type 0} (env : Env) (statement : S → Answer S A)
      → Forgetful (attempt {M = M} env statement)
  unfolding attempt
  Forgetful-attempt {A} env statement = record {
    at = λ w. go w (Bool-cases (env.fails w.calls)) (statement w.working);
  }
    where
      after : World S M → Answer S A → Run S M (Result A)
      after w r = elim r [
        | ok a s ↦ done (good a) (record (tick w) { working = s })
        | err e ↦ done (bad e) (tick w)
      ]

      go :
          (w : World S M)
          → (env.fails w.calls ≡ true) ⊎ (env.fails w.calls ≡ false)
          → (r : Answer S A)
          → (left (if env.fails w.calls then done (bad fault) (tick w) else after w r)).memory
            ≡ w.memory
      go w (inl e) r = rw (e, left) refl
      go w (inr e) (ok a s) = rw (e, left) refl
      go w (inr e) (err x) = rw (e, left) refl

module _ {S M : Type 0} {s₀ : S} {m₀ : M} where
  pub Stores-bind :
      {A : Type 0} {P : S → Type 0} {Q : A → S → Type 0} {Good : Response → S → M → Type 0}
      (m : H S M A) (f : A → H S M Response)
      → Forgetful m
      → Triple s₀ P m Q
      → ((a : A) → Stores s₀ m₀ (Q a) (f a) Good)
      → Stores s₀ m₀ P (m >>= f) Good
  unfolding ◌>>=◌
  Stores-bind {A} {Q} {Good} m f still h k = record {
    at = λ w c e p. go (m w) (still.at w ∙ e) (h.at w c p);
  }
    where
      go :
          (r : Run S M A)
          → (left r).memory ≡ m₀
          → Ends s₀ (λ a w'. (w'.committed ≡ s₀) × Q a w'.working) r
          → Settles s₀ m₀ Good (and_then r f)
      go (done a w') e (c, q) = (k a).at w' c e q
      go (stop r w') e (c, x) = (c, e, x)

  -- The commit, and the stores into the memory after it.
  pub Stores-commit :
      {P : S → Type 0} {Good : Response → S → M → Type 0} (env : Env) (k : H S M Response)
      (change : M → M) (r : Response)
      → ((w : World S M) → k w ≡ done r (record w { memory = change w.memory }))
      → ((s : S) → P s → Good r s (change m₀))
      → Stores s₀ m₀ P (commit env >> k) Good
  unfolding ◌>>=◌
  Stores-commit {P} {Good} env k change r runs h = record {
    at = λ w c e p. go w c e p (Bool-cases (env.fails w.calls));
  }
    where
      go :
          (w : World S M)
          → w.committed ≡ s₀
          → w.memory ≡ m₀
          → P w.working
          → (env.fails w.calls ≡ true) ⊎ (env.fails w.calls ≡ false)
          → Settles s₀ m₀ Good ((commit env >> k) w)
      go w c e p (inl x) = rw (x, Settles) (c, e, omega arith)
      go w c e p (inr x) =
          rw (x, runs (record (tick w) { committed = w.working }), Settles) (rw (e) (h w.working p))

  pub Stores-serve :
      {Good : Response → S → M → Type 0} (h : H S M Response)
      → Stores s₀ m₀ (λ s. s ≡ s₀) h Good
      → ((r : Response) → IsRefusal r → Good r s₀ m₀)
      → Good (serve h s₀ m₀).sent (serve h s₀ m₀).tables (serve h s₀ m₀).kept
  Stores-serve {Good} h k same = go (h (start s₀ m₀)) (k.at (start s₀ m₀) refl refl refl)
    where
      go :
          (r : Run S M Response)
          → Settles s₀ m₀ Good r
          → Good (response r) (final r).committed (final r).memory
      go (done r w) g = g
      go (stop r w) (c, e, x) = rw (c, e) (same r x)

  pub Stores-refuse_if :
      {P : S → Type 0} {Good : Response → S → M → Type 0} (b : Bool) (r : Response)
      (k : H S M Response)
      → IsRefusal r
      → (b ≡ false → Stores s₀ m₀ P k Good)
      → Stores s₀ m₀ P (refuse_if b r >> k) Good
  unfolding ◌>>=◌
  Stores-refuse_if true r k e h = record { at = λ w c m p. (c, m, e) }
  Stores-refuse_if false r k e h = record { at = λ w c m p. (h refl).at w c m p }

  pub Stores-demand :
      {A : Type 0} {P : S → Type 0} {Good : Response → S → M → Type 0} (o : Option A) (r : Response)
      (f : A → H S M Response)
      → IsRefusal r
      → ((a : A) → o ≡ some a → Stores s₀ m₀ P (f a) Good)
      → Stores s₀ m₀ P (demand o r >>= f) Good
  unfolding ◌>>=◌
  Stores-demand none r f e h = record { at = λ w c m p. (c, m, e) }
  Stores-demand (some a) r f e h = record { at = λ w c m p. (h a refl).at w c m p }

  pub Stores-begin :
      {P : S → Type 0} {Good : Response → S → M → Type 0} (env : Env) (k : H S M Response)
      → Stores s₀ m₀ (λ s. s ≡ s₀) k Good
      → Stores s₀ m₀ P (begin env >> k) Good
  Stores-begin env k h = Stores-bind _ _ (Forgetful-begin env) (Triple-begin env) λ _. h

  pub Stores-exec :
      {A : Type 0} {P : S → Type 0} {Good : Response → S → M → Type 0} (Q : A → S → Type 0)
      (env : Env) (statement : S → Answer S A) (f : A → H S M Response)
      → ((s : S) → P s → Gives Q (statement s))
      → ((a : A) → Stores s₀ m₀ (Q a) (f a) Good)
      → Stores s₀ m₀ P (exec env statement >>= f) Good
  Stores-exec Q env statement f h k =
      Stores-bind _ _ (Forgetful-exec env statement) (Triple-exec env statement h) k

  pub Stores-recall :
      {P : S → Type 0} {Good : Response → S → M → Type 0} (f : M → H S M Response)
      → Stores s₀ m₀ P (f m₀) Good
      → Stores s₀ m₀ P (recall >>= f) Good
  unfolding ◌>>=◌
  Stores-recall {P} {Good} f h = record {
    at = λ w c m p. subst (λ x. Settles s₀ m₀ Good (f x w)) (sym m) (h.at w c m p);
  }

  pub Stores-pure :
      {P : S → Type 0} {Good : Response → S → M → Type 0} (r : Response)
      → Good r s₀ m₀
      → Stores s₀ m₀ P (pure r) Good
  unfolding pure
  Stores-pure {P} {Good} r g = record {
    at = λ w c m p. subst (λ s. Good r s w.memory) (sym c) (subst (λ x. Good r s₀ x) (sym m) g);
  }

  -- The commit of a transaction that only read.
  pub Stores-commit_same :
      {P : S → Type 0} {Good : Response → S → M → Type 0} (env : Env) (k : H S M Response)
      → ((s : S) → P s → s ≡ s₀)
      → Stores s₀ m₀ P k Good
      → Stores s₀ m₀ P (commit env >> k) Good
  unfolding ◌>>=◌
  Stores-commit_same {P} {Good} env k same h = record {
    at = λ w c m p. go w c m p (Bool-cases (env.fails w.calls));
  }
    where
      go :
          (w : World S M)
          → w.committed ≡ s₀
          → w.memory ≡ m₀
          → P w.working
          → (env.fails w.calls ≡ true) ⊎ (env.fails w.calls ≡ false)
          → Settles s₀ m₀ Good ((commit env >> k) w)
      go w c e p (inl x) = rw (x, Settles) (c, e, omega arith)
      go w c e p (inr x) =
          rw (x, Settles) (h.at (record (tick w) { committed = w.working }) (same w.working p) e p)

  -- A fact that the open transaction's tables give.
  pub Stores-given :
      {F : Type 0} {P : S → Type 0} {h : H S M Response} {Good : Response → S → M → Type 0}
      → ((s : S) → P s → F)
      → (F → Stores s₀ m₀ P h Good)
      → Stores s₀ m₀ P h Good
  Stores-given f k = record { at = λ w c m p. (k (f w.working p)).at w c m p }

  pub Stores-weaken :
      {P P' : S → Type 0} {h : H S M Response} {Good : Response → S → M → Type 0}
      → ((s : S) → P s → P' s)
      → Stores s₀ m₀ P' h Good
      → Stores s₀ m₀ P h Good
  Stores-weaken f k = record { at = λ w c m p. k.at w c m (f w.working p) }
