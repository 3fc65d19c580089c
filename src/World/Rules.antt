-- ===== src/World/Rules.antt =====
-- Rules for the steps that keep an invariant of the tables, or of which nothing is needed afterwards.
use statusnook.Prelude.{Bool, Option, refl, ◌≡◌}
use statusnook.World.{
  Answer, Env, H, Response, Run, begin, commit, demand, done, err, exec, final, ok, pure, refuse_if,
  serve, start, stop, ◌>>=◌, ◌>>◌,
}
use statusnook.World.Hoare.{
  Anything, Ends, Gives, IsRefusal, Serves, Serves-bind, Serves-commit, Triple, Triple-begin,
  Triple-bind, Triple-demand, Triple-exec, Triple-pure, Triple-refuse_if, Triple-weaken,
}

-- An action of the open transaction that keeps an invariant of the tables.
abbrev pub Keeps : {S M A : Type 0} → S → (S → Type 0) → H S M A → Type 0
Keeps s₀ I m = Triple s₀ I m (λ _. I)

-- An action that only works inside the open transaction.
abbrev pub Quiet : {S M A : Type 0} → S → H S M A → Type 0
Quiet s₀ m = Triple s₀ Anything m (λ _. Anything)

module _ {S M : Type 0} {s₀ : S} where
  pub Quiet-bind :
      {A B : Type 0} (m : H S M A) (f : A → H S M B)
      → Quiet s₀ m
      → ((a : A) → Quiet s₀ (f a))
      → Quiet s₀ (m >>= f)
  Quiet-bind m f h k = Triple-bind m f h k

  pub Quiet-pure : {A : Type 0} (a : A) → Quiet {M = M} s₀ (pure a)
  Quiet-pure a = Triple-pure a (λ s p. tt)

  pub Quiet-exec :
      {A : Type 0} (env : Env) (statement : S → Answer S A) → Quiet {M = M} s₀ (exec env statement)
  Quiet-exec {A} env statement = Triple-exec env statement (λ s p. go (statement s))
    where
      go : (r : Answer S A) → Gives (λ _. Anything) r
      go (ok a s) = tt
      go (err e) = tt

  pub Quiet-begin : (env : Env) → Quiet {M = M} s₀ (begin env)
  Quiet-begin env = record {
    at = λ w c p. go (begin env w) ((Triple-begin env {P = Anything}).at w c p);
  }
    where
      go :
          (r : Run S M (Unit {0}))
          → Ends s₀ (λ a w'. (w'.committed ≡ s₀) × (w'.working ≡ s₀)) r
          → Ends s₀ (λ a w'. (w'.committed ≡ s₀) × Unit {0}) r
      go (done a w) (c, e) = (c, tt)
      go (stop r w) e = e

  pub Quiet-refuse_if : (b : Bool) (r : Response) → IsRefusal r → Quiet {M = M} s₀ (refuse_if b r)
  Quiet-refuse_if b r h = Triple-refuse_if b r h (λ e s p. tt)

  pub Quiet-demand :
      {A : Type 0} (o : Option A) (r : Response) → IsRefusal r → Quiet {M = M} s₀ (demand o r)
  Quiet-demand o r h = Triple-demand o r h (λ a e s p. tt)

  -- A prefix of which nothing is needed afterwards.
  pub Serves-Quiet :
      {A : Type 0} {P : S → Type 0} {Good : Response → S → Type 0} (m : H S M A)
      (f : A → H S M Response)
      → Quiet s₀ m
      → ((a : A) → Serves s₀ Anything (f a) Good)
      → Serves s₀ P (m >>= f) Good
  Serves-Quiet m f h k = Serves-bind m f (Triple-weaken h (λ s p. tt)) k

module _ {S M : Type 0} {s₀ : S} (I : S → Type 0) where
  pub Keeps-bind :
      {A B : Type 0} (m : H S M A) (f : A → H S M B)
      → Keeps s₀ I m
      → ((a : A) → Keeps s₀ I (f a))
      → Keeps s₀ I (m >>= f)
  Keeps-bind m f h k = Triple-bind m f h k

  pub Keeps-pure : {A : Type 0} (a : A) → Keeps {M = M} s₀ I (pure a)
  Keeps-pure a = Triple-pure a (λ s p. p)

  pub Keeps-refuse_if : (b : Bool) (r : Response) → IsRefusal r → Keeps {M = M} s₀ I (refuse_if b r)
  Keeps-refuse_if b r h = Triple-refuse_if b r h (λ e s p. p)

  pub Keeps-demand :
      {A : Type 0} (o : Option A) (r : Response) → IsRefusal r → Keeps {M = M} s₀ I (demand o r)
  Keeps-demand o r h = Triple-demand o r h (λ a e s p. p)

  pub Keeps-begin : (env : Env) → I s₀ → Keeps {M = M} s₀ I (begin env)
  Keeps-begin env i = record {
    at = λ w c p. go (begin env w) ((Triple-begin env {P = I}).at w c p);
  }
    where
      go :
          (r : Run S M (Unit {0}))
          → Ends s₀ (λ a w'. (w'.committed ≡ s₀) × (w'.working ≡ s₀)) r
          → Ends s₀ (λ a w'. (w'.committed ≡ s₀) × I w'.working) r
      go (done a w) (c, e) = (c, rw e i)
      go (stop r w) e = e

  pub Serves-keep :
      {A : Type 0} {Good : Response → S → Type 0} (m : H S M A) (f : A → H S M Response)
      → Keeps s₀ I m
      → ((a : A) → Serves s₀ I (f a) Good)
      → Serves s₀ I (m >>= f) Good
  Serves-keep m f h k = Serves-bind m f h k

  pub Serves-kept : (env : Env) (r : Response) → Serves {M = M} s₀ I (commit env >> pure r) (λ _. I)
  Serves-kept env r = Serves-commit env r (λ s i. i)

  -- A handler that keeps the invariant: it holds of the committed tables, whatever the reply.
  pub Serves-invariant :
      (h : H S M Response) (m : M) → I s₀ → Serves s₀ I h (λ _. I) → I (serve h s₀ m).tables
  Serves-invariant h m i k = go (h (start s₀ m)) (k.at (start s₀ m) refl i)
    where
      go : (r : Run S M Response) → Ends s₀ (λ _ w'. I w'.committed) r → I (final r).committed
      go (done r w) g = g
      go (stop r w) (e, _) = rw e i
