-- ===== src/World/Steps.antt =====
-- One step of a run whose database calls succeed, as equations.
use statusnook.Prelude.{Bool, Option, false, refl, some, ℕ, ◌≡◌}
use statusnook.World.{
  Answer, DbError, Env, H, Response, Result, Run, Served, World, attempt, bad, begin, commit,
  demand, done, err, exec, final, good, ok, pure, recall, refuse_if, remember, reply, response,
  stop, tick, ◌>>=◌,
}

-- No database call fails.
abbrev pub NoFaults : Env → Type 0
NoFaults env = (n : ℕ) → env.fails n ≡ false

module _ {S M A B : Type 0} where
  pub demand-bind_some :
      (o : Option A) (a : A) (r : Response) (f : A → H S M B) (w : World S M)
      → o ≡ some a
      → (demand o r >>= f) w ≡ f a w
  unfolding ◌>>=◌
  demand-bind_some o a r f w e = rw (e, ◌>>=◌) refl

  pub exec-bind_ok :
      (env : Env) (statement : S → Answer S A) (a : A) (s : S) (f : A → H S M B) (w : World S M)
      → env.fails w.calls ≡ false
      → statement w.working ≡ ok a s
      → (exec env statement >>= f) w ≡ f a (record (tick w) { working = s })
  unfolding ◌>>=◌
  exec-bind_ok env statement a s f w e h = rw (e, h, ◌>>=◌) refl

module _ {S M B : Type 0} where
  pub begin-bind_ok :
      (env : Env) (f : Unit {0} → H S M B) (w : World S M)
      → env.fails w.calls ≡ false
      → (begin env >>= f) w ≡ f tt (record (tick w) { working = w.committed })
  unfolding ◌>>=◌
  begin-bind_ok env f w e = rw (e, ◌>>=◌) refl

  pub commit-bind_ok :
      (env : Env) (f : Unit {0} → H S M B) (w : World S M)
      → env.fails w.calls ≡ false
      → (commit env >>= f) w ≡ f tt (record (tick w) { committed = w.working })
  unfolding ◌>>=◌
  commit-bind_ok env f w e = rw (e, ◌>>=◌) refl

pub pure-run : {S M A : Type 0} (a : A) (w : World S M) → pure a w ≡ done a w
unfolding pure
pure-run a w = refl

-- The rest of a run.
abbrev pub and_then : {S M A B : Type 0} → Run S M A → (A → H S M B) → Run S M B
and_then r f = elim r [ done a w ↦ f a w | stop x w ↦ stop x w ]

pub bind_assoc :
    {S M A B C : Type 0} (m : H S M A) (f : A → H S M B) (g : B → H S M C) (w : World S M)
    → ((m >>= f) >>= g) w ≡ (m >>= (λ a. f a >>= g)) w
unfolding ◌>>=◌
bind_assoc {S} {M} {A} {B} {C} m f g w = go (m w)
  where
    go : (r : Run S M A) → and_then (and_then r f) g ≡ and_then r (λ a. f a >>= g)
    go (done a w') = refl
    go (stop x w') = refl

module _ {S M B : Type 0} where
  pub pure-bind : {A : Type 0} (a : A) (f : A → H S M B) (w : World S M) → (pure a >>= f) w ≡ f a w
  unfolding ◌>>=◌
  pure-bind a f w = refl

  pub recall-bind : (f : M → H S M B) (w : World S M) → (recall >>= f) w ≡ f w.memory w
  unfolding ◌>>=◌
  recall-bind f w = refl

  pub remember-bind :
      (m : M) (f : Unit {0} → H S M B) (w : World S M)
      → (remember m >>= f) w ≡ f tt (record w { memory = m })
  unfolding ◌>>=◌
  remember-bind m f w = refl

  pub refuse_if-bind_false :
      (b : Bool) (r : Response) (f : Unit {0} → H S M B) (w : World S M)
      → b ≡ false
      → (refuse_if b r >>= f) w ≡ f tt w
  unfolding ◌>>=◌
  refuse_if-bind_false b r f w e = rw (e, ◌>>=◌) refl

  pub attempt-bind_ok :
      {A : Type 0} (env : Env) (statement : S → Answer S A) (a : A) (s : S) (f : Result A → H S M B)
      (w : World S M)
      → env.fails w.calls ≡ false
      → statement w.working ≡ ok a s
      → (attempt env statement >>= f) w ≡ f (good a) (record (tick w) { working = s })
  unfolding ◌>>=◌
  attempt-bind_ok env statement a s f w e h = rw (e, h, ◌>>=◌) refl

  pub attempt-bind_err :
      {A : Type 0} (env : Env) (statement : S → Answer S A) (x : DbError) (f : Result A → H S M B)
      (w : World S M)
      → env.fails w.calls ≡ false
      → statement w.working ≡ err x
      → (attempt env statement >>= f) w ≡ f (bad x) (tick w)
  unfolding ◌>>=◌
  attempt-bind_err env statement x f w e h = rw (e, h, ◌>>=◌) refl

  pub reply-bind :
      {A : Type 0} (r : Response) (f : A → H S M B) (w : World S M) → (reply r >>= f) w ≡ stop r w
  unfolding ◌>>=◌
  reply-bind r f w = refl

-- What a handler's run shows outside.
abbrev pub served : {S M : Type 0} → Run S M Response → Served S M
served r = record { sent = response r; tables = (final r).committed; kept = (final r).memory }
