-- ===== src/Notifications/Passes.antt =====
-- What the stamps of a pass leave of the tables.
use mathlib.Core.Path.{subst}
use statusnook.Prelude.{
  All, Bool, List, [], all, ap, arith, false, keep, keep-rewrite, map, nat_eq, none, not, refl,
  rewrite, some, string_eq, sym, true, ℕ, ◌==◌, ◌∙◌, ◌∷◌, ◌≡◌,
}
use statusnook.Notifications.Tables.{NotificationTables, mark_sent}
use statusnook.Notifications.Drain.{Delivery, delivered_id}
use statusnook.Notifications.Queue.{lists, unsent_rows}
use statusnook.Alerts.Tables.{AlertNotification}
use statusnook.Notifications.Stamps.{LoopWorld, Stamps, mark_all, taken}

map-rewrite :
    {A : Type 0} (g : A → A) (q : A → Bool) (f : A → A)
    → ((x : A) → g (f x) ≡ g x)
    → (xs : List A) → map g (rewrite q f xs) ≡ map g xs
map-rewrite g q f h [] = refl
map-rewrite g q f h (x ∷ xs) = ground (arith, h x, map-rewrite g q f h xs)

abbrev pub queue : NotificationTables → List AlertNotification
queue t = t.alerts.notifications

abbrev pub without_stamp : AlertNotification → AlertNotification
without_stamp n = record n { sent_at = none }

-- The notifications of which no delivery was taken.
abbrev pub untaken : List Delivery → NotificationTables → List AlertNotification
untaken log t = keep (λ (n : AlertNotification). not (taken n.id log)) (queue t)

abbrev pub with_queue : List AlertNotification → NotificationTables → NotificationTables
with_queue q t = record t { alerts = record (t.alerts) { notifications = q } }

untaken-mark_all :
    (now : ℕ) (log : List Delivery) (t : NotificationTables) (ids : List ℕ)
    → All (λ id. taken id log ≡ true) ids
    → untaken log (mark_all now ids t) ≡ untaken log t
unfolding mark_sent
untaken-mark_all now log t [] h = refl
untaken-mark_all now log t (id ∷ ids) h =
    keep-rewrite (λ (n : AlertNotification). not (taken n.id log)) (λ n. n.id == id)
      (λ n. record n { sent_at = some now }) (λ n e. go n e h.0) (queue (mark_all now ids t))
    ∙ untaken-mark_all now log t ids h.1
  where
    go :
        (n : AlertNotification)
        → (n.id == id) ≡ true
        → taken id log ≡ true
        → (not (taken n.id log) ≡ false) × (not (taken n.id log) ≡ false)
    go n e k = (step, step)
      where
        step : not (taken n.id log) ≡ false
        step = subst (λ i. not (taken i log) ≡ false) (ground (arith, e)) (ap not k)

without_stamp-mark_all :
    (now : ℕ) (t : NotificationTables) (ids : List ℕ)
    → map without_stamp (queue (mark_all now ids t)) ≡ map without_stamp (queue t)
unfolding mark_sent
without_stamp-mark_all now t [] = refl
without_stamp-mark_all now t (id ∷ ids) =
    map-rewrite without_stamp (λ n. n.id == id) (λ n. record n { sent_at = some now }) (λ n. refl)
      (queue (mark_all now ids t))
    ∙ without_stamp-mark_all now t ids

with_queue-mark_all :
    (now : ℕ) (t : NotificationTables) (ids : List ℕ)
    → mark_all now ids t ≡ with_queue (queue (mark_all now ids t)) t
unfolding mark_sent
with_queue-mark_all now t [] = refl
with_queue-mark_all now t (id ∷ ids) = ap (mark_sent now id) (with_queue-mark_all now t ids)

-- What a pass over the queue leaves behind.
pub record Pass (t : NotificationTables) (w : LoopWorld) : Type 0 where
  pub listed_rows : all (λ d. lists (unsent_rows t) (delivered_id d)) w.memory ≡ true
  pub other_tables : w.committed ≡ with_queue (queue w.committed) t
  pub other_columns : map without_stamp (queue w.committed) ≡ map without_stamp (queue t)
  pub untaken_rows : untaken w.memory w.committed ≡ untaken w.memory t

pub Stamps-Pass :
    (now : ℕ) (t : NotificationTables) (w : LoopWorld) → Stamps now t (unsent_rows t) w → Pass t w
Stamps-Pass now t w h = record {
  listed_rows = h.listed;
  other_tables =
      subst (λ s. s ≡ with_queue (queue s) t) (sym h.tables) (with_queue-mark_all now t h.ids);
  other_columns =
      ap (λ s. map without_stamp (queue s)) h.tables ∙ without_stamp-mark_all now t h.ids;
  untaken_rows = ap (untaken w.memory) h.tables ∙ untaken-mark_all now w.memory t h.ids h.taken_ids;
}
