-- ===== src/Asynchronous/Deliveries.antt =====
-- What becomes of an outcome, in every order of the steps of the worker and of the task.
use vdma.Prelude.{ℕ, Option, some, none, ◌≡◌, refl, ◌⊎◌, inl, inr, subst, sym, arith}
use vdma.Asynchronous.{
  Task, polling, waiting, ready, dropped, Delivery, owed, stored, released, delivered, Cell,
  transfer, set_waker, poll, drop_cell, drop_transfer, store, release_cell, wake, wake_task,
}

abbrev pub cell : {T : Type 0} → Option T → Option ℕ → ℕ → Option T → Task T → Delivery T → Cell T
cell o k n d t l = record {
  outcome = o;
  waker = k;
  clones = n;
  destroyed = d;
  task = t;
  delivery = l;
}

-- The task may poll again unasked, and drop the `Transfer` at any time, once.
pub data Step {T : Type 0} : Cell T → Cell T → Type 0 where
  polls :
      (o : Option T) (k : Option ℕ) (n : ℕ) (d : Option T) (l : Delivery T) (w : ℕ)
      → Step (cell o k n d polling l) (poll w (cell o k n d polling l))
  stirs :
      (o : Option T) (k : Option ℕ) (n : ℕ) (d : Option T) (l : Delivery T) (w : ℕ)
      → Step (cell o k n d (waiting w) l) (cell o k n d polling l)
  drops_polling :
      (o : Option T) (k : Option ℕ) (n : ℕ) (d : Option T) (l : Delivery T)
      → Step (cell o k n d polling l) (drop_transfer (cell o k n d polling l))
  drops_waiting :
      (o : Option T) (k : Option ℕ) (n : ℕ) (d : Option T) (l : Delivery T) (w : ℕ)
      → Step (cell o k n d (waiting w) l) (drop_transfer (cell o k n d (waiting w) l))
  drops_ready :
      (o : Option T) (k : Option ℕ) (n : ℕ) (d : Option T) (l : Delivery T) (v : T)
      → Step (cell o k n d (ready v) l) (drop_transfer (cell o k n d (ready v) l))
  stores :
      (o : Option T) (k : Option ℕ) (n : ℕ) (d : Option T) (t : Task T) (v : T)
      → Step (cell o k n d t (owed v)) (store v (cell o k n d t (owed v)))
  releases :
      (o : Option T) (k : Option ℕ) (n : ℕ) (d : Option T) (t : Task T) (w : Option ℕ)
      → Step (cell o k n d t (stored w)) (release_cell w (cell o k n d t (stored w)))
  wakes :
      (o : Option T) (k : Option ℕ) (n : ℕ) (d : Option T) (t : Task T) (w : Option ℕ)
      → Step (cell o k n d t (released w)) (wake_task w (cell o k n d t (released w)))

pub data Reach {T : Type 0} (c : Cell T) : Cell T → Type 0 where
  here : Reach c c
  next : {t u : Cell T} → Reach c t → Step t u → Reach c u

-- Where the outcome is, by how far the two have come.
data Fits {T : Type 0} (v : T) : Cell T → Type 0 where
  owed_polling : (k : Option ℕ) → Fits v (cell none k 2 none polling (owed v))
  owed_waiting : (w : ℕ) → Fits v (cell none (some w) 2 none (waiting w) (owed v))
  owed_dropped : Fits v (cell none none 1 none (dropped none) (owed v))
  stored_polling : (k : Option ℕ) → Fits v (cell (some v) none 2 none polling (stored k))
  stored_waiting : (w : ℕ) → Fits v (cell (some v) none 2 none (waiting w) (stored (some w)))
  stored_ready : (k : Option ℕ) → Fits v (cell none none 2 none (ready v) (stored k))
  stored_dropped : (k : Option ℕ) → Fits v (cell (some v) none 1 none (dropped none) (stored k))
  stored_done : (k : Option ℕ) → Fits v (cell none none 1 none (dropped (some v)) (stored k))
  released_polling : (k : Option ℕ) → Fits v (cell (some v) none 1 none polling (released k))
  released_waiting : (w : ℕ) → Fits v (cell (some v) none 1 none (waiting w) (released (some w)))
  released_ready : (k : Option ℕ) → Fits v (cell none none 1 none (ready v) (released k))
  released_dropped : (k : Option ℕ) → Fits v (cell none none 0 (some v) (dropped none) (released k))
  released_done : (k : Option ℕ) → Fits v (cell none none 0 none (dropped (some v)) (released k))
  delivered_polling : Fits v (cell (some v) none 1 none polling delivered)
  delivered_ready : Fits v (cell none none 1 none (ready v) delivered)
  delivered_dropped : Fits v (cell none none 0 (some v) (dropped none) delivered)
  delivered_done : Fits v (cell none none 0 none (dropped (some v)) delivered)

set_waker_lem : (w : ℕ) (k : Option ℕ) → set_waker w k ≡ some w
unfolding set_waker
set_waker_lem w none = refl
set_waker_lem w (some k) = ground arith

wake-waiting : {T : Type 0} (w : ℕ) → wake {T = T} (some w) (waiting w) ≡ polling
unfolding wake
wake-waiting w = ground arith

Step-Fits : {T : Type 0} {s t : Cell T} (v : T) → Step s t → Fits v s → Fits v t
unfolding poll drop_cell drop_transfer store release_cell wake wake_task
Step-Fits v (polls _ _ _ _ _ w) (owed_polling k) =
    subst (λ j. Fits v (cell none j 2 none (waiting w) (owed v))) (sym (set_waker_lem w k))
      (owed_waiting w)
Step-Fits v (polls _ _ _ _ _ w) (stored_polling k) = stored_ready k
Step-Fits v (polls _ _ _ _ _ w) (released_polling k) = released_ready k
Step-Fits v (polls _ _ _ _ _ w) delivered_polling = delivered_ready
Step-Fits v (stirs _ _ _ _ _ _) (owed_waiting w) = owed_polling (some w)
Step-Fits v (stirs _ _ _ _ _ _) (stored_waiting w) = stored_polling (some w)
Step-Fits v (stirs _ _ _ _ _ _) (released_waiting w) = released_polling (some w)
Step-Fits v (drops_polling _ _ _ _ _) (owed_polling k) = owed_dropped
Step-Fits v (drops_polling _ _ _ _ _) (stored_polling k) = stored_dropped k
Step-Fits v (drops_polling _ _ _ _ _) (released_polling k) = released_dropped k
Step-Fits v (drops_polling _ _ _ _ _) delivered_polling = delivered_dropped
Step-Fits v (drops_waiting _ _ _ _ _ _) (owed_waiting w) = owed_dropped
Step-Fits v (drops_waiting _ _ _ _ _ _) (stored_waiting w) = stored_dropped (some w)
Step-Fits v (drops_waiting _ _ _ _ _ _) (released_waiting w) = released_dropped (some w)
Step-Fits v (drops_ready _ _ _ _ _ _) (stored_ready k) = stored_done k
Step-Fits v (drops_ready _ _ _ _ _ _) (released_ready k) = released_done k
Step-Fits v (drops_ready _ _ _ _ _ _) delivered_ready = delivered_done
Step-Fits v (stores _ _ _ _ _ _) (owed_polling k) = stored_polling k
Step-Fits v (stores _ _ _ _ _ _) (owed_waiting w) = stored_waiting w
Step-Fits v (stores _ _ _ _ _ _) owed_dropped = stored_dropped none
Step-Fits v (releases _ _ _ _ _ _) (stored_polling k) = released_polling k
Step-Fits v (releases _ _ _ _ _ _) (stored_waiting w) = released_waiting w
Step-Fits v (releases _ _ _ _ _ _) (stored_ready k) = released_ready k
Step-Fits v (releases _ _ _ _ _ _) (stored_dropped k) = released_dropped k
Step-Fits v (releases _ _ _ _ _ _) (stored_done k) = released_done k
Step-Fits v (wakes _ _ _ _ _ _) (released_polling k) = delivered_polling
Step-Fits v (wakes _ _ _ _ _ _) (released_waiting w) =
    subst (λ t. Fits v (cell (some v) none 1 none t delivered)) (sym (wake-waiting w))
      delivered_polling
Step-Fits v (wakes _ _ _ _ _ _) (released_ready k) = delivered_ready
Step-Fits v (wakes _ _ _ _ _ _) (released_dropped k) = delivered_dropped
Step-Fits v (wakes _ _ _ _ _ _) (released_done k) = delivered_done

Reach-Fits : {T : Type 0} {s t : Cell T} (v : T) → Reach s t → Fits v s → Fits v t
Reach-Fits v here f = f
Reach-Fits v (next r s) f = Step-Fits v s (Reach-Fits v r f)

-- Where the outcome is when it is delivered.
abbrev pub Arrived : {T : Type 0} → T → Cell T → Type 0
Arrived v c =
    ((c.task ≡ polling) × ((w : ℕ) → (poll w c).task ≡ ready v))
    ⊎ ((c.task ≡ ready v) × (c.destroyed ≡ none))
    ⊎ ((c.task ≡ dropped (some v)) × (c.destroyed ≡ none))
    ⊎ ((c.task ≡ dropped none) × (c.destroyed ≡ some v))

Fits-Arrived : {T : Type 0} (v : T) (c : Cell T) → Fits v c → c.delivery ≡ delivered → Arrived v c
unfolding poll
Fits-Arrived v _ (owed_polling k) e = cc
Fits-Arrived v _ (owed_waiting w) e = cc
Fits-Arrived v _ owed_dropped e = cc
Fits-Arrived v _ (stored_polling k) e = cc
Fits-Arrived v _ (stored_waiting w) e = cc
Fits-Arrived v _ (stored_ready k) e = cc
Fits-Arrived v _ (stored_dropped k) e = cc
Fits-Arrived v _ (stored_done k) e = cc
Fits-Arrived v _ (released_polling k) e = cc
Fits-Arrived v _ (released_waiting w) e = cc
Fits-Arrived v _ (released_ready k) e = cc
Fits-Arrived v _ (released_dropped k) e = cc
Fits-Arrived v _ (released_done k) e = cc
Fits-Arrived v _ delivered_polling e = inl (refl, λ w. refl)
Fits-Arrived v _ delivered_ready e = inr (inl (refl, refl))
Fits-Arrived v _ delivered_dropped e = inr (inr (inr (refl, refl)))
Fits-Arrived v _ delivered_done e = inr (inr (inl (refl, refl)))

-- Once an outcome is delivered, in whatever order the steps went, the task is not asleep: it is to
-- poll and gets the outcome from its next poll, or it has got it, or it had dropped the transfer
-- before it got it, and then, and only then, the outcome was destroyed with the cell.
pub delivered-Reach :
    {T : Type 0} {c : Cell T} (v : T) → Reach (transfer v) c → c.delivery ≡ delivered → Arrived v c
delivered-Reach {c = c} v r e = Fits-Arrived v c (Reach-Fits v r (owed_polling none)) e
