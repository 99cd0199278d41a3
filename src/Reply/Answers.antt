-- ===== src/Reply/Answers.antt =====
-- What the caller gets, in every order of the steps of the two ends.
use vdma.Prelude.{Option, some, none, ◌≡◌, ◌≢◌, refl, ◌⊎◌, inl, inr, subst, sym}
use vdma.Reply.{
  State, pending, answered, abandoned, Caller, running, asleep, returned, Answer, holding, settled,
  notified, gone, Slot, reply, wake, settle, notify, drop_answer, look,
}

abbrev pub slot : {T : Type 0} → State T → Caller T → Answer T → Slot T
slot st ca a = record { state = st; caller = ca; answer = a }

-- A sleeper may also wake for no reason.
pub data Step {T : Type 0} : Slot T → Slot T → Type 0 where
  settles :
      (st : State T) (ca : Caller T) (v : T)
      → Step (slot st ca holding) (settle v (slot st ca holding))
  notifies :
      (st : State T) (ca : Caller T) (v : T)
      → Step (slot st ca (settled v)) (notify v (slot st ca (settled v)))
  drops_unsent :
      (st : State T) (ca : Caller T)
      → Step (slot st ca holding) (drop_answer none (slot st ca holding))
  drops :
      (st : State T) (ca : Caller T) (v : T)
      → Step (slot st ca (notified v)) (drop_answer (some v) (slot st ca (notified v)))
  looks : (st : State T) (a : Answer T) → Step (slot st running a) (look (slot st running a))
  stirs : (st : State T) (a : Answer T) → Step (slot st asleep a) (slot st running a)

pub data Reach {T : Type 0} (s : Slot T) : Slot T → Type 0 where
  here : Reach s s
  next : {t u : Slot T} → Reach s t → Step t u → Reach s u

-- How far the two ends may have come, and the state between them.
data Fits {T : Type 0} : Answer T → State T → Caller T → Type 0 where
  unanswered_running : Fits holding pending running
  unanswered_asleep : Fits holding pending asleep
  settled_running : (v : T) → Fits (settled v) (answered v) running
  settled_asleep : (v : T) → Fits (settled v) (answered v) asleep
  settled_returned : (v : T) → Fits (settled v) pending (returned (some v))
  notified_running : (v : T) → Fits (notified v) (answered v) running
  notified_returned : (v : T) → Fits (notified v) pending (returned (some v))
  gone_running : (v : T) → Fits (gone (some v)) (answered v) running
  gone_returned : (v : T) → Fits (gone (some v)) abandoned (returned (some v))
  taken_returned : (v : T) → Fits (gone (some v)) pending (returned (some v))
  unsent_running : Fits (gone none) abandoned running
  unsent_returned : Fits (gone none) pending (returned none)

abbrev IsFit : {T : Type 0} → Slot T → Type 0
IsFit s = Fits s.answer s.state s.caller

Step-IsFit : {T : Type 0} {s t : Slot T} → Step s t → IsFit s → IsFit t
unfolding wake settle notify drop_answer look
Step-IsFit (settles _ _ v) unanswered_running = settled_running v
Step-IsFit (settles _ _ v) unanswered_asleep = settled_asleep v
Step-IsFit (notifies _ _ _) (settled_running v) = notified_running v
Step-IsFit (notifies _ _ _) (settled_asleep v) = notified_running v
Step-IsFit (notifies _ _ _) (settled_returned v) = notified_returned v
Step-IsFit (drops_unsent _ _) unanswered_running = unsent_running
Step-IsFit (drops_unsent _ _) unanswered_asleep = unsent_running
Step-IsFit (drops _ _ _) (notified_running v) = gone_running v
Step-IsFit (drops _ _ _) (notified_returned v) = gone_returned v
Step-IsFit (looks _ _) unanswered_running = unanswered_asleep
Step-IsFit (looks _ _) (settled_running v) = settled_returned v
Step-IsFit (looks _ _) (notified_running v) = notified_returned v
Step-IsFit (looks _ _) (gone_running v) = taken_returned v
Step-IsFit (looks _ _) unsent_running = unsent_returned
Step-IsFit (stirs _ _) unanswered_asleep = unanswered_running
Step-IsFit (stirs _ _) (settled_asleep v) = settled_running v

Reach-IsFit : {T : Type 0} {s t : Slot T} → Reach s t → IsFit s → IsFit t
Reach-IsFit here f = f
Reach-IsFit (next r s) f = Step-IsFit s (Reach-IsFit r f)

-- What has been sent by an end that is not held any more, if anything has.
abbrev pub sent : {T : Type 0} → Answer T → Option T
sent holding = none
sent (settled v) = some v
sent (notified v) = some v
sent (gone o) = o

returned-Fits :
    {T : Type 0} (a : Answer T) (st : State T) (r : Option T)
    → Fits a st (returned r)
    → (r ≡ sent a) × (a ≢ holding)
returned-Fits _ _ _ (settled_returned v) = (refl, λ e. cc)
returned-Fits _ _ _ (notified_returned v) = (refl, λ e. cc)
returned-Fits _ _ _ (gone_returned v) = (refl, λ e. cc)
returned-Fits _ _ _ (taken_returned v) = (refl, λ e. cc)
returned-Fits _ _ _ unsent_returned = (refl, λ e. cc)

-- In every order of the steps, a caller that has returned has what the worker sent, or nothing if
-- the worker dropped its end without sending; it never returns while the worker still holds it.
pub returned-Reach :
    {T : Type 0} {t : Slot T} (r : Option T)
    → Reach reply t
    → t.caller ≡ returned r
    → (r ≡ sent t.answer) × (t.answer ≢ holding)
returned-Reach {t = t} r reach e =
    returned-Fits t.answer t.state r
      (subst (λ c. Fits t.answer t.state c) e (Reach-IsFit reach unanswered_running))

gone-Fits :
    {T : Type 0} (o : Option T) (st : State T) (ca : Caller T)
    → Fits (gone o) st ca
    → (ca ≡ returned o) ⊎ ((ca ≡ running) × ((look (slot st ca (gone o))).caller ≡ returned o))
unfolding look
gone-Fits _ _ _ (gone_running v) = inr (refl, refl)
gone-Fits _ _ _ (gone_returned v) = inl refl
gone-Fits _ _ _ (taken_returned v) = inl refl
gone-Fits _ _ _ unsent_running = inr (refl, refl)
gone-Fits _ _ _ unsent_returned = inl refl

-- No wake-up is lost: once the worker's end is gone, in whatever order it went, the caller has
-- returned with what was sent, or with nothing if nothing was, or it is awake and returns with that
-- from its next look.
pub gone-Reach :
    {T : Type 0} {t : Slot T} (o : Option T)
    → Reach reply t
    → t.answer ≡ gone o
    → (t.caller ≡ returned o) ⊎ ((t.caller ≡ running) × ((look t).caller ≡ returned o))
gone-Reach {t = t} o reach e =
    subst
      (λ a.
        (t.caller ≡ returned o)
        ⊎ ((t.caller ≡ running) × ((look (slot t.state t.caller a)).caller ≡ returned o)))
      (sym e)
      (gone-Fits o t.state t.caller
        (subst (λ a. Fits a t.state t.caller) e (Reach-IsFit reach unanswered_running)))
