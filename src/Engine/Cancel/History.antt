-- ===== src/Engine/Cancel/History.antt =====
-- What the loop over a history in `reconcileFinishedCancellation` of
-- internal/execution/goworkflows/engine.go finds.
use relay_flow.Prelude.{
  ℕ, Option, Memᴰ, Bool, true, false, none, some, List, [], ◌∷◌, ◌++◌, All, ◌≡◌, ◌≢◌, refl, sym, ap,
}
use relay_flow.Engine.{Event, started, cancel_requested, terminated, finished, unrelated}
use relay_flow.Engine.Cancel.{
  Verdict, broken, undecided, canceled_first, finished_at, verdict, read_events,
}

abbrev pub IsOther : Event → Type 0
IsOther cancel_requested = ⊥
IsOther (finished t) = ⊥
IsOther terminated = ⊥
IsOther _ = Unit

abbrev HasNoFinish : Event → Type 0
HasNoFinish (finished t) = ⊥
HasNoFinish terminated = ⊥
HasNoFinish _ = Unit

abbrev IsOrderly : Event → Type 0
IsOrderly terminated = ⊥
IsOrderly _ = Unit

-- A cancellation was requested before any finish, and nothing was terminated.
pub record CanceledFirst (es : List Event) : Type 0 where
  pub before : List Event
  pub behind : List Event
  pub splits : es ≡ before ++ (cancel_requested ∷ behind)
  pub unfinished : All HasNoFinish before
  pub orderly : All IsOrderly behind

-- The first finish came before any cancellation, and nothing was terminated.
pub record FinishedFirst (t : ℕ) (es : List Event) : Type 0 where
  pub before : List Event
  pub behind : List Event
  pub splits : es ≡ before ++ (finished t ∷ behind)
  pub undisturbed : All IsOther before
  pub orderly : All IsOrderly behind

-- After the first finish the verdict is fixed.
after_finish :
    (c : Bool) (t : ℕ) (es : List Event) (v : Verdict)
    → read_events c (some t) es ≡ v
    → v ≢ broken
    → (v ≡ verdict c (some t)) × All IsOrderly es
unfolding read_events
after_finish c t [] v h n = (sym h, tt)
after_finish c t (cancel_requested ∷ es) v h n =
    let (a, b) = after_finish c t es v h n in (a, (tt, b))
after_finish c t (finished u ∷ es) v h n = let (a, b) = after_finish c t es v h n in (a, (tt, b))
after_finish c t (terminated ∷ es) v h n = absurd (n (cc))
after_finish c t (started xs ∷ es) v h n = let (a, b) = after_finish c t es v h n in (a, (tt, b))
after_finish c t (unrelated ∷ es) v h n = let (a, b) = after_finish c t es v h n in (a, (tt, b))

-- After a cancellation without a finish the verdict is fixed too.
after_cancel :
    (es : List Event) (v : Verdict)
    → read_events true none es ≡ v
    → v ≢ broken
    → (v ≡ canceled_first) × All IsOrderly es
unfolding read_events
after_cancel [] v h n = (sym h, tt)
after_cancel (cancel_requested ∷ es) v h n = let (a, b) = after_cancel es v h n in (a, (tt, b))
after_cancel (finished u ∷ es) v h n = let (a, b) = after_finish true u es v h n in (a, (tt, b))
after_cancel (terminated ∷ es) v h n = absurd (n (cc))
after_cancel (started xs ∷ es) v h n = let (a, b) = after_cancel es v h n in (a, (tt, b))
after_cancel (unrelated ∷ es) v h n = let (a, b) = after_cancel es v h n in (a, (tt, b))

pub read_events-CanceledFirst :
    (es : List Event) → read_events false none es ≡ canceled_first → CanceledFirst es
unfolding read_events
read_events-CanceledFirst [] h = cc
read_events-CanceledFirst (cancel_requested ∷ es) h = record {
  before = [];
  behind = es;
  splits = refl;
  unfinished = tt;
  orderly = (after_cancel es canceled_first h (λ k. cc)).1;
}
read_events-CanceledFirst (finished u ∷ es) h =
    let (a, b) = after_finish false u es canceled_first h (λ k. cc) in cc
read_events-CanceledFirst (terminated ∷ es) h = cc
read_events-CanceledFirst (started xs ∷ es) h =
    let c = read_events-CanceledFirst es h in
    record {
      before = started xs ∷ c.before;
      behind = c.behind;
      splits = ap (◌∷◌ (started xs)) c.splits;
      unfinished = (tt, c.unfinished);
      orderly = c.orderly;
    }
read_events-CanceledFirst (unrelated ∷ es) h =
    let c = read_events-CanceledFirst es h in
    record {
      before = unrelated ∷ c.before;
      behind = c.behind;
      splits = ap (◌∷◌ unrelated) c.splits;
      unfinished = (tt, c.unfinished);
      orderly = c.orderly;
    }

pub read_events-FinishedFirst :
    (t : ℕ) (es : List Event) → read_events false none es ≡ finished_at t → FinishedFirst t es
unfolding read_events
read_events-FinishedFirst t [] h = cc
read_events-FinishedFirst t (cancel_requested ∷ es) h =
    let (a, b) = after_cancel es (finished_at t) h (λ k. cc) in cc
read_events-FinishedFirst t (finished u ∷ es) h =
    let (a, b) = after_finish false u es (finished_at t) h (λ k. cc) in
    let same : u ≡ t = cc in
    record {
      before = [];
      behind = es;
      splits = ap (λ x. finished x ∷ es) same;
      undisturbed = tt;
      orderly = b;
    }
read_events-FinishedFirst t (terminated ∷ es) h = cc
read_events-FinishedFirst t (started xs ∷ es) h =
    let c = read_events-FinishedFirst t es h in
    record {
      before = started xs ∷ c.before;
      behind = c.behind;
      splits = ap (◌∷◌ (started xs)) c.splits;
      undisturbed = (tt, c.undisturbed);
      orderly = c.orderly;
    }
read_events-FinishedFirst t (unrelated ∷ es) h =
    let c = read_events-FinishedFirst t es h in
    record {
      before = unrelated ∷ c.before;
      behind = c.behind;
      splits = ap (◌∷◌ unrelated) c.splits;
      undisturbed = (tt, c.undisturbed);
      orderly = c.orderly;
    }

-- What the loop says where no verdict comes out.
pub read_events_broken :
    (c : Bool) (f : Option ℕ) (es : List Event) → read_events c f es ≡ broken → Memᴰ terminated es
unfolding read_events
read_events_broken true f [] h = cc
read_events_broken false none [] h = cc
read_events_broken false (some t) [] h = cc
read_events_broken c none (cancel_requested ∷ es) h = Memᴰ.tail (read_events_broken true none es h)
read_events_broken c (some t) (cancel_requested ∷ es) h =
    Memᴰ.tail (read_events_broken c (some t) es h)
read_events_broken c none (finished t ∷ es) h = Memᴰ.tail (read_events_broken c (some t) es h)
read_events_broken c (some t) (finished u ∷ es) h = Memᴰ.tail (read_events_broken c (some t) es h)
read_events_broken c f (terminated ∷ es) h = Memᴰ.head refl
read_events_broken c f (started xs ∷ es) h = Memᴰ.tail (read_events_broken c f es h)
read_events_broken c f (unrelated ∷ es) h = Memᴰ.tail (read_events_broken c f es h)

pub read_events_undecided :
    (es : List Event) → read_events false none es ≡ undecided → All IsOther es
unfolding read_events
read_events_undecided [] h = tt
read_events_undecided (cancel_requested ∷ es) h =
    let (a, b) = after_cancel es undecided h (λ k. cc) in cc
read_events_undecided (finished u ∷ es) h =
    let (a, b) = after_finish false u es undecided h (λ k. cc) in cc
read_events_undecided (terminated ∷ es) h = cc
read_events_undecided (started xs ∷ es) h = (tt, read_events_undecided es h)
read_events_undecided (unrelated ∷ es) h = (tt, read_events_undecided es h)
