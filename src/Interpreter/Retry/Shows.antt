-- ===== src/Interpreter/Retry/Shows.antt =====
-- What an operator sees of `retryLoop` in internal/execution/goworkflows/interpreter.go.
use relay_flow.Prelude.{
  ℕ, zero, suc, ◌+◌, Bool, true, false, Option, none, some, List, [], ◌∷◌, ◌++◌, ◌&&◌, ◌||◌, All,
  length, ◌≡◌, ◌∙◌, refl, ap, arith,
}
use relay_flow.Interpreter.Retry.{
  Attempt, succeeds, fails, context_ends, Write, sets_retry, clears_retry, blocks, unblocks,
  returns, retries, Looped, success, block, failure, retry_loop,
}

-- The attempt in the retry status, and whether the run stands as blocked.
pub record Shown : Type 0 where
  pub retry : Option ℕ
  pub is_blocked : Bool

abbrev pub write : Write → Shown → Shown
write (sets_retry n) v = record v { retry = some n }
write clears_retry v = record v { retry = none }
write blocks v = record v { is_blocked = true }
write unblocks v = record v { is_blocked = false }

abbrev pub after_writes : List Write → Shown → Shown
after_writes [] v = v
after_writes (x ∷ ws) v = after_writes ws (write x v)

after_writes-append :
    (a b : List Write) (v : Shown) → after_writes (a ++ b) v ≡ after_writes b (after_writes a v)
after_writes-append [] b v = refl
after_writes-append (x ∷ a) b v = after_writes-append a b (write x v)

-- The attempt that is shown after so many failed ones.
abbrev pub retry_at : ℕ → Option ℕ
retry_at zero = none
retry_at (suc n) = some (suc n)

abbrev pub shown : ℕ → Bool → Shown
shown n blocked = record { retry = retry_at n; is_blocked = blocked }

-- The state `waiting` was written after every success.
abbrev pub IsWritten : Attempt → Type 0
IsWritten (succeeds cleared written) = written ≡ true
IsWritten _ = Unit

-- What the loop leaves on the screen when it returns, and while it waits for the next attempt.
abbrev pub Leaves : ℕ → Type 0 → Looped → Shown → Type 0
Leaves failures written l v =
    (l.ends ≡ returns → v.retry ≡ none)
    × (l.ends ≡ returns → written → v.is_blocked ≡ false)
    × (l.ends ≡ retries → v.retry ≡ retry_at failures)

-- A run that is shown as blocked is one that the loop has blocked.
abbrev Within : Bool → Bool → Type 0
Within k b = k ≡ true → b ≡ true

success-Leaves :
    (n : ℕ) (b k cleared written : Bool) (m : ℕ) (more : List Attempt)
    → Within k b
    → Leaves m
        (All IsWritten (succeeds cleared written ∷ more))
        (success n b cleared written)
        (after_writes (success n b cleared written).writes (shown n k))
success-Leaves zero true k cleared true m more h = (λ e. refl, λ e w. refl, λ e. cc)
success-Leaves zero true k cleared false m more h = (λ e. refl, λ e w. absurd (cc (w.0)), λ e. cc)
success-Leaves zero false true cleared written m more h =
    (λ e. refl, λ e w. absurd (cc (h refl)), λ e. cc)
success-Leaves zero false false cleared written m more h = (λ e. refl, λ e w. refl, λ e. cc)
success-Leaves (suc n) true k true true m more h = (λ e. refl, λ e w. refl, λ e. cc)
success-Leaves (suc n) true k true false m more h = (λ e. refl, λ e w. absurd (cc (w.0)), λ e. cc)
success-Leaves (suc n) false true true written m more h =
    (λ e. refl, λ e w. absurd (cc (h refl)), λ e. cc)
success-Leaves (suc n) false false true written m more h = (λ e. refl, λ e w. refl, λ e. cc)
success-Leaves (suc n) b k false written m more h = (λ e. cc, λ e w. cc, λ e. cc)

failure-writes :
    (n : ℕ) (k c w : Bool) (ws : List Write)
    → after_writes (block c w ++ (sets_retry (suc n) ∷ ws)) (shown n k)
      ≡ after_writes ws (shown (suc n) (k || (c && w)))
failure-writes n true true true ws = refl
failure-writes n false true true ws = refl
failure-writes n true true false ws = refl
failure-writes n false true false ws = refl
failure-writes n true false w ws = refl
failure-writes n false false w ws = refl

Within-more : (k b c w : Bool) → Within k b → Within (k || (c && w)) (b || c)
Within-more k b c w h e = ground arith

failure-Leaves :
    (n m : ℕ) (k : Bool) (written : Type 0) (c over w recorded waited : Bool) (rest : Looped)
    → Leaves m written rest (after_writes rest.writes (shown (suc n) (k || (c && w))))
    → Leaves m written
        (failure n
          (record {
            is_conflict = c;
            context_over = over;
            state_written = w;
            recorded = recorded;
            waited = waited;
          })
          rest)
        (after_writes
          (failure n
            (record {
              is_conflict = c;
              context_over = over;
              state_written = w;
              recorded = recorded;
              waited = waited;
            })
            rest).writes
          (shown n k))
failure-Leaves n m k written c true w recorded waited rest h = (λ e. cc, λ e u. cc, λ e. cc)
failure-Leaves n m k written c false w false waited rest h = (λ e. cc, λ e u. cc, λ e. cc)
failure-Leaves n m k written c false w true false rest h = (λ e. cc, λ e u. cc, λ e. cc)
failure-Leaves n m k written c false w true true rest h =
    let same = failure-writes n k c w rest.writes in
    (
      λ e. ap (λ v. v.retry) same ∙ h.0 e,
      λ e u. ap (λ v. v.is_blocked) same ∙ h.1 e u,
      λ e. ap (λ v. v.retry) same ∙ h.2 e,
    )

weaken : {u v : Type 0} (m : ℕ) (l : Looped) {x : Shown} → (v → u) → Leaves m u l x → Leaves m v l x
weaken m l f h = (h.0, λ e w. h.1 e (f w), h.2)

from_any :
    (attempts : List Attempt) (n : ℕ) (b k : Bool) (m : ℕ)
    → Within k b
    → n + length attempts ≡ m
    → Leaves m
        (All IsWritten attempts)
        (retry_loop n b attempts)
        (after_writes (retry_loop n b attempts).writes (shown n k))
unfolding retry_loop
from_any [] n b k m h e =
    let same : n ≡ m = omega (arith, e) in (λ r. cc, λ r w. cc, λ r. ap retry_at same)
from_any (context_ends ∷ more) n b k m h e = (λ r. cc, λ r w. cc, λ r. cc)
from_any (succeeds cleared written ∷ more) n b k m h e =
    success-Leaves n b k cleared written m more h
from_any (fails f ∷ more) n b k m h e =
    failure-Leaves n m k (All IsWritten (fails f ∷ more)) f.is_conflict f.context_over
      f.state_written f.recorded f.waited (retry_loop (suc n) (b || f.is_conflict) more)
      (weaken m (retry_loop (suc n) (b || f.is_conflict) more) (λ w. w.1)
        (from_any more (suc n) (b || f.is_conflict) (k || (f.is_conflict && f.state_written)) m
          (Within-more k b f.is_conflict f.state_written h) (omega (arith, e))))

-- However its attempts go, what a loop that begins with nothing shown leaves shown: where it returns,
-- no retry status, and, if the state `waiting` could be written after the success, no blocked state;
-- and while it waits for another attempt, the number of the attempts that have failed, which are all
-- of them.
pub retry_loop-Leaves :
    (attempts : List Attempt)
    → Leaves
        (length attempts)
        (All IsWritten attempts)
        (retry_loop 0 false attempts)
        (after_writes (retry_loop 0 false attempts).writes (shown 0 false))
retry_loop-Leaves attempts =
    from_any attempts 0 false false (length attempts) (λ e. e) (omega arith)
