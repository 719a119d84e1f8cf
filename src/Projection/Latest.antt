-- ===== src/Projection/Latest.antt =====
-- Which run the lookups of internal/execution/projection/projection.go find.
use relay_flow.Prelude.{
  ℕ, String, Bool, true, false, Option, none, some, List, [], ◌∷◌, Memᴰ, ◌==◌, ◌&&◌, ◌||◌, eqb, ltb,
  Bool-cases, Option-cases, ◌≡◌, inl, inr, refl, sym, subst, arith,
}
use relay_flow.Run.{Run}
use relay_flow.Projection.Table.{select}
use relay_flow.Projection.Runs.{RunRow, scan_run, in_order, newer_row, latest, find_by_ticket}

-- The order of the lookups, on the two numbers of each row.
abbrev before : ℕ → ℕ → ℕ → ℕ → Bool
before s a t b = ltb t s || (eqb s t && ltb b a)

before_asym : (s a t b : ℕ) → before s a t b ≡ true → before t b s a ≡ false
before_asym s a t b h = ground arith

before_trans :
    (s a t b u c : ℕ) → before s a t b ≡ false → before t b u c ≡ false → before s a u c ≡ false
before_trans s a t b u c h k = ground arith

before_irrefl : (s a : ℕ) → before s a s a ≡ false
before_irrefl s a = ground arith

pub record IsLatest (rs : List RunRow) (r : RunRow) : Type 0 where
  pub listed : Memᴰ r rs
  pub newest : (s : RunRow) → Memᴰ s rs → newer_row s r ≡ false

same_row : {x r : RunRow} → ◌≡◌ {A = Option RunRow} (some x) (some r) → x ≡ r
same_row {x} {r} h = cc

no_latest : (rs : List RunRow) → latest rs ≡ none → (s : RunRow) → ¬ Memᴰ s rs
unfolding latest
no_latest [] h s m = elim m [ ]
no_latest (x ∷ rs) h s m = elim (Option-cases (latest rs)) [
  | inl n ↦ cc (rw (n, latest) at h)
  | inr (t, e) ↦ cc (rw (e, latest) at h)
]

latest-IsLatest : (rs : List RunRow) {r : RunRow} → latest rs ≡ some r → IsLatest rs r
unfolding latest
latest-IsLatest [] h = cc
latest-IsLatest (x ∷ rs) {r} h = elim (Option-cases (latest rs)) [
  | inl n ↦ subst (IsLatest (x ∷ rs)) (same_row (rw (n, latest) at h)) (record {
    listed = Memᴰ.head refl;
    newest = λ s m. elim m [
      | Memᴰ.head p ↦
          subst (λ y. newer_row y x ≡ false) (sym p)
            (before_irrefl x.started_at (in_order x.attempt_id))
      | Memᴰ.tail q ↦ absurd (no_latest rs n s q)
    ];
  })
  | inr (s, e) ↦
      let i = latest-IsLatest rs e in
      elim (Bool-cases (newer_row s x)) [
        | inl c ↦ subst (IsLatest (x ∷ rs)) (same_row (rw c at (rw (e, latest) at h))) (record {
          listed = Memᴰ.tail i.listed;
          newest = λ y m. elim m [
            | Memᴰ.head p ↦
                subst (λ z. newer_row z s ≡ false) (sym p)
                  (before_asym s.started_at (in_order s.attempt_id) x.started_at
                    (in_order x.attempt_id) c)
            | Memᴰ.tail q ↦ i.newest y q
          ];
        })
        | inr c ↦ subst (IsLatest (x ∷ rs)) (same_row (rw c at (rw (e, latest) at h))) (record {
          listed = Memᴰ.head refl;
          newest = λ y m. elim m [
            | Memᴰ.head p ↦
                subst (λ z. newer_row z x ≡ false) (sym p)
                  (before_irrefl x.started_at (in_order x.attempt_id))
            | Memᴰ.tail q ↦
                before_trans y.started_at (in_order y.attempt_id) s.started_at
                  (in_order s.attempt_id) x.started_at (in_order x.attempt_id) (i.newest y q) c
          ];
        })
      ]
]

select-mem :
    (test : RunRow → Bool) (rs : List RunRow) (x : RunRow)
    → Memᴰ x (select test rs)
    → Memᴰ x rs × (test x ≡ true)
unfolding select
select-mem test [] x m = elim m [ ]
select-mem test (y ∷ rs) x m = elim (Bool-cases (test y)) [
  | inl e ↦ elim (rw e at m) [
    | Memᴰ.head p ↦ (Memᴰ.head p, subst (λ z. test z ≡ true) (sym p) e)
    | Memᴰ.tail q ↦ let (a, b) = select-mem test rs x q in (Memᴰ.tail a, b)
  ]
  | inr e ↦ let (a, b) = select-mem test rs x (rw e at m) in (Memᴰ.tail a, b)
]

mem-select :
    (test : RunRow → Bool) (rs : List RunRow) (x : RunRow)
    → Memᴰ x rs
    → test x ≡ true
    → Memᴰ x (select test rs)
unfolding select
mem-select test [] x m t = elim m [ ]
mem-select test (y ∷ rs) x (Memᴰ.head p) t = rw (subst (λ z. test z ≡ true) p t) (Memᴰ.head p)
mem-select test (y ∷ rs) x (Memᴰ.tail q) t = elim (Bool-cases (test y)) [
  | inl e ↦ rw e (Memᴰ.tail (mem-select test rs x q t))
  | inr e ↦ rw e (mem-select test rs x q t)
]

-- The run that `findByTicket` returns is a row of the ticket, and no row of the ticket has started
-- later, or at the same time with a higher attempt.
pub find_by_ticket-newest :
    (key : String) (rs : List RunRow) {found : Run}
    → find_by_ticket key rs ≡ some found
    → (r : RunRow) × (found ≡ scan_run r)
      × Memᴰ r rs
      × ((r.ticket.key == key) ≡ true)
      × ((s : RunRow) → Memᴰ s rs → (s.ticket.key == key) ≡ true → newer_row s r ≡ false)
unfolding find_by_ticket
find_by_ticket-newest key rs h =
    elim (Option-cases (latest (select (λ (r : RunRow). r.ticket.key == key) rs))) [
      | inl n ↦ cc (rw (n, find_by_ticket) at h)
      | inr (r, e) ↦
          let i = latest-IsLatest (select (λ (x : RunRow). x.ticket.key == key) rs) e in
          let (m, t) = select-mem (λ x. x.ticket.key == key) rs r i.listed in
          (
            r,
            found_row r (rw (e, find_by_ticket) at h),
            m,
            t,
            λ s p q. i.newest s (mem-select (λ x. x.ticket.key == key) rs s p q),
          )
    ]
  where
    found_row :
        (r : RunRow) {found : Run}
        → ◌≡◌ {A = Option Run} (some (scan_run r)) (some found)
        → found ≡ scan_run r
    found_row r {found} k = cc
