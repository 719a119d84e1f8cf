-- ===== src/Detail/Order.antt =====
-- The rows that `listSteps` of internal/execution/projection/projection.go reads, and their order.
use relay_flow.Prelude.{
  ◌≤◌, String, true, List, [], ◌∷◌, All, Memᴰ, map, leb, ◌==◌, either_way, ◌≡◌, refl, sym, ap,
  subst, arith,
}
use relay_flow.Projection.Table.{select}
use relay_flow.Projection.Steps.{StepEntry, StepRow}
use relay_flow.Detail.Derive.{scan_step, insert_step, in_order, list_steps}

insert_step-All :
    (P : StepRow → Type 0) (r : StepRow) (ss : List StepRow)
    → P r
    → All P ss
    → All P (insert_step r ss)
unfolding insert_step
insert_step-All P r [] p h = (p, tt)
insert_step-All P r (s ∷ ss) p h =
    either_way (All P) (leb r.sequence s.sequence) (r ∷ s ∷ ss) (s ∷ insert_step r ss) (λ _. (p, h))
      (λ _. (h.0, insert_step-All P r ss p h.1))

abbrev pub Precedes : StepRow → StepRow → Type 0
Precedes s t = s.sequence ≤ t.sequence

abbrev pub IsOrdered : List StepRow → Type 0
IsOrdered [] = Unit
IsOrdered (s ∷ ss) = All (Precedes s) ss × IsOrdered ss

lower :
    (r s : StepRow) (ss : List StepRow) → Precedes r s → All (Precedes s) ss → All (Precedes r) ss
lower r s [] h k = tt
lower r s (t ∷ ts) h k = (omega (arith, h, k.0), lower r s ts h k.1)

insert_step-IsOrdered :
    (r : StepRow) (ss : List StepRow) → IsOrdered ss → IsOrdered (insert_step r ss)
unfolding insert_step
insert_step-IsOrdered r [] h = (tt, tt)
insert_step-IsOrdered r (s ∷ ss) h =
    either_way IsOrdered (leb r.sequence s.sequence) (r ∷ s ∷ ss) (s ∷ insert_step r ss)
      (λ e. let first : Precedes r s = ground arith in ((first, lower r s ss first h.0), h))
      (λ e.
        let last : Precedes s r = ground arith in
        (insert_step-All (Precedes s) r ss last h.0, insert_step-IsOrdered r ss h.1))

pub in_order-IsOrdered : (rs : List StepRow) → IsOrdered (in_order rs)
unfolding in_order
in_order-IsOrdered [] = tt
in_order-IsOrdered (r ∷ rs) = insert_step-IsOrdered r (in_order rs) (in_order-IsOrdered rs)

abbrev pub AreOrdered : List StepEntry → Type 0
AreOrdered [] = Unit
AreOrdered (s ∷ ss) = All (λ t. s.sequence ≤ t.sequence) ss × AreOrdered ss

scanned-All :
    (r : StepRow) (ss : List StepRow)
    → All (Precedes r) ss
    → All (λ t. (scan_step r).sequence ≤ t.sequence) (map scan_step ss)
scanned-All r [] h = tt
scanned-All r (s ∷ ss) h = (h.0, scanned-All r ss h.1)

scanned-AreOrdered : (ss : List StepRow) → IsOrdered ss → AreOrdered (map scan_step ss)
scanned-AreOrdered [] h = tt
scanned-AreOrdered (s ∷ ss) h = (scanned-All s ss h.0, scanned-AreOrdered ss h.1)

pub list_steps-AreOrdered : (id : String) (rs : List StepRow) → AreOrdered (list_steps id rs)
unfolding list_steps
list_steps-AreOrdered id rs =
    scanned-AreOrdered _ (in_order-IsOrdered (select (λ r. r.run_id == id) rs))

insert_step-mem : (r s : StepRow) (ss : List StepRow) → Memᴰ s (r ∷ ss) → Memᴰ s (insert_step r ss)
unfolding insert_step
insert_step-mem r s [] m = m
insert_step-mem r s (t ∷ ss) m =
    either_way (Memᴰ s) (leb r.sequence t.sequence) (r ∷ t ∷ ss) (t ∷ insert_step r ss) (λ _. m)
      (λ _. elim m [
        | Memᴰ.head e ↦ Memᴰ.tail (insert_step-mem r s ss (Memᴰ.head e))
        | Memᴰ.tail (Memᴰ.head e) ↦ Memᴰ.head e
        | Memᴰ.tail (Memᴰ.tail k) ↦ Memᴰ.tail (insert_step-mem r s ss (Memᴰ.tail k))
      ])

in_order-mem : (s : StepRow) (rs : List StepRow) → Memᴰ s rs → Memᴰ s (in_order rs)
unfolding in_order
in_order-mem s (r ∷ rs) (Memᴰ.head e) = insert_step-mem r s (in_order rs) (Memᴰ.head e)
in_order-mem s (r ∷ rs) (Memᴰ.tail m) =
    insert_step-mem r s (in_order rs) (Memᴰ.tail (in_order-mem s rs m))
in_order-mem s [] m = elim m [ ]

scanned-mem : {s : StepRow} {ss : List StepRow} → Memᴰ s ss → Memᴰ (scan_step s) (map scan_step ss)
scanned-mem (Memᴰ.head e) = Memᴰ.head (ap scan_step e)
scanned-mem (Memᴰ.tail m) = Memᴰ.tail (scanned-mem m)

select-mem :
    (id : String) (s : StepRow) (rs : List StepRow)
    → Memᴰ s rs
    → (s.run_id == id) ≡ true
    → Memᴰ s (select (λ r. r.run_id == id) rs)
unfolding select
select-mem id s [] m h = elim m [ ]
select-mem id s (r ∷ rs) (Memᴰ.head e) h =
    let same : (r.run_id == id) ≡ true = subst (λ x. (x.run_id == id) ≡ true) e h in
    rw same (Memᴰ.head e)
select-mem id s (r ∷ rs) (Memᴰ.tail m) h =
    either_way (Memᴰ s) (r.run_id == id) (r ∷ select (λ x. x.run_id == id) rs)
      (select (λ x. x.run_id == id) rs) (λ _. Memᴰ.tail (select-mem id s rs m h))
      (λ _. select-mem id s rs m h)

-- Every row of the run is read.
pub list_steps-mem :
    (id : String) (s : StepRow) (rs : List StepRow)
    → Memᴰ s rs
    → (s.run_id == id) ≡ true
    → Memᴰ (scan_step s) (list_steps id rs)
unfolding list_steps
list_steps-mem id s rs m h =
    scanned-mem (in_order-mem s (select (λ r. r.run_id == id) rs) (select-mem id s rs m h))

insert_step-only : (r s : StepRow) (ss : List StepRow) → Memᴰ s (insert_step r ss) → Memᴰ s (r ∷ ss)
unfolding insert_step
insert_step-only r s [] m = m
insert_step-only r s (t ∷ ss) m =
    either_way (λ x. Memᴰ s x → Memᴰ s (r ∷ t ∷ ss)) (leb r.sequence t.sequence) (r ∷ t ∷ ss)
      (t ∷ insert_step r ss) (λ _ k. k)
      (λ _ k. elim k [
        | Memᴰ.head e ↦ Memᴰ.tail (Memᴰ.head e)
        | Memᴰ.tail l ↦ elim (insert_step-only r s ss l) [
          | Memᴰ.head e ↦ Memᴰ.head e
          | Memᴰ.tail x ↦ Memᴰ.tail (Memᴰ.tail x)
        ]
      ])
      m

in_order-only : (s : StepRow) (rs : List StepRow) → Memᴰ s (in_order rs) → Memᴰ s rs
unfolding in_order
in_order-only s [] m = m
in_order-only s (r ∷ rs) m = elim (insert_step-only r s (in_order rs) m) [
  | Memᴰ.head e ↦ Memᴰ.head e
  | Memᴰ.tail x ↦ Memᴰ.tail (in_order-only s rs x)
]

scanned-only :
    (e : StepEntry) (ss : List StepRow)
    → Memᴰ e (map scan_step ss)
    → (s : StepRow) × Memᴰ s ss × (e ≡ scan_step s)
scanned-only e [] m = elim m [ ]
scanned-only e (s ∷ ss) (Memᴰ.head p) = (s, Memᴰ.head refl, p)
scanned-only e (s ∷ ss) (Memᴰ.tail m) = let (t, k, p) = scanned-only e ss m in (t, Memᴰ.tail k, p)

select-only :
    (id : String) (s : StepRow) (rs : List StepRow)
    → Memᴰ s (select (λ r. r.run_id == id) rs)
    → Memᴰ s rs × ((s.run_id == id) ≡ true)
unfolding select
select-only id s [] m = elim m [ ]
select-only id s (r ∷ rs) m =
    either_way (λ x. Memᴰ s x → Memᴰ s (r ∷ rs) × ((s.run_id == id) ≡ true)) (r.run_id == id)
      (r ∷ select (λ x. x.run_id == id) rs) (select (λ x. x.run_id == id) rs)
      (λ same k. elim k [
        | Memᴰ.head e ↦ (Memᴰ.head e, subst (λ x. (x.run_id == id) ≡ true) (sym e) same)
        | Memᴰ.tail l ↦ let (h, t) = select-only id s rs l in (Memᴰ.tail h, t)
      ])
      (λ _ k. let (h, t) = select-only id s rs k in (Memᴰ.tail h, t)) m

-- No other row is read.
pub list_steps-only :
    (id : String) (e : StepEntry) (rs : List StepRow)
    → Memᴰ e (list_steps id rs)
    → (s : StepRow) × (Memᴰ s rs × ((s.run_id == id) ≡ true)) × (e ≡ scan_step s)
unfolding list_steps
list_steps-only id e rs m =
    let (s, k, p) = scanned-only e (in_order (select (λ r. r.run_id == id) rs)) m in
    (s, select-only id s rs (in_order-only s (select (λ r. r.run_id == id) rs) k), p)
