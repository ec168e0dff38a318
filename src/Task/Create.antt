-- ===== src/Task/Create.antt =====
-- task_new puts the new task at the end of the list.
use synapse_kernel.Prelude.{
  ℕ, ◌+◌, ◌%◌, ◌^◌, ◌≡◌, ◌≢◌, refl, List, [], ◌∷◌, ◌++◌, arith, All, ◌==◌, if◌then◌else◌, update,
  inl, inr, Bool-cases, ==_ne, ◌∙◌, ◌⊎◌, Bool, not, ◌&&◌,
}
use synapse_kernel.Task.{
  Ptr, null, Store, Task, Tasks, new, zero_task, task_size, link_last, task_new, priority_high,
  priority_low, priority_normal,
}
use synapse_kernel.Heap.Kheap.{kmalloc}
use synapse_kernel.Task.Ring.{
  Links, Distinct, IsRing, IsTaskList, last, prev-last, All-append, All-last, All-map,
  Distinct-append, IsRing-transfer,
}

module _ (store : Store) (h t : Ptr) (h≠ : h ≢ null) (t≠h : h ≢ t) where
  next_of :
      (p : Ptr)
      → (link_last store h t p).next
        ≡ (if p == (store h).prev then t else if p == t then h else (store p).next)
  unfolding link_last
  next_of p = ground arith

  prev_of :
      (p : Ptr)
      → (link_last store h t p).prev
        ≡ (if p == h then t else if p == t then (store h).prev else (store p).prev)
  unfolding link_last
  prev_of p = ground arith

  Links-last :
      (a : Ptr) (xs : List Ptr)
      → Links store a xs h
      → (store h).prev ≡ last a xs
      → All (λ x. x ≢ t) (a ∷ xs)
      → Distinct (a ∷ xs)
      → All (λ x. h ≢ x) xs
      → Links (link_last store h t) a (xs ++ t ∷ []) h
  Links-last a [] l e n d o = (
    ground (arith, next_of a, n.0, e),
    ground (arith, prev_of t, n.0, e),
    (ground (arith, next_of t, n.0, e), ground (arith, prev_of h, n.0)),
  )
  Links-last a (x ∷ xs) l e n d o =
      let ne : a ≢ last x xs = All-last (λ y. a ≢ y) x xs d.0 in
      (
        ground (arith, next_of a, n.0, ne),
        ground (arith, prev_of x, n.1.0, o.0),
        Links-last x xs l.2 e n.1 d.1 o.1,
      )

  link_last-IsRing :
      (xs : List Ptr)
      → t ≢ null
      → All (λ x. x ≢ t) (h ∷ xs)
      → IsRing store h xs
      → IsRing (link_last store h t) h (xs ++ t ∷ [])
  link_last-IsRing xs t≠ n r = record {
    links = Links-last h xs r.links (prev-last store h xs h r.links) n r.distinct r.distinct.0;
    distinct = Distinct-append (h ∷ xs) t r.distinct n;
    non_null = All-append (λ x. x ≢ null) (h ∷ xs) (t ∷ []) r.non_null (t≠, tt);
  }

-- Linking changes nothing but links.
unlinked :
    (store : Store) (h t p : Ptr)
    → ((link_last store h t p).id ≡ (store p).id)
      × ((link_last store h t p).state ≡ (store p).state)
      × ((link_last store h t p).priority ≡ (store p).priority)
unfolding link_last
unlinked store h t p = (ground arith, ground arith, ground arith)

-- The first task of a list is a circle of its own.
link_first : (store : Store) (t : Ptr) → t ≢ null → IsRing (link_last store null t) t []
unfolding link_last
link_first store t t≠ = record {
  links = (ground arith, ground arith);
  distinct = (tt, tt);
  non_null = (t≠, tt);
}

-- The tasks of a list do not change when one that is not in it is written.
write_beside :
    (store : Store) (t : Ptr) (v : Task) (h : Ptr) (xs : List Ptr)
    → All (λ x. x ≢ t) (h ∷ xs)
    → IsRing store h xs
    → IsRing (update store t v) h xs
write_beside store t v h xs n =
    IsRing-transfer store (update store t v) h xs
      (All-map (λ x. x ≢ t) _ (h ∷ xs) (λ x ne. (ground arith, ground arith)) n)

added :
    (store : Store) (head t : Ptr) (v : Task) (ts : List Ptr)
    → t ≢ null
    → All (λ x. x ≢ t) ts
    → IsTaskList store head ts
    → IsTaskList
        (link_last (update store t v) head t)
        (if head == null then t else head)
        (ts ++ t ∷ [])
added store head t v [] t≠ n l = rw l (refl, link_first (update store t v) t t≠)
added store head t v (h ∷ xs) t≠ n (e, r) =
    let h≠ : h ≢ null = r.non_null.0 in
    rw (e, ==_ne h null h≠)
      (
        refl,
        link_last-IsRing (update store t v) h t h≠ n.0 xs t≠ n (write_beside store t v h xs n r),
      )

-- The state that task_new leaves when it returns the task `t`.
abbrev pub fresh_task : ℕ → Tasks → Task
fresh_task task_priority s = record zero_task {
  id = s.next_task_id;
  priority = if task_priority == 0 then priority_normal else task_priority;
}

abbrev pub IsPriority : ℕ → Type 0
IsPriority p = (p ≡ 0) ⊎ (p ≡ 1) ⊎ (p ≡ 2)

abbrev with_task : ℕ → Tasks → Tasks
with_task task_priority s = record {
  heap = (kmalloc task_size s.heap).1;
  task =
      link_last (update s.task (kmalloc task_size s.heap).0 (fresh_task task_priority s))
        s.task_list_head (kmalloc task_size s.heap).0;
  task_list_head =
      if s.task_list_head == null then (kmalloc task_size s.heap).0 else s.task_list_head;
  current_task = s.current_task;
  next_task_id = (s.next_task_id + 1) % 2 ^ 32;
}

abbrev bad : ℕ → Bool
bad task_priority =
    not (task_priority == priority_high)
    && not (task_priority == priority_low)
    && not (task_priority == priority_normal)

task_new-ok :
    (task_priority : ℕ) (s : Tasks)
    → (task_new task_priority s).0 ≢ null
    → task_new task_priority s ≡ ((kmalloc task_size s.heap).0, with_task task_priority s)
unfolding task_new
task_new-ok task_priority s ne = elim (Bool-cases (bad task_priority)) [
  | inl t ↦ absurd (ne (rw t refl))
  | inr f ↦ elim (Bool-cases ((kmalloc task_size s.heap).0 == null)) [
    | inl t ↦ absurd (ne (rw (f, t)))
    | inr g ↦ rw (f, g)
  ]
]

-- When task_new returns a task, and its address is no listed task's, the list afterwards is the
-- old list with the new task at its end; the new task has the next identifier, the state NEW, and
-- the priority asked for, or NORMAL where LOW was asked for.
pub task_new-IsTaskList :
    (task_priority : ℕ) (s : Tasks) (ts : List Ptr)
    → IsTaskList s.task s.task_list_head ts
    → (task_new task_priority s).0 ≢ null
    → All (λ x. x ≢ (task_new task_priority s).0) ts
    → let (t, s') = task_new task_priority s in
      IsTaskList s'.task s'.task_list_head (ts ++ t ∷ [])
      × ((s'.task t).id ≡ s.next_task_id)
      × ((s'.task t).state ≡ new)
      × ((s'.task t).priority ≡ (if task_priority == 0 then priority_normal else task_priority))
task_new-IsTaskList task_priority s ts l t≠ n =
    let e = task_new-ok task_priority s t≠ in
    let t≠' : (kmalloc task_size s.heap).0 ≢ null = rw e at t≠ in
    let kept =
      unlinked (update s.task (kmalloc task_size s.heap).0 (fresh_task task_priority s))
        s.task_list_head (kmalloc task_size s.heap).0 (kmalloc task_size s.heap).0 in
    let n' : All (λ x. x ≢ (kmalloc task_size s.heap).0) ts = rw e at n in
    rw e (
      added s.task s.task_list_head (kmalloc task_size s.heap).0 (fresh_task task_priority s) ts t≠'
          n' l,
      kept.0 ∙ ground arith,
      kept.1 ∙ ground arith,
      kept.2 ∙ ground arith,
    )
