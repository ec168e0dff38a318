-- ===== src/Task/Schedule.antt =====
-- task_schedule goes round the list from the task after the current one.
use synapse_kernel.Prelude.{
  ℕ, zero, suc, ◌≤◌, ◌<◌, ◌≡◌, ◌≢◌, refl, sym, List, [], ◌∷◌, ◌++◌, arith, All, ◌==◌, ◌∙◌, ap,
  if◌then◌else◌, inl, inr, Bool-cases, eq_of_==, ==_ne, ==_self, eok, err, enotask, einvarg, true,
  false, some, length, length-append, Errno, ◌⊎◌, efault,
}
use mathlib.Core.List.{append-nil}
use synapse_kernel.Task.{
  Ptr, null, Store, Tasks, TaskState, running, blocked, finished, is_ready, is_running, find_ready,
  task_schedule, task_switch, task_block, task_return, task_run_first_ever_task, set_state, Outcome,
  returns, runs,
}
use synapse_kernel.Task.Ring.{
  Links, Distinct, IsRing, IsTaskList, split, join, All-append, All-split, IsTaskList-transfer,
}
use synapse_kernel.Task.Remove.{ne_sym}

-- The first ready task of a list, NULL if there is none.
abbrev pub first_ready : Store → List Ptr → Ptr
first_ready store [] = null
first_ready store (x ∷ xs) = if is_ready (store x).state then x else first_ready store xs

scan :
    (store : Store) (fuel : ℕ) (start next : Ptr) (rest : List Ptr)
    → Links store next rest start
    → All (λ y. y ≢ start) rest
    → length rest < fuel
    → find_ready fuel store start next ≡ some (first_ready store (next ∷ rest))
unfolding find_ready
scan store zero start next rest l n h = absurd (omega arith)
scan store (suc fuel) start next [] l n h =
    rw (l.0, ==_self start)
      (elim (Bool-cases (is_ready (store next).state)) [ inl e ↦ rw e | inr e ↦ rw e ])
scan store (suc fuel) start next (y ∷ rest) l n h =
    rw (l.0, ==_ne y start n.0)
      (rw (scan store fuel start y rest l.2 n.1 (omega arith))
        (elim (Bool-cases (is_ready (store next).state)) [ inl e ↦ rw e | inr e ↦ rw e ]))

All-insert {ℓ} :
    (P : Ptr → Type ℓ) (ys : List Ptr) (x : Ptr) (xs : List Ptr)
    → P x
    → All P (ys ++ xs)
    → All P (ys ++ x ∷ xs)
All-insert P [] x xs p h = (p, h)
All-insert P (y ∷ ys) x xs p h = (h.0, All-insert P ys x xs p h.1)

Distinct-insert :
    (ys : List Ptr) (x : Ptr) (xs : List Ptr)
    → All (λ y. x ≢ y) (ys ++ xs)
    → Distinct (ys ++ xs)
    → Distinct (ys ++ x ∷ xs)
Distinct-insert [] x xs n d = (n, d)
Distinct-insert (y ∷ ys) x xs n d =
    (All-insert (λ z. y ≢ z) ys x xs (λ e. n.0 (sym e)) d.0, Distinct-insert ys x xs n.1 d.1)

All-swap {ℓ} : (P : Ptr → Type ℓ) (xs ys : List Ptr) → All P (xs ++ ys) → All P (ys ++ xs)
All-swap P xs ys h = let (p, q) = All-split P xs ys h in All-append P ys xs q p

Distinct-swap : (xs ys : List Ptr) → Distinct (xs ++ ys) → Distinct (ys ++ xs)
Distinct-swap [] ys d = rw (append-nil ys) d
Distinct-swap (x ∷ xs) ys d =
    Distinct-insert ys x xs (All-swap (λ y. x ≢ y) xs ys d.0) (Distinct-swap xs ys d.1)

-- A circle read from one of its later tasks.
rotate :
    (store : Store) (h : Ptr) (front : List Ptr) (c : Ptr) (back : List Ptr)
    → IsRing store h (front ++ c ∷ back)
    → IsRing store c (back ++ h ∷ front)
rotate store h front c back r =
    let (p, q) = split store h front c back h r.links in
    record {
      links = join store c back h front c q p;
      distinct = Distinct-swap (h ∷ front) (c ∷ back) r.distinct;
      non_null = All-swap (λ x. x ≢ null) (h ∷ front) (c ∷ back) r.non_null;
    }

-- The search from the task behind `c`, all the way round to `c`.
search_ring :
    (store : Store) (fuel : ℕ) (c : Ptr) (xs : List Ptr)
    → IsRing store c xs
    → length xs < fuel
    → find_ready fuel store (store c).next (store c).next ≡ some (first_ready store (xs ++ c ∷ []))
search_ring store fuel c [] r h = rw r.links.0 (scan store fuel c c [] r.links tt h)
search_ring store fuel c (x ∷ ys) r h = rw r.links.0 (
    scan store fuel x x (ys ++ c ∷ []) (join store x ys c [] x r.links.2 (r.links.0, r.links.1))
      (All-append (λ y. y ≢ x) ys (c ∷ []) (ne_sym x ys r.distinct.1.0) (r.distinct.0.0, tt))
      (omega (arith, length-append ys (c ∷ []))))

-- What task_schedule does once it has searched the tasks `order`.
abbrev pub scheduled : Tasks → List Ptr → Outcome × Tasks
scheduled s order =
    let next = first_ready s.task order in
    if next == null
    then (if is_running (s.task s.current_task).state
        then (returns eok, s)
        else (returns (err enotask), s))
    else task_switch next s

module _ (fuel : ℕ) (s : Tasks) (front : List Ptr) (c : Ptr) (back : List Ptr) where
  IsRing-of :
      IsTaskList s.task s.task_list_head (front ++ c ∷ back) → IsRing s.task c (back ++ front)
  IsRing-of = ring front
    where
      ring :
          (front : List Ptr)
          → IsTaskList s.task s.task_list_head (front ++ c ∷ back)
          → IsRing s.task c (back ++ front)
      ring [] (e, r) = rw (append-nil back) r
      ring (h ∷ front) (e, r) = rotate s.task h front c back r

  head_ne : IsTaskList s.task s.task_list_head (front ++ c ∷ back) → s.task_list_head ≢ null
  head_ne = go front
    where
      go :
          (front : List Ptr)
          → IsTaskList s.task s.task_list_head (front ++ c ∷ back)
          → s.task_list_head ≢ null
      go [] (e, r) = rw e r.non_null.0
      go (h ∷ front) (e, r) = rw e r.non_null.0

  found :
      IsTaskList s.task s.task_list_head (front ++ c ∷ back)
      → s.current_task ≡ c
      → length (front ++ c ∷ back) ≤ fuel
      → find_ready fuel s.task (s.task s.current_task).next (s.task s.current_task).next
        ≡ some (first_ready s.task ((back ++ front) ++ c ∷ []))
  found l e h = rw e (
      search_ring s.task fuel c (back ++ front) (IsRing-of l)
        (omega (arith, length-append front (c ∷ back), length-append back front)))

  -- With the current task in the list, and as much fuel as there are tasks, task_schedule ends:
  -- it tries the tasks behind the current one, then those from the head on, the current task
  -- last, and switches to the first that is ready. If none is, it returns EOK where the current
  -- task is running, and -ENOTASK otherwise.
  pub task_schedule-scheduled :
      IsTaskList s.task s.task_list_head (front ++ c ∷ back)
      → s.current_task ≡ c
      → length (front ++ c ∷ back) ≤ fuel
      → task_schedule fuel s ≡ some (scheduled s ((back ++ front) ++ c ∷ []))
  unfolding task_schedule
  task_schedule-scheduled l e h =
      let r = IsRing-of l in
      rw (==_ne s.task_list_head null (head_ne l))
        (rw (==_ne s.current_task null (rw e r.non_null.0)) (rw (found l e h)))

-- A state written into a task changes no link.
pub set_state-IsTaskList :
    (store : Store) (c : Ptr) (v : TaskState) (head : Ptr) (ts : List Ptr)
    → IsTaskList store head ts
    → IsTaskList (set_state store c v) head ts
set_state-IsTaskList store c v head ts =
    IsTaskList-transfer store (set_state store c v) head ts (λ x. (ground arith, ground arith))

-- A task that is not ready is passed over.
first_ready_without :
    (store : Store) (c : Ptr) (v : TaskState) (xs : List Ptr)
    → is_ready v ≡ false
    → All (λ x. c ≢ x) xs
    → first_ready (set_state store c v) (xs ++ c ∷ []) ≡ first_ready store xs
first_ready_without store c v [] e n = rw (==_self c, e)
first_ready_without store c v (x ∷ xs) e n =
    rw (==_ne c x n.0) (rw (first_ready_without store c v xs e n.1))

module _ (fuel : ℕ) (s : Tasks) (front : List Ptr) (c : Ptr) (back : List Ptr) where
  -- task_schedule after the current task got a state that is neither ready nor running.
  leave :
      (v : TaskState)
      → is_ready v ≡ false
      → is_running v ≡ false
      → IsTaskList s.task s.task_list_head (front ++ c ∷ back)
      → s.current_task ≡ c
      → length (front ++ c ∷ back) ≤ fuel
      → let s' = record s { task = set_state s.task c v } in
        let next = first_ready s.task (back ++ front) in
        task_schedule fuel s'
        ≡ some (if next == null then (returns (err enotask), s') else task_switch next s')
  leave v rd rn l e h =
      let s' : Tasks = record s { task = set_state s.task c v } in
      let l' = set_state-IsTaskList s.task c v s.task_list_head (front ++ c ∷ back) l in
      rw (task_schedule-scheduled fuel s' front c back l' e h) (
        rw
          (first_ready_without s.task c v (back ++ front) rd
            (IsRing-of fuel s front c back l).distinct.0)
          (rw (e, ==_self c, rn)))

  -- task_block takes the current task off the processor: it is blocked, whatever it was, and the
  -- first ready task of the others is switched to, or -ENOTASK returned if none is ready. The
  -- tasks behind the current one are tried first, then those from the head on.
  pub task_block-first_ready :
      IsTaskList s.task s.task_list_head (front ++ c ∷ back)
      → s.current_task ≡ c
      → length (front ++ c ∷ back) ≤ fuel
      → let s' = record s { task = set_state s.task c blocked } in
        let next = first_ready s.task (back ++ front) in
        task_block fuel s
        ≡ some (if next == null then (returns (err enotask), s') else task_switch next s')
  unfolding task_block
  task_block-first_ready l e h =
      rw (==_ne s.current_task null (rw e (IsRing-of fuel s front c back l).non_null.0)) (
        ap (λ x. task_schedule fuel (record s { task = set_state s.task x blocked })) e
        ∙ leave blocked refl refl l e h)

  -- task_return finishes the current task, and switches to the first ready task of the others
  -- as task_block does, or returns -ENOTASK if none is ready.
  pub task_return-first_ready :
      IsTaskList s.task s.task_list_head (front ++ c ∷ back)
      → s.current_task ≡ c
      → length (front ++ c ∷ back) ≤ fuel
      → let s' = record s { task = set_state s.task c finished } in
        let next = first_ready s.task (back ++ front) in
        task_return fuel s
        ≡ some (if next == null then (returns (err enotask), s') else task_switch next s')
  unfolding task_return
  task_return-first_ready l e h =
      rw (==_ne s.current_task null (rw e (IsRing-of fuel s front c back l).non_null.0)) (
        ap (λ x. task_schedule fuel (record s { task = set_state s.task x finished })) e
        ∙ leave finished refl refl l e h)

-- task_run_first_ever_task tries the tasks from the head on, and ends with as much fuel as there
-- are tasks: it switches to the first ready one, or returns -ENOTASK.
pub task_run_first_ever_task-first_ready :
    (fuel : ℕ) (s : Tasks) (ts : List Ptr)
    → IsTaskList s.task s.task_list_head ts
    → length ts ≤ fuel
    → let next = first_ready s.task ts in
      task_run_first_ever_task fuel s
      ≡ some (if next == null then (returns (err enotask), s) else task_switch next s)
unfolding task_run_first_ever_task
task_run_first_ever_task-first_ready fuel s [] l h =
    let empty : (s.task_list_head == null) ≡ true = ground arith in rw empty
task_run_first_ever_task-first_ready fuel s (t ∷ ts) (e, r) h =
    rw (==_ne s.task_list_head null (rw e r.non_null.0)) (rw (hit e r))
  where
    hit :
        s.task_list_head ≡ t
        → IsRing s.task t ts
        → find_ready fuel s.task s.task_list_head s.task_list_head
          ≡ some (first_ready s.task (t ∷ ts))
    hit e r = rw e (scan s.task fuel t t ts r.links (ne_sym t ts r.distinct.0) (omega arith))

-- task_switch ends on a task exactly when the task is not NULL and has a stack pointer and a
-- program counter; then the task is the current one and RUNNING. Otherwise it returns an error and
-- changes nothing.
pub task_switch-runs :
    (task : Ptr) (s : Tasks)
    → ((task ≢ null)
        × ((s.task task).registers.sp ≢ 0)
        × ((s.task task).registers.pc ≢ 0)
        × ((task_switch task s).0 ≡ runs task)
        × ((task_switch task s).1.current_task ≡ task)
        × (((task_switch task s).1.task task).state ≡ running))
      ⊎ (((task ≡ null) ⊎ ((s.task task).registers.sp ≡ 0) ⊎ ((s.task task).registers.pc ≡ 0))
          × ((e : Errno) × ((task_switch task s).0 ≡ returns (err e)))
          × ((task_switch task s).1 ≡ s))
unfolding task_switch
task_switch-runs task s = elim (Bool-cases (task == null)) [
  | inl z ↦ rw z (inr (inl (eq_of_== _ _ z), (einvarg, refl), refl))
  | inr a ↦ elim (Bool-cases ((s.task task).registers.sp == 0)) [
    | inl z ↦ rw (a, z) (inr (inr (inl (eq_of_== _ _ z)), (efault, refl), refl))
    | inr b ↦ elim (Bool-cases ((s.task task).registers.pc == 0)) [
      | inl z ↦ rw (a, b, z) (inr (inr (inr (eq_of_== _ _ z)), (efault, refl), refl))
      | inr c ↦
          rw (a, b, c) (inl (ground arith, ground arith, ground arith, refl, refl, ground arith))
    ]
  ]
]
