-- ===== src/Task/Remove.antt =====
-- task_free takes a task out of the list.
use synapse_kernel.Prelude.{
  ◌≡◌, ◌≢◌, refl, sym, List, [], ◌∷◌, ◌++◌, arith, All, ◌==◌, subst, if◌then◌else◌, ==_ne, ==_self,
  eok,
}
use mathlib.Core.List.{append-nil}
use synapse_kernel.Task.{Ptr, null, Store, Tasks, unlink, task_free}
use synapse_kernel.Task.Ring.{
  Links, Distinct, IsRing, IsTaskList, last, prev-last, split, join, transfer, All-last, All-split,
  All-map,
}

module _ (store : Store) (t : Ptr) (apart : (store t).prev ≢ t) (apart' : (store t).next ≢ t) where
  next_of :
      (p : Ptr)
      → (unlink store t p).next ≡ (if p == (store t).prev then (store t).next else (store p).next)
  unfolding unlink
  next_of p = ground arith

  prev_of :
      (p : Ptr)
      → (unlink store t p).prev ≡ (if p == (store t).next then (store t).prev else (store p).prev)
  unfolding unlink
  prev_of p = ground arith

  -- The links from `a` to `t` now lead to the task behind `t`.
  Links-before :
      (a : Ptr) (xs : List Ptr) (n : Ptr)
      → Links store a xs t
      → (store t).next ≡ n
      → Distinct (a ∷ xs)
      → All (λ x. x ≢ n) xs
      → Links (unlink store t) a xs n
  Links-before a [] n l e d o = (ground (arith, next_of a, l.1), ground (arith, prev_of n, l.1))
  Links-before a (x ∷ xs) n l e d o =
      let ne : a ≢ last x xs = All-last (λ y. a ≢ y) x xs d.0 in
      let at : (store t).prev ≡ last x xs = prev-last store x xs t l.2 in
      (
        ground (arith, next_of a, ne, l.0),
        ground (arith, prev_of x, o.0, l.1),
        Links-before x xs n l.2 e d.1 o.1,
      )

  -- The links behind `t` stay.
  Links-after :
      (b : Ptr) (ys : List Ptr) (h : Ptr)
      → Links store b ys h
      → (store t).next ≡ b
      → All (λ y. y ≢ (store t).prev) (b ∷ ys)
      → All (λ y. y ≢ b) ys
      → h ≢ b
      → Links (unlink store t) b ys h
  Links-after b ys h l e n o h≠ =
      transfer store (unlink store t) b ys h l (ground (arith, next_of b, n.0))
        (ground (arith, prev_of h)) (both ys n.1 o)
    where
      both :
          (ys : List Ptr)
          → All (λ y. y ≢ (store t).prev) ys
          → All (λ y. y ≢ b) ys
          → All
              (λ y.
                ((unlink store t y).next ≡ (store y).next)
                × ((unlink store t y).prev ≡ (store y).prev))
              ys
      both [] p q = tt
      both (y ∷ ys) p q =
          ((ground (arith, next_of y, p.0), ground (arith, prev_of y, q.0)), both ys p.1 q.1)

All-drop {ℓ} :
    (P : Ptr → Type ℓ) (front : List Ptr) (t : Ptr) (back : List Ptr)
    → All P (front ++ t ∷ back)
    → All P (front ++ back)
All-drop P [] t back h = h.1
All-drop P (a ∷ front) t back h = (h.0, All-drop P front t back h.1)

pub All-mid {ℓ} :
    (P : Ptr → Type ℓ) (front : List Ptr) (t : Ptr) (back : List Ptr)
    → All P (front ++ t ∷ back)
    → P t
All-mid P [] t back h = h.0
All-mid P (a ∷ front) t back h = All-mid P front t back h.1

Distinct-drop :
    (front : List Ptr) (t : Ptr) (back : List Ptr)
    → Distinct (front ++ t ∷ back)
    → Distinct (front ++ back)
Distinct-drop [] t back d = d.1
Distinct-drop (a ∷ front) t back d =
    (All-drop (λ y. a ≢ y) front t back d.0, Distinct-drop front t back d.1)

-- The tasks before `t` are none of those from `t` on.
Distinct-apart :
    (front : List Ptr) (t : Ptr) (back : List Ptr)
    → Distinct (front ++ t ∷ back)
    → Distinct front × Distinct (t ∷ back) × All (λ a. All (λ y. a ≢ y) (t ∷ back)) front
Distinct-apart [] t back d = (tt, d, tt)
Distinct-apart (a ∷ front) t back d =
    let (p, q, r) = Distinct-apart front t back d.1 in
    let (u, v) = All-split (λ y. a ≢ y) front (t ∷ back) d.0 in ((u, p), q, (v, r))

pub ne_sym : (a : Ptr) (ys : List Ptr) → All (λ y. a ≢ y) ys → All (λ y. y ≢ a) ys
ne_sym a ys h = All-map (λ y. a ≢ y) (λ y. y ≢ a) ys (λ y ne e. ne (sym e)) h

-- Taking the first task out of a circle of two or more.
unlink_first :
    (store : Store) (h x : Ptr) (ys : List Ptr)
    → IsRing store h (x ∷ ys)
    → IsRing (unlink store h) x ys
unlink_first store h x ys r = record {
  links =
      Links-before store h
        (rw (prev-last store h (x ∷ ys) h r.links)
          (λ e. All-last (λ y. h ≢ y) x ys r.distinct.0 (sym e)))
        (rw r.links.0 (λ e. r.distinct.0.0 (sym e))) x ys x r.links.2 r.links.0 r.distinct.1
        (ne_sym x ys r.distinct.1.0);
  distinct = r.distinct.1;
  non_null = r.non_null.1;
}

-- Taking a later task out of a circle.
unlink_later :
    (store : Store) (h : Ptr) (front : List Ptr) (t : Ptr) (back : List Ptr)
    → IsRing store h (front ++ t ∷ back)
    → IsRing (unlink store t) h (front ++ back)
unlink_later store h front t back r = record {
  links =
      links back (split store h front t back h r.links)
        (Distinct-apart (h ∷ front) t back r.distinct);
  distinct = Distinct-drop (h ∷ front) t back r.distinct;
  non_null = All-drop (λ x. x ≢ null) (h ∷ front) t back r.non_null;
}
  where
    links :
        (back : List Ptr)
        → Links store h front t × Links store t back h
        → Distinct (h ∷ front)
          × Distinct (t ∷ back)
          × All (λ a. All (λ y. a ≢ y) (t ∷ back)) (h ∷ front)
        → Links (unlink store t) h (front ++ back) h
    links [] (p, q) (d, e, apart) = rw (append-nil front) (
        Links-before store t
          (rw (prev-last store h front t p) (
            All-last (λ a. a ≢ t) h front
              (All-map (λ a. All (λ y. a ≢ y) (t ∷ [])) (λ a. a ≢ t) (h ∷ front) (λ a n. n.0)
                apart)))
          (rw q.0 apart.0.0) h front h p q.0 d (ne_sym h front d.0))
    links (b ∷ back) (p, q) (d, e, apart) =
        join (unlink store t) h front b back h
          (Links-before store t before_ne after_ne h front b p q.0 d (
            All-map (λ a. All (λ y. a ≢ y) (t ∷ b ∷ back)) (λ a. a ≢ b) front (λ a n. n.1.0)
              apart.1))
          (Links-after store t before_ne after_ne b back h q.2 q.0
            (subst (λ m. All (λ y. y ≢ m) (b ∷ back)) (sym (prev-last store h front t p))
              (ne_sym (last h front) (b ∷ back) last_ne.1))
            (ne_sym b back e.1.0) apart.0.1.0)
      where
        last_ne : All (λ y. last h front ≢ y) (t ∷ b ∷ back)
        last_ne = All-last (λ a. All (λ y. a ≢ y) (t ∷ b ∷ back)) h front apart

        before_ne : (store t).prev ≢ t
        before_ne = rw (prev-last store h front t p) last_ne.0

        after_ne : (store t).next ≢ t
        after_ne = rw q.0 (λ x. e.0.0 (sym x))

-- A later task of a circle is not linked to itself.
links_apart :
    (store : Store) (h : Ptr) (front : List Ptr) (t : Ptr) (back : List Ptr)
    → IsRing store h (front ++ t ∷ back)
    → (store t).next ≢ t
links_apart store h front t [] r =
    let (p, q) = split store h front t [] h r.links in
    rw q.0 (All-mid (λ y. h ≢ y) front t [] r.distinct.0)
links_apart store h front t (b ∷ back) r =
    let (p, q) = split store h front t (b ∷ back) h r.links in
    rw q.0 (λ e. (Distinct-apart (h ∷ front) t (b ∷ back) r.distinct).1.0.0 (sym e))

-- task_free of a task of the list succeeds, and the list afterwards is the old list without the
-- task, in the same order; the current task is NULL if it was this task, and the same otherwise.
pub task_free-IsTaskList :
    (s : Tasks) (front : List Ptr) (t : Ptr) (back : List Ptr)
    → IsTaskList s.task s.task_list_head (front ++ t ∷ back)
    → let (status, s') = task_free t s in
      (status ≡ eok)
      × IsTaskList s'.task s'.task_list_head (front ++ back)
      × (s'.current_task ≡ (if s.current_task == t then null else s.current_task))
unfolding task_free
task_free-IsTaskList s [] t [] (e, r) =
    rw (==_ne t null r.non_null.0) (rw (r.links.0, r.links.1, e, ==_self t) (refl, refl, refl))
task_free-IsTaskList s [] t (b ∷ back) (e, r) = rw (==_ne t null r.non_null.0) (
    rw (==_ne (s.task t).next t (rw r.links.0 (λ x. r.distinct.0.0 (sym x))), e, ==_self t)
      (refl, (r.links.0, unlink_first s.task t b back r), refl))
task_free-IsTaskList s (h ∷ front) t back (e, r) =
    rw (==_ne t null (All-mid (λ x. x ≢ null) (h ∷ front) t back r.non_null)) (
      rw (==_ne (s.task t).next t (links_apart s.task h front t back r)) (
        rw (e, ==_ne h t (All-mid (λ y. h ≢ y) front t back r.distinct.0))
          (refl, (refl, unlink_later s.task h front t back r), refl)))
