-- ===== src/Task/Ring.antt =====
-- The task list as a circle of distinct tasks.
use synapse_kernel.Prelude.{◌≡◌, ◌≢◌, List, [], ◌∷◌, ◌++◌, All, ◌∙◌}
use synapse_kernel.Task.{Ptr, null, Store}

-- From `a` the links lead through `xs` to `b`, and back.
abbrev pub Links : Store → Ptr → List Ptr → Ptr → Type 0
Links st a [] b = ((st a).next ≡ b) × ((st b).prev ≡ a)
Links st a (x ∷ xs) b = ((st a).next ≡ x) × ((st x).prev ≡ a) × Links st x xs b

abbrev pub Distinct : List Ptr → Type 0
Distinct [] = Unit
Distinct (x ∷ xs) = All (λ y. x ≢ y) xs × Distinct xs

-- The tasks `h ∷ xs` form the circle that starts at `h`.
pub record IsRing (st : Store) (h : Ptr) (xs : List Ptr) : Type 0 where
  pub links : Links st h xs h
  pub distinct : Distinct (h ∷ xs)
  pub non_null : All (λ x. x ≢ null) (h ∷ xs)

-- The last task of `a ∷ xs`.
abbrev pub last : Ptr → List Ptr → Ptr
last a [] = a
last a (x ∷ xs) = last x xs

module _ (st : Store) where
  pub prev-last : (a : Ptr) (xs : List Ptr) (b : Ptr) → Links st a xs b → (st b).prev ≡ last a xs
  prev-last a [] b l = l.1
  prev-last a (x ∷ xs) b l = prev-last x xs b l.2

  pub split :
      (a : Ptr) (xs : List Ptr) (t : Ptr) (ys : List Ptr) (b : Ptr)
      → Links st a (xs ++ t ∷ ys) b
      → Links st a xs t × Links st t ys b
  split a [] t ys b l = ((l.0, l.1), l.2)
  split a (x ∷ xs) t ys b l = let (p, q) = split x xs t ys b l.2 in ((l.0, l.1, p), q)

  pub join :
      (a : Ptr) (xs : List Ptr) (t : Ptr) (ys : List Ptr) (b : Ptr)
      → Links st a xs t
      → Links st t ys b
      → Links st a (xs ++ t ∷ ys) b
  join a [] t ys b p q = (p.0, p.1, q)
  join a (x ∷ xs) t ys b p q = (p.0, p.1, join x xs t ys b p.2 q)

-- Links read through a store that keeps the `next` of all but the last task, and the `prev` of
-- the tasks after the first.
pub transfer :
    (st st' : Store) (a : Ptr) (xs : List Ptr) (b : Ptr)
    → Links st a xs b
    → (st' a).next ≡ (st a).next
    → (st' b).prev ≡ (st b).prev
    → All (λ x. ((st' x).next ≡ (st x).next) × ((st' x).prev ≡ (st x).prev)) xs
    → Links st' a xs b
transfer st st' a [] b l n p same = (n ∙ l.0, p ∙ l.1)
transfer st st' a (x ∷ xs) b l n p same =
    (n ∙ l.0, same.0.1 ∙ l.1, transfer st st' x xs b l.2 same.0.0 p same.1)

pub All-map {ℓ κ} :
    {A : Type 0} (P : A → Type ℓ) (Q : A → Type κ) (xs : List A)
    → ((x : A) → P x → Q x)
    → All P xs
    → All Q xs
All-map P Q [] f h = tt
All-map P Q (x ∷ xs) f h = (f x h.0, All-map P Q xs f h.1)

pub All-append {ℓ} :
    {A : Type 0} (P : A → Type ℓ) (xs ys : List A) → All P xs → All P ys → All P (xs ++ ys)
All-append P [] ys p q = q
All-append P (x ∷ xs) ys p q = (p.0, All-append P xs ys p.1 q)

pub All-split {ℓ} :
    {A : Type 0} (P : A → Type ℓ) (xs ys : List A) → All P (xs ++ ys) → All P xs × All P ys
All-split P [] ys h = (tt, h)
All-split P (x ∷ xs) ys h = let (p, q) = All-split P xs ys h.1 in ((h.0, p), q)

pub All-last {ℓ} : (P : Ptr → Type ℓ) (a : Ptr) (xs : List Ptr) → All P (a ∷ xs) → P (last a xs)
All-last P a [] h = h.0
All-last P a (x ∷ xs) h = All-last P x xs h.1

pub Distinct-append :
    (xs : List Ptr) (t : Ptr) → Distinct xs → All (λ x. x ≢ t) xs → Distinct (xs ++ t ∷ [])
Distinct-append [] t d n = (tt, tt)
Distinct-append (x ∷ xs) t d n =
    (All-append (λ y. x ≢ y) xs (t ∷ []) d.0 (n.0, tt), Distinct-append xs t d.1 n.1)

-- Another store with the same links at the tasks of a circle.
pub IsRing-transfer :
    (st st' : Store) (h : Ptr) (xs : List Ptr)
    → All (λ x. ((st' x).next ≡ (st x).next) × ((st' x).prev ≡ (st x).prev)) (h ∷ xs)
    → IsRing st h xs
    → IsRing st' h xs
IsRing-transfer st st' h xs same r = record {
  links = transfer st st' h xs h r.links same.0.0 same.0.1 same.1;
  distinct = r.distinct;
  non_null = r.non_null;
}

-- The tasks of the kernel's list, from its head on.
abbrev pub IsTaskList : Store → Ptr → List Ptr → Type 0
IsTaskList st head [] = head ≡ null
IsTaskList st head (h ∷ xs) = (head ≡ h) × IsRing st h xs

pub All-every {ℓ} : (P : Ptr → Type ℓ) (xs : List Ptr) → ((x : Ptr) → P x) → All P xs
All-every P [] h = tt
All-every P (x ∷ xs) h = (h x, All-every P xs h)

-- A store with the same links everywhere holds the same list.
pub IsTaskList-transfer :
    (st st' : Store) (head : Ptr) (ts : List Ptr)
    → ((x : Ptr) → ((st' x).next ≡ (st x).next) × ((st' x).prev ≡ (st x).prev))
    → IsTaskList st head ts
    → IsTaskList st' head ts
IsTaskList-transfer st st' head [] same l = l
IsTaskList-transfer st st' head (h ∷ xs) same (e, r) =
    (e, IsRing-transfer st st' h xs (All-every _ (h ∷ xs) same) r)
