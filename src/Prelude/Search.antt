-- ===== src/Prelude/Search.antt =====
-- The search `for (int i = ...; i < n; i++) if (test(i)) return i;`.
use Prim.Native.Nat.{ℕ, zero, suc, ◌+◌, ◌≤◌, ◌<◌}
use mathlib.Core.Path.{◌≡◌, refl, sym}
use mathlib.Core.Logic.{◌⊎◌, inl, inr}
use mathlib.Core.Bool.{Bool, true, false}
use mathlib.Core.Option.{Option, none, some}
use native.Mathlib.Omega.{arith}
use synapse_kernel.Prelude.Tests.{if◌then◌else◌, Bool-cases, ◌==◌, eq_of_==}

-- The search from `i` on, with the rounds left; `none` when the loop ends.
unfoldable pub first_from : ℕ → ℕ → (ℕ → Bool) → Option ℕ
first_from zero i test = none
first_from (suc rounds) i test =
    let rest = first_from rounds (i + 1) test in if test i then some i else rest

-- No index passes the test.
pub record Exhausted (rounds i : ℕ) (test : ℕ → Bool) : Type 0 where
  pub ends : first_from rounds i test ≡ none
  pub fails : (j : ℕ) → i ≤ j → j < i + rounds → test j ≡ false

-- `j` is the first index that passes the test.
pub record FirstIndex (rounds i : ℕ) (test : ℕ → Bool) (j : ℕ) : Type 0 where
  pub finds : first_from rounds i test ≡ some j
  pub from : i ≤ j
  pub below : j < i + rounds
  pub passes : test j ≡ true
  pub least : (l : ℕ) → i ≤ l → l < j → test l ≡ false

pub first_from-cases :
    (rounds i : ℕ) (test : ℕ → Bool)
    → Exhausted rounds i test ⊎ ((j : ℕ) × FirstIndex rounds i test j)
unfolding first_from
first_from-cases zero i test = inl (record { ends = refl; fails = λ j a b. absurd (omega arith) })
first_from-cases (suc rounds) i test = elim (Bool-cases (test i)) [
  | inl e ↦ inr (
    i,
    record {
      finds = rw e;
      from = omega arith;
      below = omega arith;
      passes = e;
      least = λ l a b. absurd (omega arith);
    },
  )
  | inr e ↦ elim (first_from-cases rounds (i + 1) test) [
    | inl n ↦ inl (record {
      ends = rw (e, n.ends);
      fails = λ j a b. elim (Bool-cases (test j)) [
        | inl t ↦ elim (later i j a) [
          | inl same ↦ rw (sym same) e
          | inr above ↦ n.fails j above (omega arith)
        ]
        | inr f ↦ f
      ];
    })
    | inr (j, f) ↦ inr (
      j,
      record {
        finds = rw (e, f.finds);
        from = omega (arith, f.from);
        below = omega (arith, f.below);
        passes = f.passes;
        least = λ l a b. elim (later i l a) [
          | inl same ↦ rw (sym same) e
          | inr above ↦ f.least l above b
        ];
      },
    )
  ]
]
  where
    later : (i j : ℕ) → i ≤ j → (i ≡ j) ⊎ (i + 1 ≤ j)
    later i j h = elim (Bool-cases (i == j)) [
      | inl e ↦ inl (eq_of_== i j e)
      | inr e ↦ inr (ground arith)
    ]
