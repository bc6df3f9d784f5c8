-- ===== src/World/Clones.antt =====
-- src/server.c: the process that a thread belongs to.
use mathlib.Core.List.Memᴰ
use memprof.Common.{
  Bool-cases, eq→==, ==→eq, ◌==◌, false, ◌≢◌, ◌∙◌, ap, sym, Option-cases, arith, ◌∷◌, [], List,
  none, inr, inl, ◌⊎◌, ◌↔◌, ◌≡◌, ◌<◌, ◌≤◌, suc, zero, ℕ,
}
use mathlib.Core.List.{Memᴰ}
use mathlib.Core.Logic.{⊎_elim}
use memprof.World.{World}
use memprof.World.Served.{IsServed}
use memprof.World.Server.{mp_server_get_process_clones, open_pid_table, add_clones, clone_root}
use memprof.Common.Table.{Table}

-- With as many rounds as there are processes, the `while` loop along `clone_of` ends at a process
-- that is no clone.
clone_root-end :
    (f : ℕ) (w : World) (n : ℕ)
    → IsServed w
    → n < w.fresh
    → n < f
    → ((w.process (clone_root f w n)).clone_of ≡ none) × (clone_root f w n ≤ n)
unfolding clone_root
clone_root-end zero w n s lt enough = absurd (omega arith)
clone_root-end (suc f) w n s lt enough = elim (Option-cases (w.process n).clone_of) [
  | inl top ↦ rw (top, clone_root) (top, omega arith)
  | inr (m, there) ↦
      let before = s.older n m lt there in
      let ih = clone_root-end f w m s (omega (arith, before)) (omega (arith, before)) in
      rw (there, clone_root) (ih.0, omega (arith, ih.1, before))
]

not_root :
    (w : World) (parent n x : ℕ)
    → (clone_root w.fresh w n == parent) ≡ false
    → x ≡ n
    → clone_root w.fresh w x ≢ parent
not_root w parent n x other e same =
    let hit = eq→== _ _ (ap (clone_root w.fresh w) (sym e) ∙ same) in cc (hit, other)

mem-add_clones :
    (w : World) (parent x : ℕ) (t : Table ℕ) (result : List ℕ)
    → Memᴰ x (add_clones w parent t result)
      ↔ (Memᴰ x result ⊎ ((pid : ℕ) × Memᴰ (pid, x) t × (clone_root w.fresh w x ≡ parent)))
unfolding add_clones
mem-add_clones w parent x [] result = (inl, ⊎_elim (λ m. m) (λ p. absurd (Memᴰ.not-nil p.1)))
mem-add_clones w parent x ((pid, n) ∷ t) result =
    elim (Bool-cases (clone_root w.fresh w n == parent)) [
      | inr other ↦
          let ih = mem-add_clones w parent x t result in
          rw other (
            λ m. ⊎_elim inl (λ p. inr (p.0, Memᴰ.tail p.1, p.2)) (ih.0 m),
            ⊎_elim (λ m. ih.1 (inl m))
                (λ p.
                  ⊎_elim (λ e. absurd (not_root w parent n x other (ap (λ q. q.1) e) p.2))
                    (λ later. ih.1 (inr (p.0, later, p.2))) (Memᴰ.cases_cons p.1)),
          )
      | inl root ↦
          let ih = mem-add_clones w parent x t (n ∷ result) in
          rw root (
            λ m.
                ⊎_elim
                  (λ l.
                    ⊎_elim
                      (λ e. inr (
                        pid,
                        Memᴰ.head (ap (λ k. (pid, k)) e),
                        ap (clone_root w.fresh w) e ∙ ==→eq _ _ root,
                      ))
                      inl (Memᴰ.cases_cons l))
                  (λ p. inr (p.0, Memᴰ.tail p.1, p.2)) (ih.0 m),
            ⊎_elim (λ m. ih.1 (inl (Memᴰ.tail m)))
                (λ p.
                  ⊎_elim (λ e. ih.1 (inl (Memᴰ.head (ap (λ q. q.1) e))))
                    (λ later. ih.1 (inr (p.0, later, p.2))) (Memᴰ.cases_cons p.1)),
          )
    ]

-- The clones of a process are the processes of the table whose chain of `clone_of` ends at it. When
-- processes are known by their pids and come after what they are clones of, each chain ends, at a
-- process that is no clone.
pub clones_lem :
    (w : World) (parent x : ℕ)
    → IsServed w
    → (Memᴰ x (mp_server_get_process_clones w parent)
        ↔ ((pid : ℕ) × Memᴰ (pid, x) (open_pid_table w) × (clone_root w.fresh w x ≡ parent)))
      × (x < w.fresh → (w.process (clone_root w.fresh w x)).clone_of ≡ none)
unfolding mp_server_get_process_clones
clones_lem w parent x s =
    let found = mem-add_clones w parent x (open_pid_table w) [] in
    (
      (λ m. ⊎_elim (λ l. absurd (Memᴰ.not-nil l)) (λ p. p) (found.0 m), λ p. found.1 (inr p)),
      λ lt. (clone_root-end w.fresh w x s lt lt).0,
    )
